-- ===== src/Loop/Blocks.antt =====
-- Execution without jumps, and what execution does to the flags.
use synlig.Common.{
  Bool, true, false, ◌≡◌, refl, ◌||◌, arith, or_false_right, and_true_left, and_true_right,
  false_of_not,
}
use synlig.Ast.{AstNode, AstNodeType, Attributes, Fields, Nodes, node, nil, cons, type, children}
use synlig.Loop.{Statement, block, case, jump_break, jump_continue, plain, statement, is_cond}
use synlig.Loop.Semantics.{
  State, Outcome, normal, flag_of, flag_write, do_plain, arm_taken, exec, exec_case, exec_arms,
  exec_back, exec_step, arm_step, back_step,
}
use synlig.Loop.Jumps.{
  jumps, jumps_arms, jumps_back, jumps_step, is_none, supported, supported_case, supported_arms,
  supported_back, supported_step, arm_supported, back_supported,
}

-- An execution that ends normally if nothing in the code jumps.
abbrev pub EndsNormally : {S : Type 0} → Bool → (State S → State S × Outcome) → Type 0
EndsNormally {S} j run = (s : State S) → j ≡ false → (run s).1 ≡ normal

-- An execution that leaves the flags alone.
abbrev pub KeepsFlags : {S : Type 0} → Bool → (State S → State S × Outcome) → Type 0
KeepsFlags {S} good run =
    (s : State S)
    → good ≡ true
    → ((run s).0.continued ≡ s.continued) × ((run s).0.broken ≡ s.broken)

-- The parts of a supported case.
pub supported_selector_part :
    (t : AstNodeType) (f : Fields) (cs : Nodes) (as' : Attributes) (arms : Nodes)
    → supported_case (cons (node t f cs as') arms) ≡ true
    → (is_cond t ≡ false) × (is_none (flag_of (node t f cs as')) ≡ true)
unfolding supported
supported_selector_part t f cs as' arms h =
    let front = and_true_left _ _ h in
    let behind = and_true_right _ _ h in
    (false_of_not _ (and_true_left _ _ front), and_true_left _ _ behind)

pub supported_arms_part :
    (t : AstNodeType) (f : Fields) (cs : Nodes) (as' : Attributes) (arms : Nodes)
    → supported_case (cons (node t f cs as') arms) ≡ true
    → supported_arms arms false ≡ true
unfolding supported
supported_arms_part t f cs as' arms h = and_true_right _ _ (and_true_right _ _ h)

pub supported_jumps_part :
    (t : AstNodeType) (f : Fields) (cs : Nodes) (as' : Attributes) (arms : Nodes)
    → supported_case (cons (node t f cs as') arms) ≡ true
    → jumps_back cs ≡ false
unfolding supported
supported_jumps_part t f cs as' arms h = false_of_not _ (and_true_right _ _ (and_true_left _ _ h))

module _ {S : Type 0} where
  exec_step-EndsNormally :
      (k : Statement) (b c r : State S → State S × Outcome) (f : State S → State S)
      (jb jc jr : Bool)
      → EndsNormally jb b
      → EndsNormally jc c
      → EndsNormally jr r
      → EndsNormally (jumps_step k jb jc jr) (exec_step k b c f r)
  exec_step-EndsNormally block b c r f jb jc jr hb hc hr s h = ground (arith, hb s, hr (b s).0)
  exec_step-EndsNormally case b c r f jb jc jr hb hc hr s h = ground (arith, hc s, hr (c s).0)
  exec_step-EndsNormally jump_break b c r f jb jc jr hb hc hr s h = cc
  exec_step-EndsNormally jump_continue b c r f jb jc jr hb hc hr s h = cc
  exec_step-EndsNormally plain b c r f jb jc jr hb hc hr s h = hr (f s) h

  arm_step-EndsNormally :
      (d : Bool) (b r : State S → State S × Outcome) (jb jr : Bool)
      → EndsNormally jb b
      → EndsNormally jr r
      → EndsNormally (jb || jr) (arm_step d b r)
  arm_step-EndsNormally true b r jb jr hb hr s h = ground (arith, hb s)
  arm_step-EndsNormally false b r jb jr hb hr s h = ground (arith, hr s)

  back_step-EndsNormally :
      (k : Statement) (b : State S → State S × Outcome) (jb : Bool)
      → EndsNormally jb b
      → EndsNormally jb (back_step k b)
  back_step-EndsNormally block b jb hb s h = hb s h
  back_step-EndsNormally _ b jb hb s h = refl

  exec_step-KeepsFlags :
      (k : Statement) (b c r : State S → State S × Outcome) (f : State S → State S)
      (gb gc gp gr : Bool)
      → KeepsFlags gb b
      → KeepsFlags gc c
      → KeepsFlags gp (λ s. (f s, normal))
      → KeepsFlags gr r
      → KeepsFlags (supported_step k gb gc gp gr) (exec_step k b c f r)
  exec_step-KeepsFlags block b c r f gb gc gp gr hb hc hp hr s h = ground (arith, hb s, hr (b s).0)
  exec_step-KeepsFlags case b c r f gb gc gp gr hb hc hp hr s h = ground (arith, hc s, hr (c s).0)
  exec_step-KeepsFlags jump_break b c r f gb gc gp gr hb hc hp hr s h = (refl, refl)
  exec_step-KeepsFlags jump_continue b c r f gb gc gp gr hb hc hp hr s h = (refl, refl)
  exec_step-KeepsFlags plain b c r f gb gc gp gr hb hc hp hr s h = ground (arith, hp s, hr (f s))

  arm_step-KeepsFlags :
      (d : Bool) (b r : State S → State S × Outcome) (cond seen arm_jumps gb gr : Bool)
      → KeepsFlags gb b
      → KeepsFlags gr r
      → KeepsFlags (arm_supported cond seen arm_jumps gb gr) (arm_step d b r)
  arm_step-KeepsFlags true b r cond seen arm_jumps gb gr hb hr s h = ground (arith, hb s)
  arm_step-KeepsFlags false b r cond seen arm_jumps gb gr hb hr s h = ground (arith, hr s)

  back_step-KeepsFlags :
      (k : Statement) (b : State S → State S × Outcome) (gb arm_jumps : Bool)
      → KeepsFlags gb b
      → KeepsFlags (back_supported k gb arm_jumps) (back_step k b)
  back_step-KeepsFlags block b gb arm_jumps hb s h = hb s h
  back_step-KeepsFlags _ b gb arm_jumps hb s h = (refl, refl)

module _ {S : Type 0} (act : AstNode → S → S) (taken : AstNode → Nodes → S → Bool) where
  pub do_plain-KeepsFlags :
      (n : AstNode)
      → KeepsFlags
          (is_none (flag_write (type n) (children n)))
          (λ s. (do_plain act taken n s, normal))
  unfolding do_plain
  do_plain-KeepsFlags (node t f cs as') s h = ground arith

  mutual
    unfolding jumps exec

    pub exec-normal : (ns : Nodes) → EndsNormally (jumps ns) (exec act taken ns)
    exec-normal nil = λ s h. refl
    exec-normal (cons (node t f cs as') rest) =
        exec_step-EndsNormally (statement t) _ _ _ _ _ _ _ (exec-normal cs) (exec_case-normal cs)
          (exec-normal rest)

    pub exec_case-normal : (ns : Nodes) → EndsNormally (jumps_arms ns) (exec_case act taken ns)
    exec_case-normal nil = λ s h. refl
    exec_case-normal (cons (node t f cs as') arms) = λ s h.
        exec_arms-normal arms (node t f cs as') s
          (or_false_right (jumps_back cs) (jumps_arms arms) h)

    exec_arms-normal :
        (ns : Nodes) (n : AstNode) → EndsNormally (jumps_arms ns) (exec_arms act taken ns n)
    exec_arms-normal nil n = λ s h. refl
    exec_arms-normal (cons (node t f cs as') arms) n = λ s.
        arm_step-EndsNormally (arm_taken act taken n cs s) _ _ _ _ (exec_back-normal cs)
          (exec_arms-normal arms n) s

    pub exec_back-normal : (ns : Nodes) → EndsNormally (jumps_back ns) (exec_back act taken ns)
    exec_back-normal nil = λ s h. refl
    exec_back-normal (cons (node t f cs as') nil) =
        back_step-EndsNormally (statement t) _ _ (exec-normal cs)
    exec_back-normal (cons n (cons m ns)) = exec_back-normal (cons m ns)

  mutual
    unfolding supported jumps exec

    pub exec-KeepsFlags : (ns : Nodes) → KeepsFlags (supported ns) (exec act taken ns)
    exec-KeepsFlags nil = λ s h. (refl, refl)
    exec-KeepsFlags (cons (node t f cs as') rest) =
        exec_step-KeepsFlags (statement t) _ _ _ _ _ _ _ _ (exec-KeepsFlags cs)
          (exec_case-KeepsFlags cs) (do_plain-KeepsFlags (node t f cs as')) (exec-KeepsFlags rest)

    pub exec_case-KeepsFlags :
        (ns : Nodes) → KeepsFlags (supported_case ns) (exec_case act taken ns)
    exec_case-KeepsFlags nil = λ s h. (refl, refl)
    exec_case-KeepsFlags (cons (node t f cs as') arms) = λ s h.
        exec_arms-KeepsFlags arms (node t f cs as') false s (supported_arms_part t f cs as' arms h)

    exec_arms-KeepsFlags :
        (ns : Nodes) (n : AstNode) (seen : Bool)
        → KeepsFlags (supported_arms ns seen) (exec_arms act taken ns n)
    exec_arms-KeepsFlags nil n seen = λ s h. (refl, refl)
    exec_arms-KeepsFlags (cons (node t f cs as') arms) n seen = λ s.
        arm_step-KeepsFlags (arm_taken act taken n cs s) _ _ _ _ _ _ _ (exec_back-KeepsFlags cs)
          (exec_arms-KeepsFlags arms n (seen || jumps_back cs)) s

    pub exec_back-KeepsFlags :
        (ns : Nodes) → KeepsFlags (supported_back ns) (exec_back act taken ns)
    exec_back-KeepsFlags nil = λ s h. (refl, refl)
    exec_back-KeepsFlags (cons (node t f cs as') nil) =
        back_step-KeepsFlags (statement t) _ _ _ (exec-KeepsFlags cs)
    exec_back-KeepsFlags (cons n (cons m ns)) = exec_back-KeepsFlags (cons m ns)
