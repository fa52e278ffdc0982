-- ===== src/Loop/Arms.antt =====
-- The arms of a case under `transform_block` of src/frontends/systemverilog/uhdm_ast.cc.
use synlig.Common.{
  Bool, true, false, ◌||◌, ◌≡◌, refl, sym, ap, ◌∙◌, and_true_left, and_true_right, false_of_not,
  arith,
}
use mathlib.Core.Path.{subst}
use synlig.Common.Text.{Text}
use synlig.Ast.{AstNode, AstNodeType, Attributes, Fields, Nodes, node, nil, cons, before_back}
use synlig.Yosys.{Yosys}
use synlig.Loop.{
  Statement, block, statement, Wires, cond_step, transform_block, transform_conds, transform_back,
}
use synlig.Loop.Semantics.{
  State, Outcome, normal, stop, next, arm_taken, exec, exec_case, exec_arms, exec_back, mark,
  flag_of, arm_step,
}
use synlig.Loop.Jumps.{
  jumps_arms, jumps_back, is_none, supported_arms, supported, supported_case, supported_back,
  arm_supported, back_supported, jumps,
}
use synlig.Loop.Blocks.{exec_back-normal, supported_selector_part, supported_jumps_part}
use synlig.Loop.Untouched.{transform_block_untouched}
use synlig.Loop.Simulation.{Simulates}

before_back_cons :
    (n k : AstNode) (ms ks : Nodes)
    → ms ≡ cons k ks
    → before_back (cons n ms) ≡ cons n (before_back ms)
before_back_cons n k ms ks e = rw e

pub mark_normal : {S : Type 0} (r : State S × Outcome) → r.1 ≡ normal → r ≡ (mark r, normal)
mark_normal (u, normal) e = refl
mark_normal (u, stop) e = cc
mark_normal (u, next) e = cc

arm_step-mark :
    {S : Type 0} (d : Bool) (b b' r r' : State S → State S × Outcome) (s : State S)
    → b' s ≡ (mark (b s), normal)
    → r' s ≡ (mark (r s), normal)
    → arm_step d b' r' s ≡ (mark (arm_step d b r s), normal)
arm_step-mark true b b' r r' s hb hr = hb
arm_step-mark false b b' r r' s hb hr = hr

pub or_false_unit : (b : Bool) → b ≡ (b || false)
or_false_unit true = refl
or_false_unit false = refl

pub arm_supported_rest :
    (cond seen arm_jumps in_back in_rest : Bool)
    → arm_supported cond seen arm_jumps in_back in_rest ≡ true
    → in_rest ≡ true
arm_supported_rest cond seen arm_jumps in_back in_rest h =
    and_true_right in_back in_rest (and_true_right _ _ h)

module _ (yosys : Yosys) (obj_name : Text) where
  pub transform_back-cons :
      (m : AstNode) (ns : Nodes) (w : Wires)
      → (k : AstNode) × (ks : Nodes) × ((transform_back yosys obj_name (cons m ns) w).0 ≡ cons k ks)
  unfolding transform_back
  transform_back-cons (node t f cs as') nil w = (_, _, refl)
  transform_back-cons m (cons n ns) w = (_, _, refl)

  -- The labels of an arm stay.
  before_back-transform_back :
      (ns : Nodes) (w : Wires) → before_back (transform_back yosys obj_name ns w).0 ≡ before_back ns
  unfolding transform_back
  before_back-transform_back nil w = refl
  before_back-transform_back (cons (node t f cs as') nil) w = refl
  before_back-transform_back (cons n (cons m ns)) w =
      let (k, ks, e) = transform_back-cons m ns w in
      before_back_cons n k _ ks e ∙ ap (cons n) (before_back-transform_back (cons m ns) w)

module _ (yosys : Yosys) (obj_name : Text) {S : Type 0} (act : AstNode → S → S)
    (taken : AstNode → Nodes → S → Bool) where
  exec_back_cons :
      (n k : AstNode) (ms ks : Nodes) (s : State S)
      → ms ≡ cons k ks
      → exec_back act taken (cons n ms) s ≡ exec_back act taken ms s
  unfolding exec
  exec_back_cons n k ms ks s e = rw e

  arm_taken_eq :
      (selector : AstNode) (cs cs' : Nodes) (s : State S)
      → is_none (flag_of selector) ≡ true
      → before_back cs' ≡ before_back cs
      → arm_taken act taken selector cs' s ≡ arm_taken act taken selector cs s
  unfolding arm_taken
  arm_taken_eq selector cs cs' s h e = ground arith

  abbrev pub ArmsSimulate : Nodes → AstNode → Bool → Type 0
  ArmsSimulate arms selector seen =
      (w : Wires)
      → ((transform_conds yosys obj_name arms w seen).2 ≡ (seen || jumps_arms arms))
        × ((s : State S)
            → s.continued ≡ false
            → exec_arms act taken (transform_conds yosys obj_name arms w seen).0 selector s
              ≡ (mark (exec_arms act taken arms selector s), normal))

  -- An arm with new children, which end normally where the arm jumps, before new arms.
  exec_arms-cons :
      (t : AstNodeType) (f : Fields) (cs cs' : Nodes) (as' : Attributes) (arms arms' : Nodes)
      (selector : AstNode) (s : State S)
      → arm_taken act taken selector cs' s ≡ arm_taken act taken selector cs s
      → exec_back act taken cs' s ≡ (mark (exec_back act taken cs s), normal)
      → exec_arms act taken arms' selector s ≡ (mark (exec_arms act taken arms selector s), normal)
      → exec_arms act taken (cons (node t f cs' as') arms') selector s
        ≡ (mark (exec_arms act taken (cons (node t f cs as') arms) selector s), normal)
  unfolding exec
  exec_arms-cons t f cs cs' as' arms arms' selector s same hb hr =
      ap (λ d. arm_step d (exec_back act taken cs') (exec_arms act taken arms' selector) s) same
      ∙ arm_step-mark (arm_taken act taken selector cs s) (exec_back act taken cs)
          (exec_back act taken cs') (exec_arms act taken arms selector)
          (exec_arms act taken arms' selector) s hb hr

  -- An arm that is not transformed holds no jump.
  kept_arm :
      (t : AstNodeType) (f : Fields) (cs : Nodes) (as' : Attributes) (arms : Nodes)
      (selector : AstNode) (seen : Bool)
      → jumps_back cs ≡ false
      → ArmsSimulate arms selector seen
      → (w : Wires)
      → ((transform_conds yosys obj_name arms w seen).2
          ≡ (seen || (jumps_back cs || jumps_arms arms)))
        × ((s : State S)
            → s.continued ≡ false
            → exec_arms act taken
                (cons (node t f cs as') (transform_conds yosys obj_name arms w seen).0)
                selector
                s
              ≡ (mark (exec_arms act taken (cons (node t f cs as') arms) selector s), normal))
  kept_arm t f cs as' arms selector seen h ih w = (
    (ih w).0 ∙ ap (λ b. seen || (b || jumps_arms arms)) (sym h),
    λ s c.
        exec_arms-cons t f cs cs as' arms _ selector s refl
          (mark_normal (exec_back act taken cs s) (exec_back-normal act taken cs s h))
          ((ih w).1 s c),
  )

  pub cond_step-Simulates :
      (d seen : Bool) (t : AstNodeType) (f : Fields) (cs : Nodes) (as' : Attributes) (arms : Nodes)
      (selector : AstNode)
      → is_none (flag_of selector) ≡ true
      → arm_supported d seen
          (jumps_back cs)
          (supported_back cs)
          (supported_arms arms (seen || jumps_back cs))
        ≡ true
      → (supported_back cs ≡ true
          → Simulates
              (jumps_back cs)
              (exec_back act taken cs)
              (transform_back yosys obj_name cs)
              (exec_back act taken))
      → ArmsSimulate arms selector (seen || jumps_back cs)
      → (w : Wires)
      → ((cond_step yosys obj_name d seen
            (λ ds. node t f ds as')
            cs
            (transform_back yosys obj_name cs)
            (transform_conds yosys obj_name arms)
            w).2
          ≡ (seen || (jumps_back cs || jumps_arms arms)))
        × ((s : State S)
            → s.continued ≡ false
            → exec_arms act taken
                (cond_step yosys obj_name d seen
                  (λ ds. node t f ds as')
                  cs
                  (transform_back yosys obj_name cs)
                  (transform_conds yosys obj_name arms)
                  w).0
                selector
                s
              ≡ (mark (exec_arms act taken (cons (node t f cs as') arms) selector s), normal))
  cond_step-Simulates true false t f cs as' arms selector free good hb hr w =
      let fine = and_true_left (supported_back cs) _ good in
      let back' = transform_back yosys obj_name cs w in
      let e = (hb fine w).0 in
      let ih = subst (λ j. ArmsSimulate arms selector j) (sym e) hr in
      (
        (ih back'.1).0 ∙ ap (λ b. b || jumps_arms arms) e,
        λ s c.
            exec_arms-cons t f cs back'.0 as' arms _ selector s
              (arm_taken_eq selector cs back'.0 s free
                (before_back-transform_back yosys obj_name cs w))
              ((hb fine w).1 s c) ((ih back'.1).1 s c),
      )
  cond_step-Simulates true true t f cs as' arms selector free good hb hr w =
      kept_arm t f cs as' arms selector true (ground arith) hr w
  cond_step-Simulates false true t f cs as' arms selector free good hb hr w =
      kept_arm t f cs as' arms selector true (ground arith) hr w
  cond_step-Simulates false false t f cs as' arms selector free good hb hr w =
      let h : jumps_back cs ≡ false = ground arith in
      kept_arm t f cs as' arms selector false h (subst (λ j. ArmsSimulate arms selector j) h hr) w

  -- The selector of a case stays.
  pub selector-Simulates :
      (t : AstNodeType) (f : Fields) (cs : Nodes) (as' : Attributes) (arms : Nodes)
      → supported_case (cons (node t f cs as') arms) ≡ true
      → ArmsSimulate arms (node t f cs as') false
      → Simulates
          (jumps_arms (cons (node t f cs as') arms))
          (exec_case act taken (cons (node t f cs as') arms))
          (λ w. transform_conds yosys obj_name (cons (node t f cs as') arms) w false)
          (exec_case act taken)
  unfolding exec jumps transform_block
  selector-Simulates t f cs as' arms h ih w = rw (supported_selector_part t f cs as' arms h).0 (
    (ih w).0 ∙ ap (λ b. b || jumps_arms arms) (sym (supported_jumps_part t f cs as' arms h)),
    (ih w).1,
  )

  -- The statement of an arm.
  pub back_step-Simulates :
      (k : Statement) (t : AstNodeType) (f : Fields) (cs : Nodes) (as' : Attributes)
      → statement t ≡ k
      → back_supported k (supported cs) (jumps cs) ≡ true
      → (supported cs ≡ true
          → Simulates
              (jumps cs)
              (exec act taken cs)
              (transform_block yosys obj_name cs)
              (exec act taken))
      → Simulates
          (jumps cs)
          (exec_back act taken (cons (node t f cs as') nil))
          (transform_back yosys obj_name (cons (node t f cs as') nil))
          (exec_back act taken)
  unfolding exec transform_block
  back_step-Simulates block t f cs as' e h hb = λ w. rw e ((hb h w).0, (hb h w).1)
  back_step-Simulates _ t f cs as' e h hb = λ w. rw e (
    ap (λ r. r.2) (transform_block_untouched yosys obj_name cs w (false_of_not (jumps cs) h))
        ∙ sym (false_of_not (jumps cs) h),
    λ s c. refl,
  )

  -- The labels before the statement of an arm.
  pub skip-Simulates :
      (n m : AstNode) (ns : Nodes)
      → Simulates
          (jumps_back (cons m ns))
          (exec_back act taken (cons m ns))
          (transform_back yosys obj_name (cons m ns))
          (exec_back act taken)
      → Simulates
          (jumps_back (cons n (cons m ns)))
          (exec_back act taken (cons n (cons m ns)))
          (transform_back yosys obj_name (cons n (cons m ns)))
          (exec_back act taken)
  unfolding exec jumps transform_block
  skip-Simulates n m ns ih w =
      let (k, ks, e) = transform_back-cons yosys obj_name m ns w in
      ((ih w).0, λ s c. exec_back_cons n k _ ks s e ∙ (ih w).1 s c)
