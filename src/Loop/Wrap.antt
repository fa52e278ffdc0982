-- ===== src/Loop/Wrap.antt =====
-- What the nodes that the transformation creates do when they run.
use synlig.Common.{Bool, true, false, ◌≡◌, refl, arith, if◌then◌else◌, ◌==◌, ap}
use synlig.Common.Text.{Text}
use synlig.Ast.{AstNode, AstNodeType, Attributes, Fields, Nodes, node, cons}
use synlig.Yosys.{Yosys}
use synlig.Loop.{Statement, statement, assign, wrap, continue_name, break_name}
use synlig.Loop.Semantics.{
  State, Outcome, normal, stop, next, do_plain, arm_taken, exec, exec_case, exec_step, flag_of,
  flag_write, label, seq, arm_step,
}

pub seq-unit : {S : Type 0} (r : State S × Outcome) → seq r (λ u. (u, normal)) ≡ r
seq-unit (s, normal) = refl
seq-unit (s, stop) = refl
seq-unit (s, next) = refl

-- A case with one arm, under the label 0.
if_zero :
    {S : Type 0} (b : Bool) (run : State S → State S × Outcome) (s : State S)
    → seq (arm_step ((if b then 1 else 0) == 0) run (λ u. (u, normal)) s) (λ u. (u, normal))
      ≡ (if b then (s, normal) else run s)
if_zero true run s = refl
if_zero false run s = seq-unit (run s)

module _ (yosys : Yosys) (obj_name : Text) {S : Type 0} (act : AstNode → S → S)
    (taken : AstNode → Nodes → S → Bool) where
  pub exec-cons :
      (k : Statement) (t : AstNodeType) (f : Fields) (cs : Nodes) (as' : Attributes) (rest : Nodes)
      (s : State S)
      → statement t ≡ k
      → exec act taken (cons (node t f cs as') rest) s
        ≡ exec_step k
            (exec act taken cs)
            (exec_case act taken cs)
            (do_plain act taken (node t f cs as'))
            (exec act taken rest)
            s
  unfolding exec
  exec-cons k t f cs as' rest s e =
      ap
        (λ m.
          exec_step m (exec act taken cs) (exec_case act taken cs)
            (do_plain act taken (node t f cs as')) (exec act taken rest) s)
        e

  pub exec-assign_continue :
      (rest : Nodes) (s : State S)
      → exec act taken (cons (assign yosys obj_name continue_name 1) rest) s
        ≡ exec act taken rest (record s { continued = true })
  unfolding exec assign flag_of flag_write do_plain statement
  exec-assign_continue rest s = rw (yosys.mkconst_int_integer 1 false 32 (omega arith))

  pub exec-assign_break :
      (rest : Nodes) (s : State S)
      → exec act taken (cons (assign yosys obj_name break_name 1) rest) s
        ≡ exec act taken rest (record s { broken = true })
  unfolding exec assign flag_of flag_write do_plain statement
  exec-assign_break rest s = rw (yosys.mkconst_int_integer 1 false 32 (omega arith))

  -- The rest of a block under `if (!$continue)`.
  pub exec-wrap :
      (rest : Nodes) (s : State S)
      → exec act taken (wrap yosys obj_name rest) s
        ≡ (if s.continued then (s, normal) else exec act taken rest s)
  unfolding exec wrap arm_taken flag_of label statement
  exec-wrap rest s =
      rw (yosys.mkconst_int_integer 0 false 1 (omega arith))
        (if_zero s.continued (exec act taken rest) s)
