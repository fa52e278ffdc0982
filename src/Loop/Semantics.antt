-- ===== src/Loop/Semantics.antt =====
-- A semantics of procedural statements with jumps, and the loops that
-- src/frontends/systemverilog/uhdm_ast.cc accepts, over an abstract store of the design.
use synlig.Common.{ℕ, Bool, true, false, not, Option, none, some, ◌==◌, if◌then◌else◌}
use synlig.Common.Text.{text_eq}
use synlig.Ast.{
  AstNode, AstNodeType, Nodes, node, nil, cons, ast_identifier, ast_assign_eq, integer, before_back,
}
use synlig.Loop.{
  Statement, block, case, jump_break, jump_continue, plain, statement, continue_name, break_name,
}

-- The variables that the transformation may introduce.
pub data Flag : Type 0 where
  continue_flag break_flag : Flag

-- A store of the design, and the values of `$continue` and `$break`.
pub record State (S : Type 0) : Type 0 where
  pub user : S
  pub continued : Bool
  pub broken : Bool

pub data Outcome : Type 0 where
  normal stop next : Outcome

unfoldable pub flag_of : AstNode → Option Flag
flag_of (node ast_identifier f cs as') =
    if text_eq f.str continue_name
    then some continue_flag
    else if text_eq f.str break_name
    then some break_flag
    else none
flag_of _ = none

-- The flag that an assignment writes, and the value.
unfoldable pub flag_write : AstNodeType → Nodes → Option (Flag × Bool)
flag_write ast_assign_eq (cons target (cons v ns)) = elim (flag_of target) [
  | none ↦ none
  | some g ↦ some (g, not (integer v == 0))
]
flag_write _ _ = none

-- The integer of the first label of an arm.
unfoldable pub label : Nodes → ℕ
label nil = 0
label (cons n ns) = integer n

module _ {S : Type 0} where
  abbrev pub read : Flag → State S → Bool
  read continue_flag s = s.continued
  read break_flag s = s.broken

  abbrev pub write : Flag → Bool → State S → State S
  write continue_flag v s = record s { continued = v }
  write break_flag v s = record s { broken = v }

  abbrev pub seq : State S × Outcome → (State S → State S × Outcome) → State S × Outcome
  seq (s, o) k = elim o [ normal ↦ k s | stop ↦ (s, stop) | next ↦ (s, next) ]

  -- A statement with the children that `on_block` and `on_case` run, then the rest of the block.
  abbrev pub exec_step :
      Statement
      → (State S → State S × Outcome)
      → (State S → State S × Outcome)
      → (State S → State S)
      → (State S → State S × Outcome)
      → State S
      → State S × Outcome
  exec_step block on_block on_case effect on_rest s = seq (on_block s) on_rest
  exec_step case on_block on_case effect on_rest s = seq (on_case s) on_rest
  exec_step jump_break on_block on_case effect on_rest s = (s, stop)
  exec_step jump_continue on_block on_case effect on_rest s = (s, next)
  exec_step plain on_block on_case effect on_rest s = on_rest (effect s)

  abbrev pub arm_step :
      Bool
      → (State S → State S × Outcome)
      → (State S → State S × Outcome)
      → State S
      → State S × Outcome
  arm_step true on_arm on_rest s = on_arm s
  arm_step false on_arm on_rest s = on_rest s

  abbrev pub back_step : Statement → (State S → State S × Outcome) → State S → State S × Outcome
  back_step block on_block s = on_block s
  back_step _ on_block s = (s, normal)

  -- What the flags tell after the transformed code where the source has the outcome `o`.
  abbrev pub mark : State S × Outcome → State S
  mark (s, o) = elim o [
    | normal ↦ s
    | stop ↦ record s { continued = true; broken = true }
    | next ↦ record s { continued = true }
  ]

-- `act` is what a statement of the design does; `taken` tells whether the labels of an arm match.
module _ {S : Type 0} (act : AstNode → S → S) (taken : AstNode → Nodes → S → Bool) where
  unfoldable pub do_plain : AstNode → State S → State S
  do_plain (node t f cs as') s = elim (flag_write t cs) [
    | none ↦ record s { user = act (node t f cs as') s.user }
    | some (g, v) ↦ write g v s
  ]

  unfoldable pub arm_taken : AstNode → Nodes → State S → Bool
  arm_taken selector cs s = elim (flag_of selector) [
    | none ↦ taken selector (before_back cs) s.user
    | some g ↦ (if read g s then 1 else 0) == label cs
  ]

  -- The statements of a block, in order, up to the first jump.
  unfoldable mutual
    pub exec : Nodes → State S → State S × Outcome
    exec nil s = (s, normal)
    exec (cons (node t f cs as') rest) s =
        exec_step (statement t) (λ u. exec cs u) (λ u. exec_case cs u) (do_plain (node t f cs as'))
          (λ u. exec rest u) s

    -- The selector, then the arms.
    pub exec_case : Nodes → State S → State S × Outcome
    exec_case nil s = (s, normal)
    exec_case (cons selector arms) s = exec_arms arms selector s

    -- The first arm whose labels match.
    pub exec_arms : Nodes → AstNode → State S → State S × Outcome
    exec_arms nil selector s = (s, normal)
    exec_arms (cons (node t f cs as') arms) selector s =
        arm_step (arm_taken selector cs s) (λ u. exec_back cs u) (λ u. exec_arms arms selector u) s

    -- The statement of an arm; an arm whose last child is a label has none.
    pub exec_back : Nodes → State S → State S × Outcome
    exec_back nil s = (s, normal)
    exec_back (cons (node t f cs as') nil) s = back_step (statement t) (λ u. exec cs u) s
    exec_back (cons n (cons m ns)) s = exec_back (cons m ns) s
