-- ===== src/Statement/Loops.antt =====
-- src/frontends/systemverilog/uhdm_ast.cc: `process_for`, `process_while` and `process_repeat`.
use synlig.Common.{ℕ, Bool, true, false, List, [], ◌∷◌, ◌++◌, Option, none, some, if◌then◌else◌}
use synlig.Common.Decimal.{to_string}
use synlig.Common.Text.{Text, codes}
use synlig.Ast.{
  AstNode, AstNodeType, node, nil, cons, empty, new_fields, type, of_list, ◌++ₙ◌, ast_item,
  ast_block, ast_assign_eq, ast_identifier, ast_wire, ast_for, ast_while, ast_repeat, assign_le,
}
use synlig.Loop
use synlig.Loop.{make_ast_node, transform_breaks_continues}
use synlig.Statement.{is_block}
use synlig.Vpi.{
  Vpi, visit_one_to_one, visit_one_to_many, vpi_stmt, vpi_condition, vpi_for_init_stmt,
  vpi_for_inc_stmt,
}
use synlig.Yosys.{Yosys}

-- A loop within the block of its declarations, or why there is none.
pub data Outcome : Type 0 where
  made : AstNode → Outcome
  -- `log_error` of the transformation of breaks
  unsupported_loop : Outcome
  -- The last child of a loop without children, or a child of a null pointer, is read.
  absent_node : Outcome

-- The visited nodes, none of which may be a null pointer.
unfoldable pub all_present : List (Option AstNode) → Option (List AstNode)
all_present [] = some []
all_present (none ∷ os) = none
all_present (some n ∷ os) = elim (all_present os) [ none ↦ none | some ns ↦ some (n ∷ ns) ]

-- A body without a name gets the name of the loop.
unfoldable pub named : Text → AstNode → AstNode
named loop_name (node t f cs as') = elim (f.str) [
  | [] ↦ node t (record f { str = loop_name }) cs as'
  | c ∷ s ↦ node t f cs as'
]

unfoldable pub blocking : AstNodeType → AstNodeType
blocking (ast_item assign_le) = ast_assign_eq
blocking t = t

unfoldable pub is_wire : AstNodeType → Bool
is_wire ast_wire = true
is_wire _ = false

-- An assignment of the initialization: the wire that it declares, if any, and the assignment.
unfoldable pub for_init : AstNode → Option (List AstNode × AstNode)
for_init (node t f nil as') = none
for_init (node t f (cons (node u g ds bs) cs) as') =
    let identifier = node ast_identifier (record g { is_signed = false }) nil empty in
    if is_wire u
    then some (
      node u (record g { is_logic = true }) ds bs ∷ [],
      node (blocking t) f (cons identifier cs) as',
    )
    else some ([], node (blocking t) f (cons (node u g ds bs) cs) as')

unfoldable pub for_inits : List AstNode → Option (List AstNode × List AstNode)
for_inits [] = some ([], [])
for_inits (n ∷ ns) = elim (for_init n) [
  | none ↦ none
  | some (wires, assignment) ↦ elim (for_inits ns) [
    | none ↦ none
    | some (more, rest) ↦ some (wires ++ more, assignment ∷ rest)
  ]
]

unfoldable pub for_increments : List AstNode → List AstNode
for_increments [] = []
for_increments (node t f cs as' ∷ ns) = node (blocking t) f cs as' ∷ for_increments ns

abbrev decl_block : Text → List AstNode → AstNode
decl_block name ns = node ast_block (record new_fields { str = name }) (of_list ns) empty

abbrev loop_node : AstNodeType → Text → List AstNode → AstNode
loop_node t name ns = node t (record new_fields { str = name }) (of_list ns) empty

abbrev pub push_loop : AstNode → AstNode → AstNode
push_loop (node t f cs as') loop = node t f (cs ++ₙ cons loop nil) as'

-- The loop is the last child of the block, whose other children the transformation adds to in front.
unfoldable pub outcome : Loop.Result (AstNode × AstNode) → Outcome
outcome (Loop.ok (loop, block)) = made (push_loop block loop)
outcome Loop.unsupported_loop = unsupported_loop
outcome Loop.no_body = absent_node

module _ (yosys : Yosys) (obj_name : Text) where
  -- The bodies of a `while` and of a `repeat` loop.
  unfoldable pub while_body : Text → AstNode → AstNode
  while_body loop_name n =
      named loop_name
        (if is_block (type n) then n else make_ast_node yosys obj_name ast_block (cons n nil))

  unfoldable pub repeat_body : Text → AstNode → AstNode
  repeat_body loop_name n =
      named loop_name
        (if is_block (type n) then n else node ast_block new_fields (cons n nil) empty)

  -- The body of a `for` loop gets the name of the block where it is no block.
  unfoldable pub for_body : Text → Text → AstNode → AstNode
  for_body block_name loop_name n =
      if is_block (type n) then named loop_name n else decl_block block_name (n ∷ [])

  abbrev pub bodies : (AstNode → AstNode) → List AstNode → List AstNode
  bodies f [] = []
  bodies f (n ∷ ns) = f n ∷ bodies f ns

  abbrev pub loop_name : ℕ → Text
  loop_name loop_id = codes "$loop" ++ to_string loop_id

  -- `transform_breaks_continues` on the loop.
  unfoldable pub close_loop : AstNodeType → Text → ℕ → List AstNode → List AstNode → Outcome
  close_loop t block_name loop_id declarations parts = outcome (
      transform_breaks_continues yosys obj_name (loop_node t (loop_name loop_id) parts)
        (decl_block block_name declarations))

  -- A loop with a condition and a body.
  unfoldable pub conditional_loop :
      AstNodeType
      → Text
      → ℕ
      → (Text → AstNode → AstNode)
      → Option (List AstNode)
      → Option (List AstNode)
      → Outcome
  conditional_loop t block_name loop_id body none statements = absent_node
  conditional_loop t block_name loop_id body (some cs) none = absent_node
  conditional_loop t block_name loop_id body (some cs) (some ss) =
      close_loop t (block_name ++ to_string loop_id) loop_id []
        (cs ++ bodies (body (loop_name loop_id)) ss)

  unfoldable pub for_loop :
      ℕ
      → Option (List AstNode × List AstNode)
      → Option (List AstNode)
      → List AstNode
      → List AstNode
      → Outcome
  for_loop loop_id none conditions increments ss = absent_node
  for_loop loop_id (some inits) none increments ss = absent_node
  for_loop loop_id (some (wires, inits)) (some cs) increments ss =
      let block_name = codes "$fordecl_block" ++ to_string loop_id in
      close_loop ast_for block_name loop_id wires (
        inits
        ++ (cs
            ++ (for_increments increments ++ bodies (for_body block_name (loop_name loop_id)) ss)))

  unfoldable pub only_present : List (Option AstNode) → List AstNode
  only_present [] = []
  only_present (none ∷ os) = only_present os
  only_present (some n ∷ os) = n ∷ only_present os

  module _ {Handle : Type 0} (vpi : Vpi Handle) where
    -- `loop_id` is the next number of a loop.
    unfoldable pub process_while : ℕ → Handle → Outcome
    process_while loop_id h =
        conditional_loop ast_while (codes "$whiledecl_block") loop_id while_body
          (all_present (visit_one_to_one vpi (vpi_condition ∷ []) h))
          (all_present (visit_one_to_one vpi (vpi_stmt ∷ []) h))

    unfoldable pub process_repeat : ℕ → Handle → Outcome
    process_repeat loop_id h =
        conditional_loop ast_repeat (codes "$repeatdecl_block") loop_id repeat_body
          (all_present (visit_one_to_one vpi (vpi_condition ∷ []) h))
          (all_present (visit_one_to_one vpi (vpi_stmt ∷ []) h))

    unfoldable pub process_for : ℕ → Handle → Outcome
    process_for loop_id h =
        for_loop loop_id (for_inits (visit_one_to_many vpi (vpi_for_init_stmt ∷ []) h))
          (all_present (visit_one_to_one vpi (vpi_condition ∷ []) h))
          (visit_one_to_many vpi (vpi_for_inc_stmt ∷ []) h)
          (only_present (visit_one_to_one vpi (vpi_stmt ∷ []) h))
