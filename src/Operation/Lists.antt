-- ===== src/Operation/Lists.antt =====
-- src/frontends/systemverilog/uhdm_ast.cc: `find_ancestor`, and the operations on a list of operands
-- `process_list_op`, `process_cast_op` and `process_inside_op`.
use synlig.Common.{Bool, true, false, List, [], ◌∷◌, Option, none, some, ltb, if◌then◌else◌}
use synlig.Common.Text.{Text}
use synlig.Ast
use synlig.Ast.{
  AstNode, AstNodeType, Nodes, node, nil, cons, empty, new_fields, children, type, size, of_list,
  ◌++ₙ◌, ast_operator, ast_item, ast_cond, ast_identifier, always, event_edge, no_type,
}
use synlig.Loop.{make_ast_node}
use synlig.Operation.{Outcome, made, failed, pushed}
use synlig.Yosys.{Yosys}

-- The nearest of the nodes under construction that has a given type.
unfoldable pub find_ancestor : (AstNodeType → Bool) → List AstNode → Option AstNode
find_ancestor p [] = none
find_ancestor p (n ∷ ns) = let rest = find_ancestor p ns in if p (type n) then some n else rest

unfoldable pub is_always : AstNodeType → Bool
is_always (ast_item always) = true
is_always _ = false

unfoldable pub is_always_or_cond : AstNodeType → Bool
is_always_or_cond (ast_item always) = true
is_always_or_cond ast_cond = true
is_always_or_cond _ = false

-- A sensitivity without an edge.
unfoldable pub edge : AstNode → AstNode
edge (node ast_identifier f cs as') =
    node (ast_item event_edge) new_fields (cons (node ast_identifier f cs as') nil) empty
edge n = n

unfoldable pub list_operands : Bool → List AstNode → Nodes
list_operands of_always [] = nil
list_operands of_always (n ∷ ns) =
    cons (if of_always then edge n else n) (list_operands of_always ns)

unfoldable pub process_list_op : List AstNode → List AstNode → Outcome
process_list_op ancestors operands = elim (find_ancestor is_always_or_cond ancestors) [
  | none ↦ failed
  | some parent ↦ pushed (list_operands (is_always (type parent)) operands)
]

module _ (yosys : Yosys) (obj_name : Text) where
  -- Each operand is cloned into the node, over the one before.
  unfoldable pub clone_operands : AstNode → List AstNode → AstNode
  clone_operands current [] = current
  clone_operands current (n ∷ ns) = clone_operands n ns

  unfoldable pub process_cast_op : List AstNode → Outcome
  process_cast_op operands =
      made (clone_operands (make_ast_node yosys obj_name (ast_item no_type) nil) operands)

  abbrev pub first_of : Option AstNode → AstNode → AstNode
  first_of none n = n
  first_of (some lhs) n = lhs

  abbrev pub push_child : AstNode → AstNode → AstNode
  push_child (node t f cs as') n = node t f (cs ++ₙ cons n nil) as'

  abbrev pub binary_node : AstNodeType → AstNode → AstNode → AstNode
  binary_node t a b = node t new_fields (cons a (cons b nil)) empty

  -- The rounds over the operands of `inside`: the first two go into an equality, and each further
  -- one into an equality with the first that is one more alternative.
  unfoldable pub inside_rounds : Option AstNode → AstNode → List AstNode → AstNode
  inside_rounds lhs current [] = current
  inside_rounds lhs current (n ∷ ns) =
      let lhs' = first_of lhs n in
      let next =
        if ltb (size (children current)) 2
        then push_child current n
        else binary_node (ast_operator Ast.logic_or) current
            (binary_node (ast_operator Ast.eq) lhs' n) in
      inside_rounds (some lhs') next ns

  unfoldable pub process_inside_op : List AstNode → Outcome
  process_inside_op operands =
      made (inside_rounds none (make_ast_node yosys obj_name (ast_operator Ast.eq) nil) operands)
