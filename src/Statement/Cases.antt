-- ===== src/Statement/Cases.antt =====
-- src/frontends/systemverilog/uhdm_ast.cc: `process_if_else`, `process_case`, `process_case_item` and
-- `process_gate`.
use synlig.Common.{Bool, true, false, List, [], ◌∷◌, ◌++◌, Option, none, some, ◌==◌, if◌then◌else◌}
use synlig.Common.Text.{Text, codes}
use synlig.Ast
use synlig.Ast.{
  AstNode, AstNodeType, Nodes, Attributes, node, nil, cons, empty, new_fields, type, size, of_list,
  ◌++ₙ◌, ast_operator, ast_item, ast_block, ast_case, ast_cond, ast_condx, ast_condz, default,
  primitive, fields,
}
use synlig.Attributes.{insert}
use synlig.Loop.{make_ast_node}
use synlig.Statement.{is_block}
use synlig.Statement.Loops.{all_present}
use synlig.Vpi.{
  Vpi, visit_one_to_one, visit_one_to_many, vpi_stmt, vpi_else_stmt, vpi_condition, vpi_case_item,
  vpi_operand, vpi_prim_term,
}
use synlig.Yosys.{Yosys}

abbrev pub plain_node : AstNodeType → Nodes → AstNode
plain_node t ns = node t new_fields ns empty

-- The blocks of the branches: one for each visited statement, empty for a null pointer.
unfoldable pub branch_blocks : List (Option AstNode) → List AstNode
branch_blocks [] = []
branch_blocks (none ∷ os) = plain_node ast_block nil ∷ branch_blocks os
branch_blocks (some n ∷ os) = plain_node ast_block (cons n nil) ∷ branch_blocks os

abbrev pub default_node : AstNode
default_node = plain_node (ast_item default) nil

unfoldable pub reduce_bools : List AstNode → List AstNode
reduce_bools [] = []
reduce_bools (n ∷ ns) = plain_node (ast_operator Ast.reduce_bool) (cons n nil) ∷ reduce_bools ns

-- The arm of the `else` branch, where there is one.
unfoldable pub else_arms : Bool → List AstNode → List AstNode
else_arms false blocks = []
else_arms true blocks = plain_node ast_cond (of_list (default_node ∷ blocks)) ∷ []

-- The value of `vpiCaseType`.
pub data CaseType : Type 0 where
  case_exact case_x case_z unknown_case : CaseType

-- `unknown_case` is reported as an error.
unfoldable pub cond_type : CaseType → Option AstNodeType
cond_type case_exact = some ast_cond
cond_type case_x = some ast_condx
cond_type case_z = some ast_condz
cond_type unknown_case = none

-- An expression of a case item: the handle of an `inside`, with the nodes that the list operations
-- of its operands push to the item, or any other.
pub data ItemExpr (Handle : Type 0) : Type 0 where
  inside : Handle → Nodes → ItemExpr Handle
  plain : Handle → ItemExpr Handle

-- The value of `vpiPrimType`.
pub data PrimType : Type 0 where
  and_prim nand_prim nor_prim or_prim xor_prim xnor_prim buf_prim not_prim other_prim : PrimType

unfoldable pub gate_name : PrimType → Option Text
gate_name and_prim = some (codes "and")
gate_name nand_prim = some (codes "nand")
gate_name nor_prim = some (codes "nor")
gate_name or_prim = some (codes "or")
gate_name xor_prim = some (codes "xor")
gate_name xnor_prim = some (codes "xnor")
gate_name buf_prim = some (codes "buf")
gate_name not_prim = some (codes "not")
gate_name other_prim = none

module _ (yosys : Yosys) (obj_name : Text) where
  open yosys use {mkconst_int}

  -- The case of a conditional statement, given the condition and the blocks of its branches.
  unfoldable pub if_else_node : List AstNode → List AstNode → Bool → List AstNode → AstNode
  if_else_node conditions blocks has_else else_blocks = make_ast_node yosys obj_name ast_case (
      of_list (
        reduce_bools conditions
        ++ plain_node ast_cond (of_list (mkconst_int 1 false 1 ∷ blocks))
          ∷ else_arms has_else else_blocks))

  -- The children of a case item and its attributes, after some of its expressions. Two children that
  -- come from an `inside` are the bounds of a range.
  unfoldable pub bound_items : Nodes × Attributes → Nodes × Attributes
  bound_items (cs, as') =
      if size cs == 2
      then (
        cons (make_ast_node yosys obj_name ast_block cs) nil,
        insert as' (codes "$synlig$low_high_bound") (mkconst_int 1 false 1),
      )
      else (cs, as')

  unfoldable pub item_statement : AstNode → AstNode
  item_statement n = if is_block (type n) then n else plain_node ast_block (cons n nil)

  unfoldable pub item_statements : List (Option AstNode) → List AstNode
  item_statements [] = []
  item_statements (none ∷ os) = item_statements os
  item_statements (some n ∷ os) = item_statement n ∷ item_statements os

  -- `default` where there is no expression.
  unfoldable pub or_default : Nodes → Nodes
  or_default nil = cons default_node nil
  or_default (cons n ns) = cons n ns

  module _ {Handle : Type 0} (vpi : Vpi Handle) where
    open vpi use {process_object}

    unfoldable pub if_else_of :
        Option (List AstNode)
        → List (Option AstNode)
        → Bool
        → List (Option AstNode)
        → Option AstNode
    if_else_of none statements has_else else_statements = none
    if_else_of (some conditions) statements has_else else_statements = some (
        if_else_node conditions (branch_blocks statements) has_else (branch_blocks else_statements))

    -- `is_if_else` tells an `if` with an `else` from one without. `none` is an error.
    unfoldable pub process_if_else : (Handle → Bool) → Handle → Option AstNode
    process_if_else is_if_else h =
        if_else_of (all_present (visit_one_to_one vpi (vpi_condition ∷ []) h))
          (visit_one_to_one vpi (vpi_stmt ∷ []) h) (is_if_else h)
          (visit_one_to_one vpi (vpi_else_stmt ∷ []) h)

    -- `none` is a tree that a null pointer is put into as a child.
    unfoldable pub process_case : Handle → Option AstNode
    process_case h = elim (all_present (visit_one_to_one vpi (vpi_condition ∷ []) h)) [
      | none ↦ none
      | some conditions ↦ some (
          make_ast_node yosys obj_name ast_case
            (of_list (conditions ++ visit_one_to_many vpi (vpi_case_item ∷ []) h)))
    ]

    -- The expressions of a case item. The visit of the operands of an `inside` must give no node.
    unfoldable pub item_exprs :
        Nodes × Attributes → List (ItemExpr Handle) → Option (Nodes × Attributes)
    item_exprs (cs, as') [] = some (cs, as')
    item_exprs (cs, as') (inside e pushed ∷ es) =
        elim (visit_one_to_many vpi (vpi_operand ∷ []) e) [
          | [] ↦ item_exprs (bound_items (cs ++ₙ pushed, as')) es
          | n ∷ ns ↦ none
        ]
    item_exprs (cs, as') (plain e ∷ es) = elim (process_object e) [
      | none ↦ item_exprs (cs, as') es
      | some n ↦ item_exprs (cs ++ₙ cons n nil, as') es
    ]

    unfoldable pub case_item_of :
        Option AstNodeType → Option (Nodes × Attributes) → List (Option AstNode) → Option AstNode
    case_item_of none items statements = none
    case_item_of (some t) none statements = none
    case_item_of (some t) (some (cs, as')) statements = some (
        node t (record new_fields { str = obj_name })
          (or_default cs ++ₙ of_list (item_statements statements)) as')

    -- `case_type` is the type of the parent's case, `exprs` are the expressions.
    unfoldable pub process_case_item :
        (Handle → CaseType) → (Handle → List (ItemExpr Handle)) → Handle → Option AstNode
    process_case_item case_type exprs h =
        case_item_of (cond_type (case_type h)) (item_exprs (nil, empty) (exprs h))
          (visit_one_to_one vpi (vpi_stmt ∷ []) h)

    unfoldable pub process_gate : (Handle → PrimType) → Handle → Option AstNode
    process_gate prim_type h = elim (gate_name (prim_type h)) [
      | none ↦ none
      | some name ↦ some (
          node (ast_item primitive) (record new_fields { str = name })
            (of_list (visit_one_to_many vpi (vpi_prim_term ∷ []) h)) empty)
    ]
