-- ===== src/Vpi.antt =====
-- The VPI interface of UHDM as src/frontends/systemverilog/uhdm_ast.cc reads it, and the visits of
-- `UhdmAst` to the objects that belong to one.
pub mod Model
use synlig.Common.{Bool, true, false, List, [], ◌∷◌, ◌++◌, Option, none, some, if◌then◌else◌}
use synlig.Ast.{
  AstNode, AstNodeType, Nodes, node, nil, cons, empty, new_fields, of_list, ast_item, multirange,
}

-- The relations that are followed.
pub data Relation : Type 0 where
  vpi_stmt vpi_else_stmt vpi_condition vpi_variables vpi_operand vpi_expr vpi_index : Relation
  vpi_left_range vpi_right_range vpi_width_expr vpi_base_expr vpi_case_item : Relation
  vpi_for_init_stmt vpi_for_inc_stmt vpi_range vpi_prim_term vpi_actual vpi_parent : Relation
  vpi_typespec vpi_high_conn vpi_low_conn : Relation

-- `Handle` is `vpiHandle`. `process_object` is what a new `UhdmAst` makes of an object, and is
-- a null pointer for some.
pub record Vpi (Handle : Type 0) : Type 0 where
  pub vpi_handle : Relation → Handle → Option Handle
  pub vpi_iterate : Relation → Handle → List Handle
  pub is_ref_typespec : Handle → Bool
  pub process_object : Handle → Option AstNode

module _ {Handle : Type 0} (vpi : Vpi Handle) where
  open vpi use {vpi_handle, vpi_iterate, is_ref_typespec, process_object}

  -- The nodes of some objects, without the null pointers.
  unfoldable pub process_objects : List Handle → List AstNode
  process_objects [] = []
  process_objects (h ∷ hs) =
      let rest = process_objects hs in elim (process_object h) [ none ↦ rest | some n ↦ n ∷ rest ]

  -- The nodes that `visit_one_to_many` calls its function with, in order.
  unfoldable pub visit_one_to_many : List Relation → Handle → List AstNode
  visit_one_to_many [] h = []
  visit_one_to_many (r ∷ rs) h = process_objects (vpi_iterate r h) ++ visit_one_to_many rs h

  -- The handles that `iterate_one_to_many` calls its function with.
  unfoldable pub iterate_one_to_many : List Relation → Handle → List Handle
  iterate_one_to_many [] h = []
  iterate_one_to_many (r ∷ rs) h = vpi_iterate r h ++ iterate_one_to_many rs h

  -- A reference to a typespec stands for the typespec.
  unfoldable pub actual : Option Handle → Option Handle
  actual none = none
  actual (some h) = if is_ref_typespec h then vpi_handle vpi_actual h else some h

  -- What `visit_one_to_one` calls its function with; null pointers are passed on.
  unfoldable pub visit_one_to_one : List Relation → Handle → List (Option AstNode)
  visit_one_to_one [] h = []
  visit_one_to_one (r ∷ rs) h =
      let rest = visit_one_to_one rs h in
      elim (actual (vpi_handle r h)) [ none ↦ rest | some child ↦ process_object child ∷ rest ]

  -- The one range, or all in a multirange node.
  unfoldable pub range_node : List AstNode → Option AstNode
  range_node [] = none
  range_node (r ∷ []) = some r
  range_node (r ∷ q ∷ rs) =
      some (node (ast_item multirange) new_fields (of_list (r ∷ q ∷ rs)) empty)

  unfoldable pub visit_range : Handle → Option AstNode
  visit_range h = range_node (visit_one_to_many (vpi_range ∷ []) h)
