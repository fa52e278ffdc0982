-- ===== src/Reference.antt =====
-- src/frontends/systemverilog/uhdm_ast.cc: the selects `process_bit_select`, `process_part_select`,
-- `process_indexed_part_select` and `process_var_select`, and `process_range`.
pub mod Span
pub mod HierPath
mod Tests
use synlig.Common.{
  ℕ, Bool, true, false, ◌||◌, List, [], ◌∷◌, ◌++◌, Option, none, some, if◌then◌else◌,
}
use synlig.Common.Text.{Text, codes, text_eq}
use synlig.Ast
use synlig.Ast.{
  AstNode, AstNodeType, Nodes, node, nil, cons, empty, new_fields, children, str, of_list, to_list,
  ast_operator, ast_identifier, ast_range, ast_add, ast_sub,
}
use synlig.Loop.{make_ast_node}
use synlig.Statement.Loops.{all_present}
use synlig.Vpi.{
  Vpi, visit_one_to_one, visit_one_to_many, vpi_index, vpi_left_range, vpi_right_range,
  vpi_width_expr, vpi_base_expr,
}
use synlig.Yosys.{Yosys}

-- The node that `make_node(type)` builds: it has a location but no name.
abbrev pub plain_node : AstNodeType → Nodes → AstNode
plain_node t ns = node t new_fields ns empty

unfoldable pub range_nodes : List AstNode → List AstNode
range_nodes [] = []
range_nodes (n ∷ ns) = plain_node ast_range (cons n nil) ∷ range_nodes ns

module _ (yosys : Yosys) (obj_name : Text) where
  open yosys use {mkconst_int}

  abbrev pub identifier : List AstNode → AstNode
  identifier ns = make_ast_node yosys obj_name ast_identifier (of_list ns)

  abbrev pub self_size : AstNode → AstNode
  self_size n = plain_node (ast_operator Ast.selfsz) (cons n nil)

  abbrev pub both : AstNodeType → AstNode → AstNode → AstNode
  both t a b = plain_node t (cons a (cons b nil))

  -- The bounds of `[base +: width]`.
  unfoldable pub ascending_range : AstNode → AstNode → List AstNode
  ascending_range base width =
      both ast_sub (both ast_add (self_size base) width) (mkconst_int 1 false 32)
      ∷ both ast_add (self_size base) (mkconst_int 0 false 32)
      ∷ []

  -- The bounds of `[base -: width]`.
  unfoldable pub descending_range : AstNode → AstNode → List AstNode
  descending_range base width =
      both ast_add (self_size base) (mkconst_int 0 false 32)
      ∷ both ast_sub (both ast_add (self_size base) (mkconst_int 1 false 32)) width
      ∷ []

  unfoldable pub bounds : Bool → AstNode → AstNode → List AstNode
  bounds true base width = ascending_range base width
  bounds false base width = descending_range base width

  unfoldable pub all_bounds : Bool → List AstNode → AstNode → List AstNode
  all_bounds is_pos [] width = []
  all_bounds is_pos (b ∷ bs) width = bounds is_pos b width ++ all_bounds is_pos bs width

  -- The last width that is visited.
  unfoldable pub last_of : List AstNode → Option AstNode
  last_of [] = none
  last_of (n ∷ []) = some n
  last_of (n ∷ m ∷ ns) = last_of (m ∷ ns)

  unfoldable pub indexed_of : Bool → Option AstNode → Option (List AstNode) → Option AstNode
  indexed_of is_pos none bases = none
  indexed_of is_pos (some width) none = none
  indexed_of is_pos (some width) (some bases) =
      some (identifier (plain_node ast_range (of_list (all_bounds is_pos bases width)) ∷ []))

  unfoldable pub flatten : Option (List AstNode) → Option AstNode
  flatten none = none
  flatten (some ns) = last_of ns

  unfoldable pub bit_select_of : Option (List AstNode) → Option AstNode
  bit_select_of none = none
  bit_select_of (some ns) = some (identifier (range_nodes ns))

  unfoldable pub part_select_of : Option (List AstNode) → Option AstNode
  part_select_of none = none
  part_select_of (some ns) = some (identifier (plain_node ast_range (of_list ns) ∷ []))

  -- An index with the name of the variable brings its own indices.
  unfoldable pub var_indices : List AstNode → List AstNode
  var_indices [] = []
  var_indices (n ∷ ns) =
      let rest = var_indices ns in
      if text_eq (str n) obj_name
      then to_list (children n) ++ rest
      else plain_node ast_range (cons n nil) ∷ rest

  -- An unsized range is not supported.
  unfoldable pub is_unsized : Nodes → Bool
  is_unsized nil = false
  is_unsized (cons a nil) = text_eq (str a) (codes "unsized")
  is_unsized (cons a (cons b ns)) =
      text_eq (str a) (codes "unsized") || text_eq (str b) (codes "unsized")

  unfoldable pub range_of : Option (List AstNode) → Option AstNode
  range_of none = none
  range_of (some ns) =
      if is_unsized (of_list ns)
      then none
      else some (make_ast_node yosys obj_name ast_range (of_list ns))

  -- `none` is a tree that a null pointer is put into as a child, or is used in, and an unsized range.
  module _ {Handle : Type 0} (vpi : Vpi Handle) where
    unfoldable pub process_bit_select : Handle → Option AstNode
    process_bit_select h = bit_select_of (all_present (visit_one_to_one vpi (vpi_index ∷ []) h))

    unfoldable pub process_part_select : Handle → Option AstNode
    process_part_select h =
        part_select_of
          (all_present (visit_one_to_one vpi (vpi_left_range ∷ vpi_right_range ∷ []) h))

    -- `is_pos` tells that the part goes up from the base.
    unfoldable pub process_indexed_part_select : (Handle → Bool) → Handle → Option AstNode
    process_indexed_part_select is_pos h =
        indexed_of (is_pos h) (flatten (all_present (visit_one_to_one vpi (vpi_width_expr ∷ []) h)))
          (all_present (visit_one_to_one vpi (vpi_base_expr ∷ []) h))

    unfoldable pub process_var_select : Handle → AstNode
    process_var_select h = identifier (var_indices (visit_one_to_many vpi (vpi_index ∷ []) h))

    unfoldable pub process_range : Handle → Option AstNode
    process_range h =
        range_of (all_present (visit_one_to_one vpi (vpi_left_range ∷ vpi_right_range ∷ []) h))
