-- ===== src/Dot/Tests.antt =====
-- struct packed { logic [7:0] a; logic [7:0] b; } w, and the access w.a[2].
use synlig.Common.{ℕ, [], ◌∷◌, some, false, refl}
use synlig.Common.Int.{pos, ◌+ℤ◌, ◌-ℤ◌}
use synlig.Common.Text.{codes}
use synlig.Common.Word.{add32, sub32, mul32, to_u32}
use synlig.Ast
use synlig.Ast.{
  AstNode, Dimension, node, nil, cons, empty, new_fields, of_list, ast_identifier, ast_dot,
  ast_struct, ast_struct_item, ast_wire,
}
use synlig.Attributes.{get_attribute, lookup}
use synlig.Dot.{
  convert_dot, search_struct_access_with_dots, search_dot, select_ranges, find_child, search_name,
  struct_of, member_select, member_offset, member_width, member_dimensions, wire_dimensions,
  reversed_onto, unswapped, has_order, dimension_select, with_substructure, substructure_size,
  dimensions_product,
}
use synlig.Dot.Position.{
  IsRange, IsPath, IsMade, convert_dot-IsRange, element_offsets, element_offset, last_offset,
  last_width, element_width,
}
use synlig.Operation.Pattern.{is_dot}
use synlig.Select.{
  traverse_dimensions, suffix_sizes, walk, last_select, last_index, finish, constant_index,
  is_constant,
}
use synlig.Select.Access.{index_range}
use synlig.Select.Value.{eval}
use synlig.Yosys.Model.{model, mkconst}

abbrev two : AstNode
two = node Ast.ast_constant (record new_fields { integer = 2 }) nil empty

abbrev member_node : ℕ → ℕ → ℕ → AstNode
member_node name left right =
    node ast_struct_item
      (record new_fields {
        str = name ∷ [];
        range_left = pos left;
        range_right = pos right;
        dimensions =
            record { range_right = pos 0; range_width = pos 8; range_swapped = false } ∷ [];
      })
      nil empty

abbrev struct_node : AstNode
struct_node =
    node ast_struct new_fields (of_list (member_node 97 15 8 ∷ member_node 98 7 0 ∷ [])) empty

abbrev wire : AstNode
wire = node ast_wire (record new_fields { str = codes "\\w"; range_left = pos 15 }) nil empty

abbrev dot : AstNode
dot = node ast_dot (record new_fields { str = codes "\\a" }) (cons (index_range two) nil) empty

abbrev access : AstNode
access = node ast_identifier (record new_fields { str = codes "\\w" }) (cons dot nil) empty

abbrev env : AstNode → ℕ
env n = 0

-- One bit, bit 10.
convert_dot-IsRange_example :
    IsRange env model 10 1 (convert_dot model (λ n. n) (λ n. some struct_node) wire access dot)
unfolding IsPath IsMade search_struct_access_with_dots search_dot select_ranges find_child
    search_name struct_of is_dot element_offsets element_offset last_offset last_width element_width
    member_select member_offset member_width member_dimensions wire_dimensions reversed_onto
    unswapped has_order dimension_select with_substructure substructure_size dimensions_product
    get_attribute lookup traverse_dimensions suffix_sizes walk last_select last_index finish
    constant_index is_constant eval mkconst add32 sub32 mul32 to_u32 ◌+ℤ◌ ◌-ℤ◌
convert_dot-IsRange_example =
    convert_dot-IsRange env model (λ n. n) (λ n. some struct_node) wire access dot struct_node
      ((wire, []) ∷ (member_node 97 15 8, index_range two ∷ []) ∷ []) refl refl
      (tt, refl, (tt, refl))
