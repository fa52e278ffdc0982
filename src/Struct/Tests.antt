-- ===== src/Struct/Tests.antt =====
-- The layout of small structs.
use synlig.Common.{ℕ, true, false, List, [], ◌∷◌, some, ◌≡◌, ◌≢◌, refl, if◌then◌else◌, ◌++◌}
use synlig.Common.Int.{pos, ◌-ℤ◌, ◌+ℤ◌, ◌*ℤ◌, min_ℤ, max_ℤ}
use synlig.Common.Checked.{gives, fails}
use synlig.Ast.{
  AstNode, Dimension, Nodes, node, nil, cons, empty, new_fields, children, ast_range, ast_struct,
  ast_union, ast_struct_item,
}
use synlig.Struct.{
  Result, union_mismatch, use_after_free, simplify_struct, layout_members, member, is_union,
  item_width, range_width_local, add_member, struct_dimensions, removed_tail, range_dimensions,
  dimensions_width, get_max_offset_struct, placed, add_link,
}
use synlig.Struct.Tiling.{Tiles, sized, simplify_struct-Tiles}
use synlig.Struct.Removal.{ranges_last, ranges_of, struct_dimensions_lem}
use synlig.Struct.Success.{Succeeds, layable, layable_member, is_sized, simplify_struct-Succeeds}
use synlig.Struct.Offset.{get_max_offset_struct-simplify_struct}

abbrev range : ℕ → ℕ → AstNode
range left right =
    node ast_range
      (record new_fields { range_left = pos left; range_right = pos right; range_valid = true }) nil
      empty

abbrev item : ℕ → AstNode
item left = node ast_struct_item new_fields (cons (range left 0) nil) empty

-- struct { logic [7:0]; struct { logic; logic [3:0] } [1:0]; }
abbrev inner : Nodes
inner = cons (node ast_struct_item new_fields nil empty) (cons (item 3) (cons (range 1 0) nil))

abbrev outer : Nodes
outer = cons (item 7) (cons (node ast_struct new_fields inner empty) nil)

abbrev laid_item : ℕ → ℕ → AstNode
laid_item at width = node ast_struct_item (placed new_fields (pos at) (pos width)) nil empty

abbrev laid_inner : AstNode
laid_inner =
    let dims : List Dimension =
      record { range_right = pos 0; range_width = pos 2; range_swapped = false } ∷ [] in
    node ast_struct (placed (record new_fields { dimensions = dims }) (pos 0) (pos 10))
      (cons (laid_item 4 1) (cons (laid_item 0 4) nil)) empty

abbrev laid_outer : AstNode
laid_outer = node ast_struct new_fields (cons (laid_item 10 8) (cons laid_inner nil)) empty

outer_run :
    simplify_struct (λ n. n) (λ name. false) (node ast_struct new_fields outer empty) (pos 0)
    ≡ gives (laid_outer, pos 18, [])
unfolding simplify_struct layout_members member is_union item_width range_width_local add_member
    struct_dimensions removed_tail range_dimensions dimensions_width add_link ◌-ℤ◌ ◌+ℤ◌ ◌*ℤ◌ min_ℤ
    max_ℤ
outer_run = refl

outer_sized : sized (children laid_outer) ≡ true
unfolding sized member ◌+ℤ◌ ◌-ℤ◌
outer_sized = refl

simplify_struct-Tiles_example : Tiles (is_union ast_struct) (pos 0) (pos 18) (children laid_outer)
simplify_struct-Tiles_example =
    simplify_struct-Tiles (λ n. n) (λ name. false) ast_struct new_fields outer empty (pos 0)
      outer_run outer_sized

struct_member : member ast_struct ≡ synlig.Struct.struct
unfolding member
struct_member = refl

outer_has_members : children laid_outer ≢ nil
outer_has_members e = cc

get_max_offset_struct-simplify_struct_example :
    get_max_offset_struct laid_outer ≡ some (pos 18 -ℤ pos 1)
get_max_offset_struct-simplify_struct_example =
    get_max_offset_struct-simplify_struct (λ n. n) (λ name. false) ast_struct new_fields outer empty
      struct_member refl outer_run outer_sized outer_has_members refl

-- A range before a member.
range_first :
    struct_dimensions (λ n. n) new_fields (cons (range 1 0) (cons (item 3) nil))
    ≡ fails use_after_free
unfolding struct_dimensions removed_tail
range_first = refl

-- union { logic [7:0]; logic [3:0]; }
unequal_union :
    simplify_struct
      (λ n. n)
      (λ name. false)
      (node ast_union new_fields (cons (item 7) (cons (item 3) nil)) empty)
      (pos 0)
    ≡ fails union_mismatch
unfolding simplify_struct layout_members member is_union item_width range_width_local add_member
    struct_dimensions removed_tail range_dimensions ◌-ℤ◌ ◌+ℤ◌
unequal_union = refl

struct_dimensions_lem_example : struct_dimensions (λ n. n) new_fields inner ≡ (
    if ranges_last inner
    then gives ([] ++ range_dimensions (λ n. n) (ranges_of inner))
    else fails use_after_free)
struct_dimensions_lem_example = struct_dimensions_lem (λ n. n) new_fields inner

simplify_struct-Succeeds_example :
    Succeeds
      (simplify_struct (λ n. n) (λ name. false) (node ast_struct new_fields outer empty) (pos 0))
unfolding layable layable_member is_union member is_sized
simplify_struct-Succeeds_example =
    simplify_struct-Succeeds (λ n. n) (λ name. false) ast_struct new_fields outer empty (pos 0) refl
      refl refl
