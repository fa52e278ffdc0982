-- ===== src/Select/Tests.antt =====
-- Selects of a member logic [3:0][0:7].
use synlig.Common.{ℕ, ◌≡◌, true, false, [], ◌∷◌, Option, some, refl, arith}
use synlig.Common.Int.{pos, ◌-ℤ◌}
use synlig.Common.Word.{to_u32, add32, sub32, mul32}
use synlig.Ast.{
  AstNode, Dimension, node, nil, empty, new_fields, ast_identifier, ast_constant, integer,
}
use synlig.Select.{
  traverse_dimensions, Selection, finish, walk, suffix_sizes, last_select, last_range, last_index,
  is_constant, step, constant_index, index_node, flush,
}
use synlig.Select.Access.{
  Selects, index_range, dimensions_of, ranges_of, any_variable, traverse_dimensions-Selects,
}
use synlig.Select.Part.{part_range, traverse_dimensions-Selects_part}
use synlig.Select.Position.{position}
use synlig.Select.Value.{eval}
use synlig.Yosys.Model.{model, mkconst}

abbrev down : Dimension
down = record { range_right = pos 0; range_width = pos 4; range_swapped = false }

abbrev up : Dimension
up = record { range_right = pos 0; range_width = pos 8; range_swapped = true }

abbrev literal : ℕ → AstNode
literal v = node ast_constant (record new_fields { integer = v }) nil empty

abbrev variable : AstNode
variable = node ast_identifier (record new_fields { integer = 2 }) nil empty

-- A variable has the value that its node stands for here.
abbrev value : AstNode → ℕ
value n = integer n

abbrev values : Option Selection → ℕ × ℕ
values (some (a, b)) = (eval value a, eval value b)
values _ = (0, 0)

-- [2][2:3] of [3:0][0:7] is two elements, from 2 * 8 + 4 on; of 5 bits each.
select_constant :
    values (
      traverse_dimensions model
        (down ∷ up ∷ [])
        (index_range (literal 2) ∷ part_range (literal 2) (literal 3) ∷ [])
        5
        true)
    ≡ (100, 10)
unfolding traverse_dimensions eval finish walk suffix_sizes last_select last_range last_index
    is_constant step constant_index index_node flush mkconst add32 sub32 mul32 to_u32 ◌-ℤ◌
select_constant = refl

-- With a variable first index the offset is that of the fifth element, and the width is 0.
select_variable :
    values (
      traverse_dimensions model
        (down ∷ up ∷ [])
        (index_range variable ∷ part_range (literal 2) (literal 3) ∷ [])
        5
        true)
    ≡ (105, 0)
unfolding traverse_dimensions eval finish walk suffix_sizes last_select last_range last_index
    is_constant step constant_index index_node flush mkconst add32 sub32 mul32 to_u32 ◌-ℤ◌
select_variable = refl

traverse_dimensions-Selects_example : Selects value model 105 5 (
    traverse_dimensions model
      (dimensions_of ((down, variable) ∷ []) up)
      (ranges_of ((down, variable) ∷ []) (index_range (literal 2)))
      5
      true)
unfolding position constant_index add32 sub32 mul32 to_u32 eval
traverse_dimensions-Selects_example =
    traverse_dimensions-Selects value model ((down, variable) ∷ []) up (literal 2) true 5
      (omega arith)

-- [2][2:3], all constant.
traverse_dimensions-Selects_part_example : Selects value model 100 10 (
    traverse_dimensions model
      (dimensions_of ((down, literal 2) ∷ []) up)
      (ranges_of ((down, literal 2) ∷ []) (part_range (literal 2) (literal 3)))
      5
      true)
unfolding position constant_index add32 sub32 mul32 to_u32 eval any_variable is_constant ◌-ℤ◌
traverse_dimensions-Selects_part_example =
    traverse_dimensions-Selects_part value model ((down, literal 2) ∷ []) up (literal 2) (literal 3)
      5 (omega arith)
