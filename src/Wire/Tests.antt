-- ===== src/Wire/Tests.antt =====
-- logic [3:0][7:0] a [1:0], and the access a[1][2][5:3].
use synlig.Common.{ℕ, true, false, List, [], ◌∷◌, some, refl, arith}
use synlig.Common.Int.{pos, ◌+ℤ◌}
use synlig.Common.Word.{add32, sub32, to_u32, mul32}
use synlig.Common.Text.{codes}
use synlig.Ast
use synlig.Ast.{
  AstNode, Dimension, node, nil, cons, empty, entry, new_fields, of_list, ast_range, ast_wire,
  ast_identifier,
}
use synlig.Attributes.{get_attribute, lookup}
use synlig.Select.Access.{index_range}
use synlig.Select.Value.{eval}
use synlig.Wire.{convert_range, no_wiretype, range_size, range_bounds, offsets_from, get_ranges}
use synlig.Wire.Access.{index_at, width_of, access_ranges}
use synlig.Wire.RowMajor.{
  Row, SelectsRange, convert_range-SelectsRange, ranges_of, lows_of, AreRows, product_of, indices,
  row_major,
}
use synlig.Wire.Convert.{
  convert_packed_unpacked_range, convert_node, simplify_all, doubled, is_memory, is_wire,
  becomes_memory,
}
use synlig.Wire.Memory.{IsMemory, is_plain_array, convert_packed_unpacked_range-IsMemory}
use synlig.Wire.Width.{
  HasBits, AreConstantRanges, IsConstantRange, elements, extent,
  convert_packed_unpacked_range-HasBits,
}
use synlig.Select.{is_constant}
use synlig.Yosys.Model.{model}

abbrev constant_node : ℕ → AstNode
constant_node v = node Ast.ast_constant (record new_fields { integer = v }) nil empty

abbrev range_node : ℕ → ℕ → AstNode
range_node l r =
    node ast_range new_fields (cons (constant_node l) (cons (constant_node r) nil)) empty

abbrev dimension : ℕ → Dimension
dimension w = record { range_right = pos 0; range_width = pos w; range_swapped = false }

abbrev list_node : List AstNode → AstNode
list_node ns = node Ast.ast_constant new_fields (of_list ns) empty

abbrev wire_range : AstNode
wire_range = node ast_range (record new_fields { range_left = pos 63 }) nil empty

abbrev wire : AstNode
wire =
    node ast_wire
      (record new_fields {
        str = codes "\\a";
        dimensions = dimension 4 ∷ dimension 8 ∷ dimension 2 ∷ [];
      })
      (cons wire_range nil)
      (entry (codes "$synlig$packed_ranges") (list_node (range_node 3 0 ∷ range_node 7 0 ∷ []))
        (entry (codes "$synlig$unpacked_ranges") (list_node (range_node 1 0 ∷ [])) empty))

abbrev identifier : AstNode
identifier =
    node ast_identifier (record new_fields { str = codes "\\a" })
      (of_list
        (index_range (constant_node 1) ∷ index_range (constant_node 2) ∷ range_node 5 3 ∷ []))
      empty

abbrev row : ℕ → ℕ → AstNode → Row
row w i r = record { width = w; low = pos 0; index = constant_node i; range = r }

abbrev env : AstNode → ℕ
env n = 0

-- Three bits from bit 51 = (1 * 4 + 2) * 8 + 3 on.
convert_range-SelectsRange_example :
    SelectsRange env model 51 3 (convert_range model (λ s. some wire) (λ n. no_wiretype) identifier)
unfolding get_attribute lookup get_ranges offsets_from range_size ranges_of lows_of AreRows
    product_of indices access_ranges range_bounds index_at width_of eval row_major add32 sub32
    to_u32 mul32 ◌+ℤ◌
convert_range-SelectsRange_example =
    convert_range-SelectsRange env model (λ s. some wire) (λ n. no_wiretype) identifier wire
      wire_range (range_node 7 0) (range_node 5 3) (constant_node 5) (constant_node 3) (dimension 4)
      (dimension 8 ∷ dimension 2 ∷ []) (range_node 3 0 ∷ range_node 7 0 ∷ []) (range_node 1 0 ∷ [])
      (pos 0 ∷ []) (pos 0 ∷ pos 0 ∷ []) (row 2 1 (range_node 1 0) ∷ row 4 2 (range_node 3 0) ∷ []) 8
      1 (pos 0) refl refl refl refl refl refl refl refl refl refl
      (refl, omega arith, (refl, omega arith, tt)) refl (omega arith) refl refl refl

-- Four words of two bytes.
abbrev fresh_wire : AstNode
fresh_wire =
    node ast_wire (record new_fields { str = codes "\\a" }) nil
      (entry (codes "$synlig$packed_ranges") (list_node (range_node 1 0 ∷ range_node 7 0 ∷ []))
        (entry (codes "$synlig$unpacked_ranges") (list_node (range_node 0 3 ∷ [])) empty))

convert_packed_unpacked_range-HasBits_example :
    HasBits model 64 (convert_packed_unpacked_range model (λ r. r) fresh_wire)
unfolding get_attribute lookup convert_node simplify_all doubled AreConstantRanges IsConstantRange
    is_constant elements extent is_memory
convert_packed_unpacked_range-HasBits_example =
    convert_packed_unpacked_range-HasBits model (λ r. r) fresh_wire refl refl (omega arith)
      ((refl, refl, omega arith, omega arith), ((refl, refl, omega arith, omega arith), tt))
      ((refl, refl, omega arith, omega arith), tt) (omega arith)

-- logic [7:0] m [0:3].
abbrev memory_wire : AstNode
memory_wire =
    node ast_wire (record new_fields { str = codes "\\m" }) nil
      (entry (codes "$synlig$packed_ranges") (list_node (range_node 7 0 ∷ []))
        (entry (codes "$synlig$unpacked_ranges") (list_node (range_node 0 3 ∷ [])) empty))

convert_packed_unpacked_range-IsMemory_example :
    IsMemory true (convert_packed_unpacked_range model (λ r. r) memory_wire)
unfolding is_memory is_plain_array becomes_memory get_attribute lookup is_wire
convert_packed_unpacked_range-IsMemory_example =
    convert_packed_unpacked_range-IsMemory model (λ r. r) memory_wire refl
