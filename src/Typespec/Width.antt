-- ===== src/Typespec/Width.antt =====
-- A typespec has the width that the language gives to its type.
use synlig.Common.{
  ℕ, ◌+◌, ◌-◌, ◌*◌, ◌%◌, ◌^◌, ◌<◌, ◌≡◌, Bool, true, false, List, [], ◌∷◌, refl, ap, ◌∙◌, arith,
}
use mathlib.Core.Path.{ap₂}
use synlig.Common.Int.{pos}
use synlig.Common.Text.{Text}
use synlig.Common.Word.{to_u32, u32_mod}
use synlig.Ast.{AstNode, node, type, fields, children, to_list, of_list, ast_wire}
use synlig.Attributes.{get_attribute, lookup, insert, erase}
use synlig.Loop.{make_ast_node}
use synlig.Typespec.{
  ranged_wire, set_signed, process_int_typespec, process_shortint_typespec,
  process_longint_typespec, process_byte_typespec, process_time_typespec,
}
use synlig.Wire.{make_range}
use synlig.Wire.Convert.{
  add_multirange_wire, ranges_at, ranges_node, packed_ranges, unpacked_ranges,
}
use synlig.Wire.Width.{elements, extent}
use synlig.Yosys.{Yosys}

-- The integer types of the language, with their numbers of bits.
pub data IntegerType : Type 0 where
  int_type shortint_type longint_type byte_type time_type : IntegerType

unfoldable pub bits_of : IntegerType → ℕ
bits_of int_type = 32
bits_of shortint_type = 16
bits_of longint_type = 64
bits_of byte_type = 8
bits_of time_type = 64

module _ (yosys : Yosys) (obj_name : Text) where
  open yosys use {mkconst_int, mkconst_int_integer, mkconst_int_children}

  unfoldable pub typespec_of : IntegerType → Bool → AstNode
  typespec_of int_type is_signed = process_int_typespec yosys obj_name is_signed
  typespec_of shortint_type is_signed = process_shortint_typespec yosys obj_name is_signed
  typespec_of longint_type is_signed = process_longint_typespec yosys obj_name is_signed
  typespec_of byte_type is_signed = process_byte_typespec yosys obj_name is_signed
  typespec_of time_type is_signed = process_time_typespec yosys obj_name

  -- A wire of the sign, whose packed ranges have some number of bits, and that has no unpacked ranges.
  unfoldable pub HasWidth : ℕ → Bool → AstNode → Type 0
  HasWidth n is_signed wire =
      (type wire ≡ ast_wire)
      × ((fields wire).is_signed ≡ is_signed)
      × (elements (ranges_at wire packed_ranges) ≡ n)
      × (ranges_at wire unpacked_ranges ≡ [])

  -- `time` is unsigned, of the others the source says it.
  unfoldable pub sign_of : IntegerType → Bool → Bool
  sign_of time_type is_signed = false
  sign_of _ is_signed = is_signed

  children-ranges_node :
      (r : AstNode) (rs : List AstNode) (n : AstNode)
      → to_list (children (ranges_node yosys (r ∷ rs) n)) ≡ r ∷ to_list (of_list rs)
  children-ranges_node r rs (node t f cs as') = refl

  children-no_ranges : (n : AstNode) → children (ranges_node yosys [] n) ≡ children n
  children-no_ranges (node t f cs as') = refl

  extent-make_range : (k : ℕ) → k < 2 ^ 31 → extent (make_range yosys (pos k) (pos 0) false) ≡ k + 1
  unfolding extent make_range to_u32
  extent-make_range k h =
      ap₂ (λ a b. (a - b) + (b - a) + 1)
        (mkconst_int_integer (k % u32_mod) true 32 (omega arith) ∙ small k h)
        (mkconst_int_integer 0 true 32 (omega arith))
      ∙ sum k
    where
      small : (k : ℕ) → k < 2 ^ 31 → k % u32_mod ≡ k
      small k h = omega arith

      sum : (k : ℕ) → (k - 0) + (0 - k) + 1 ≡ k + 1
      sum k = omega arith

  ranged_wire-HasWidth :
      (k : ℕ) (is_signed : Bool)
      → k < 2 ^ 31
      → HasWidth (k + 1) is_signed (ranged_wire yosys obj_name (pos k) is_signed)
  unfolding HasWidth ranged_wire set_signed add_multirange_wire make_ast_node get_attribute lookup
      insert erase elements
  ranged_wire-HasWidth k is_signed h = (
    refl,
    refl,
    ap elements
          (children-ranges_node (make_range yosys (pos k) (pos 0) false) [] (mkconst_int 1 false 1))
        ∙ ap (λ n. n * 1) (extent-make_range k h)
        ∙ omega arith,
    ap to_list (children-no_ranges (mkconst_int 1 false 1) ∙ mkconst_int_children 1 false 1),
  )

  -- A typespec of an integer type is a wire, signed where the type is, whose packed ranges have the bits
  -- of the type, and that has no unpacked ranges.
  pub typespec_of-HasWidth :
      (t : IntegerType) (is_signed : Bool)
      → HasWidth (bits_of t) (sign_of t is_signed) (typespec_of t is_signed)
  unfolding typespec_of bits_of sign_of process_int_typespec process_shortint_typespec
      process_longint_typespec process_byte_typespec process_time_typespec
  typespec_of-HasWidth int_type s = ranged_wire-HasWidth 31 s (omega arith)
  typespec_of-HasWidth shortint_type s = ranged_wire-HasWidth 15 s (omega arith)
  typespec_of-HasWidth longint_type s = ranged_wire-HasWidth 63 s (omega arith)
  typespec_of-HasWidth byte_type s = ranged_wire-HasWidth 7 s (omega arith)
  typespec_of-HasWidth time_type s = ranged_wire-HasWidth 63 false (omega arith)
