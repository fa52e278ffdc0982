-- ===== src/Typespec.antt =====
-- src/frontends/systemverilog/uhdm_ast.cc: the typespecs of integer types of a fixed width.
pub mod Width
pub mod Members
pub mod Packed
pub mod Ranges
mod Tests
use synlig.Common.{ℕ, Bool, true, false, List, [], ◌∷◌}
use synlig.Common.Int.{ℤ, pos}
use synlig.Common.Text.{Text}
use synlig.Ast.{AstNode, node, nil, ast_wire}
use synlig.Loop.{make_ast_node}
use synlig.Wire.{make_range}
use synlig.Wire.Convert.{add_multirange_wire}
use synlig.Yosys.{Yosys}

unfoldable pub set_signed : Bool → AstNode → AstNode
set_signed is_signed (node t f cs as') = node t (record f { is_signed = is_signed }) cs as'

-- `is_signed` is the value of `vpiSigned`.
module _ (yosys : Yosys) (obj_name : Text) where
  -- A wire with one packed range.
  unfoldable pub ranged_wire : ℤ → Bool → AstNode
  ranged_wire left is_signed = set_signed is_signed (
      add_multirange_wire yosys (make_ast_node yosys obj_name ast_wire nil)
        (make_range yosys left (pos 0) false ∷ []) [])

  unfoldable pub process_int_typespec : Bool → AstNode
  process_int_typespec is_signed = ranged_wire (pos 31) is_signed

  unfoldable pub process_shortint_typespec : Bool → AstNode
  process_shortint_typespec is_signed = ranged_wire (pos 15) is_signed

  unfoldable pub process_longint_typespec : Bool → AstNode
  process_longint_typespec is_signed = ranged_wire (pos 63) is_signed

  unfoldable pub process_shortreal_typespec : Bool → AstNode
  process_shortreal_typespec is_signed = ranged_wire (pos 31) is_signed

  unfoldable pub process_byte_typespec : Bool → AstNode
  process_byte_typespec is_signed = ranged_wire (pos 7) is_signed

  unfoldable pub process_time_typespec : AstNode
  process_time_typespec = ranged_wire (pos 63) false
