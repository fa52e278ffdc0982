-- ===== src/Yosys/Model.antt =====
-- A concrete AST library, for the examples.
use synlig.Common.{ℕ, ◌^◌, ◌<◌, ◌%◌, ◌≡◌, refl, Bool, arith}
use synlig.Ast.{AstNode, type, fields, children, node, nil, empty, new_fields, ast_constant}
use synlig.Yosys.{Yosys}

unfoldable pub mkconst : ℕ → Bool → ℕ → AstNode
mkconst v s w =
    node ast_constant (record new_fields { integer = v % 2 ^ 32; is_signed = s }) nil empty

pub integer-mkconst : (v : ℕ) (s : Bool) (w : ℕ) → v < 2 ^ 32 → (fields (mkconst v s w)).integer ≡ v
unfolding mkconst
integer-mkconst v s w h = omega arith

pub type-mkconst : (v : ℕ) (s : Bool) (w : ℕ) → type (mkconst v s w) ≡ ast_constant
unfolding mkconst
type-mkconst v s w = refl

pub children-mkconst : (v : ℕ) (s : Bool) (w : ℕ) → children (mkconst v s w) ≡ nil
unfolding mkconst
children-mkconst v s w = refl

abbrev pub model : Yosys
model = record {
  mkconst_int = mkconst;
  mkconst_int_type = type-mkconst;
  mkconst_int_integer = integer-mkconst;
  mkconst_int_children = children-mkconst;
}
