-- ===== src/Yosys.antt =====
-- What src/frontends/systemverilog/uhdm_ast.cc calls of Yosys' AST library, with the documented
-- behaviour that it relies on.
pub mod Model
use synlig.Common.{ℕ, ◌^◌, ◌<◌, ◌≡◌, Bool}
use synlig.Ast.{AstNode, ast_constant, type, integer, children, nil}

pub record Yosys : Type 0 where
  -- `AstNode::mkconst_int(v, is_signed, width)`, a constant node that holds a `uint32_t`.
  pub mkconst_int : ℕ → Bool → ℕ → AstNode
  pub mkconst_int_type : (v : ℕ) (s : Bool) (w : ℕ) → type (mkconst_int v s w) ≡ ast_constant
  pub mkconst_int_integer :
      (v : ℕ) (s : Bool) (w : ℕ) → v < 2 ^ 32 → integer (mkconst_int v s w) ≡ v
  pub mkconst_int_children : (v : ℕ) (s : Bool) (w : ℕ) → children (mkconst_int v s w) ≡ nil
