-- ===== src/Constant.antt =====
-- src/frontends/systemverilog/uhdm_ast.cc, `process_value` and `process_array_expr`: constants.
pub mod Digits
pub mod Literals
mod Tests
use synlig.Common.{
  ℕ, zero, suc, ◌-◌, ◌^◌, Bool, true, false, not, ◌&&◌, ◌||◌, List, [], ◌∷◌, ◌++◌, Option, none,
  some, ◌==◌, ltb, if◌then◌else◌,
}
use synlig.Common.Checked.{Checked, fails, gives}
use synlig.Common.Decimal.{to_string}
use synlig.Common.Int.{ℤ, pos, negsuc, pos_part, ltb_ℤ}
use synlig.Common.Text.{Text, codes, text_eq}
use synlig.Common.Word.{to_u32}
use synlig.Ast
use synlig.Ast.{AstNode, node, nil, empty, new_fields, ast_item, ast_operator, of_list}
use synlig.Loop.{make_ast_node}
use synlig.Statement.Cases.{CaseType, case_exact, case_x, case_z, unknown_case}
use synlig.Vpi.{Vpi, Relation, vpi_expr, visit_one_to_many}
use synlig.Yosys.{Yosys}

-- `s_vpi_value`: the format, with the value that goes with it. Integers have 64 bits; a real number
-- is given by its bits.
pub data Format : Type 0 where
  no_format other_val : Format
  scalar_val u_int_val real_val : ℕ → Format
  int_val : ℤ → Format
  bin_str_val dec_str_val hex_str_val oct_str_val string_val : Text → Format

-- What is read of an object: its value, `vpiSigned` of its typespec, `vpiSize`, `vpiDecompile`, and
-- `vpiCaseType` of its parent's parent, if it has one.
pub record Object : Type 0 where
  pub val : Format
  pub typespec_signed : Bool
  pub size : ℤ
  pub decompile : Option Text
  pub case_type : Option CaseType

pub data Error : Type 0 where
  -- `Encountered unhandled constant format`
  unhandled_format : Error
  -- A member of a null pointer is written.
  null_pointer : Error

-- Either a node, or the text of a literal as its base and its digits.
pub data Literal : Type 0 where
  null_node : Literal
  literal_node : AstNode → Literal
  literal : Text → Text → Literal
  unhandled : Text → Literal

unfoldable pub has_char : ℕ → Text → Bool
has_char c [] = false
has_char c (d ∷ s) = d == c || has_char c s

unfoldable pub mkconst_real : ℕ → AstNode
mkconst_real bits = node (ast_item Ast.realvalue) (record new_fields { realvalue = bits }) nil empty

unfoldable pub set_unsized : Bool → AstNode → AstNode
set_unsized false n = n
set_unsized true (node t f cs as') = node t (record f { is_unsized = true }) cs as'

-- The quote, with the sign.
unfoldable pub sign_type : Bool → Text
sign_type true = codes "'s"
sign_type false = codes "'"

-- The width of an integer, where 64 bits are taken for the default of Surelog.
unfoldable pub int_width : ℤ → ℕ
int_width (pos n) = if n == 64 then 32 else if n == 0 then 32 else n
int_width (negsuc n) = 32

unfoldable pub is_default_size : ℤ → Bool
is_default_size (pos n) = n == 64
is_default_size (negsuc n) = false

unfoldable pub is_no_size : ℤ → Bool
is_no_size (pos n) = n == 0
is_no_size (negsuc n) = n == 0

unfoldable pub case_char : Option CaseType → Text
case_char (some case_x) = codes "x"
case_char (some case_z) = codes "z"
case_char _ = codes " "

module _ (yosys : Yosys) where
  open yosys use {mkconst_int}

  unfoldable pub int_node : Bool → ℤ → ℕ → AstNode
  int_node is_signed size v =
      set_unsized (is_no_size size)
        (mkconst_int v (is_signed || is_default_size size) (int_width size))

  -- The switch on the format. A 64-bit integer that an `int` does not hold becomes a decimal literal.
  unfoldable pub literal_from : (Text → AstNode) → Bool → ℤ → Format → Literal
  literal_from mkconst_str signed size no_format = null_node
  literal_from mkconst_str signed size (scalar_val v) = literal_node (mkconst_int v false 1)
  literal_from mkconst_str signed size (bin_str_val s) = literal (sign_type signed ++ codes "b") s
  literal_from mkconst_str signed size (dec_str_val s) = literal (sign_type signed ++ codes "d") s
  literal_from mkconst_str signed size (hex_str_val s) = literal (sign_type signed ++ codes "h") s
  literal_from mkconst_str signed size (oct_str_val s) = literal (sign_type signed ++ codes "o") s
  literal_from mkconst_str signed size (u_int_val v) =
      if ltb (2 ^ 32 - 1) v
      then literal (codes "'sd") (to_string v)
      else if ltb (2 ^ 31 - 1) v
      then literal (codes "'sd") (to_string v)
      else literal_node (int_node signed size v)
  literal_from mkconst_str signed size (int_val i) =
      if ltb_ℤ (pos (2 ^ 31 - 1)) i
      then literal (codes "'sd") (to_string (pos_part i))
      else literal_node (int_node signed size (to_u32 i))
  literal_from mkconst_str signed size (real_val bits) = literal_node (mkconst_real bits)
  literal_from mkconst_str signed size (string_val s) = literal_node (mkconst_str s)
  literal_from mkconst_str signed size other_val = unhandled (sign_type signed)

  unfoldable pub literal_of : (Text → AstNode) → Object → Literal
  literal_of mkconst_str object =
      literal_from mkconst_str object.typespec_signed object.size object.val

-- An unsized unbased constant gets a size of one.
unfoldable pub unbased_size : Option Text → Text → Text
unbased_size none str_val_type = []
unbased_size (some d) str_val_type =
    if text_eq str_val_type (codes "'b") && not (has_char 98 d) then codes "1" else []

unfoldable pub size_str : ℤ → Option Text → Text → Text
size_str (pos zero) decompile str_val_type = unbased_size decompile str_val_type
size_str (pos (suc n)) decompile str_val_type = to_string (suc n)
size_str (negsuc n) decompile str_val_type = unbased_size decompile str_val_type

unfoldable pub is_sized : ℤ → Bool
is_sized (pos n) = ltb 0 n
is_sized (negsuc n) = false

-- The text of a literal that has no quote of its own.
unfoldable pub literal_text : Object → Text → Text → Text
literal_text object str_val_type val_str =
    size_str object.size object.decompile str_val_type ++ (str_val_type ++ val_str)

unfoldable pub unsized_constant : Bool → Option AstNode → Checked Error (Option AstNode)
unsized_constant true c = gives c
unsized_constant false none = fails null_pointer
unsized_constant false (some c) = gives (some (set_unsized true c))

-- `const2ast` is Yosys' reader of a literal, with the letter of the case that it stands in.
unfoldable pub read_literal :
    (Text → Text → Option AstNode) → Object → Text → Text → Checked Error (Option AstNode)
read_literal const2ast object str_val_type val_str =
    let c = case_char (object.case_type) in
    if has_char 39 val_str
    then gives (const2ast val_str c)
    else unsized_constant (is_sized (object.size))
        (const2ast (literal_text object str_val_type val_str) c)

unfoldable pub finish_literal :
    Bool → (Text → Text → Option AstNode) → Object → Literal → Checked Error (Option AstNode)
finish_literal stop_on_error const2ast object null_node = gives none
finish_literal stop_on_error const2ast object (literal_node n) = gives (some n)
finish_literal stop_on_error const2ast object (literal t s) = read_literal const2ast object t s
finish_literal true const2ast object (unhandled t) = fails unhandled_format
finish_literal false const2ast object (unhandled t) = read_literal const2ast object t []

module _ (yosys : Yosys) where
  unfoldable pub process_value :
      Bool
      → (Text → AstNode)
      → (Text → Text → Option AstNode)
      → Object
      → Checked Error (Option AstNode)
  process_value stop_on_error mkconst_str const2ast object =
      finish_literal stop_on_error const2ast object (literal_of yosys mkconst_str object)

  module _ (obj_name : Text) {Handle : Type 0} (vpi : Vpi Handle) where
    unfoldable pub process_array_expr : Handle → AstNode
    process_array_expr h =
        make_ast_node yosys obj_name (ast_operator Ast.concat)
          (of_list (visit_one_to_many vpi (vpi_expr ∷ []) h))
