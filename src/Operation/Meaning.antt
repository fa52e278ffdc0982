-- ===== src/Operation/Meaning.antt =====
-- The meaning of operators on words, for Yosys' nodes and for the operations of the language.
use Prim.Native.Nat.{bit_and, bit_or, bit_xor}
use synlig.Common.{
  ℕ, zero, suc, ◌+◌, ◌-◌, ◌*◌, ◌/◌, ◌%◌, ◌^◌, Bool, true, false, not, ◌&&◌, Option, none, some, ltb,
  leb, ◌==◌, if◌then◌else◌,
}
use synlig.Ast
use synlig.Ast.{
  AstNode, AstNodeType, Nodes, node, nil, cons, ast_operator, ast_add, ast_sub, ast_mul,
  ast_logic_and, ast_logic_not,
}
use synlig.Operation.{
  Operation, minus_op, plus_op, unary_and_op, unary_or_op, unary_xor_op, unary_xnor_op,
  unary_nand_op, unary_nor_op, bit_neg_op, bit_and_op, bit_or_op, bit_xor_op, bit_xnor_op,
  l_shift_op, r_shift_op, arith_l_shift_op, not_op, log_and_op, log_or_op, eq_op, neq_op,
  case_eq_op, case_neq_op, gt_op, ge_op, lt_op, le_op, sub_op, add_op, mult_op, div_op, mod_op,
  power_op, arith_r_shift_op, concat_op, multi_concat_op, multi_assignment_pattern_op, stream_lr_op,
}

-- A truth value as a bit.
abbrev pub bit : Bool → ℕ
bit b = if b then 1 else 0

-- The parity of the lowest bits.
unfoldable pub parity : ℕ → ℕ → ℕ
parity zero a = 0
parity (suc n) a = (a % 2 + parity n (a / 2)) % 2

-- Whether the lowest bits are the same, one by one.
unfoldable pub same_bits : ℕ → ℕ → ℕ → Bool
same_bits zero a b = true
same_bits (suc n) a b = a % 2 == b % 2 && same_bits n (a / 2) (b / 2)

abbrev pub is_shift : Ast.Operator → Bool
is_shift Ast.shift_left = true
is_shift Ast.shift_right = true
is_shift Ast.shift_sleft = true
is_shift Ast.shift_sright = true
is_shift _ = false

abbrev pub is_unsigned_cast : AstNode → Bool
is_unsigned_cast (node (ast_operator Ast.to_unsigned) f cs as') = true
is_unsigned_cast _ = false

module _ (width : ℕ) where
  abbrev pub modulus : ℕ
  modulus = 2 ^ width

  -- Words one behind the other.
  unfoldable pub repeated : ℕ → ℕ → ℕ
  repeated zero a = 0
  repeated (suc n) a = repeated n a * modulus + a

  -- Yosys' operators, of one operand and of two.
  unfoldable pub operate_unary : Ast.Operator → ℕ → ℕ
  operate_unary Ast.neg a = (modulus - a) % modulus
  operate_unary Ast.plus a = a
  operate_unary Ast.reduce_and a = bit (a + 1 == modulus)
  operate_unary Ast.reduce_or a = bit (not (a == 0))
  operate_unary Ast.reduce_bool a = bit (not (a == 0))
  operate_unary Ast.reduce_xor a = parity width a
  operate_unary Ast.reduce_xnor a = 1 - parity width a
  operate_unary Ast.bit_not a = modulus - 1 - a
  operate_unary Ast.to_unsigned a = a
  operate_unary Ast.selfsz a = a
  operate_unary Ast.concat a = a
  operate_unary _ a = 0

  unfoldable pub operate : Ast.Operator → ℕ → ℕ → ℕ
  operate Ast.bit_and a b = bit_and a b
  operate Ast.bit_or a b = bit_or a b
  operate Ast.bit_xor a b = bit_xor a b
  operate Ast.bit_xnor a b = modulus - 1 - bit_xor a b
  operate Ast.shift_left a b = a * 2 ^ b % modulus
  operate Ast.shift_sleft a b = a * 2 ^ b % modulus
  operate Ast.shift_right a b = a / 2 ^ b
  operate Ast.shift_sright a b = a / 2 ^ b
  -- The first operand of Yosys' concatenation is the lowest one.
  operate Ast.concat a b = b * modulus + a
  operate Ast.replicate a b = repeated a b
  operate Ast.power a b = a ^ b % modulus
  operate Ast.logic_or a b = if a == 0 then bit (not (b == 0)) else 1
  operate Ast.eq a b = bit (a == b)
  operate Ast.eqx a b = bit (same_bits width a b)
  operate Ast.ne a b = bit (not (a == b))
  operate Ast.nex a b = bit (not (same_bits width a b))
  operate Ast.lt a b = bit (ltb a b)
  operate Ast.le a b = bit (leb a b)
  operate Ast.gt a b = bit (ltb b a)
  operate Ast.ge a b = bit (leb b a)
  operate Ast.div a b = a / b
  operate Ast.modulo a b = a % b
  operate _ a b = 0

  module _ (env : AstNode → ℕ) where
    -- The value of an expression of unsigned words; `env` gives it of all other nodes, and of a shift
    -- whose amount is not cast to an unsigned word.
    unfoldable pub value : AstNode → ℕ
    value (node (ast_operator o) f (cons a nil) as') = operate_unary o (value a)
    value (node (ast_operator Ast.ternary) f (cons c (cons a (cons b nil))) as') =
        let then_value = value a in
        let else_value = value b in if value c == 0 then else_value else then_value
    value (node (ast_operator o) f (cons a (cons b nil)) as') =
        let v = operate o (value a) (value b) in
        if is_shift o && not (is_unsigned_cast b)
        then env (node (ast_operator o) f (cons a (cons b nil)) as')
        else v
    value (node ast_add f (cons a (cons b nil)) as') = (value a + value b) % modulus
    value (node ast_sub f (cons a (cons b nil)) as') = (value a + modulus - value b) % modulus
    value (node ast_mul f (cons a (cons b nil)) as') = value a * value b % modulus
    value (node ast_logic_and f (cons a (cons b nil)) as') =
        if value a == 0 then 0 else bit (not (value b == 0))
    value (node ast_logic_not f (cons a nil) as') = bit (value a == 0)
    value n = env n

  -- SystemVerilog's operators, of one operand and of two, on unsigned words of two-valued bits.
  unfoldable pub means_unary : Operation → ℕ → Option ℕ
  means_unary minus_op a = some ((modulus - a) % modulus)
  means_unary plus_op a = some a
  means_unary bit_neg_op a = some (modulus - 1 - a)
  means_unary not_op a = some (if a == 0 then 1 else 0)
  -- All bits are set, or not; some bit is set, or none.
  means_unary unary_and_op a = some (if a + 1 == modulus then 1 else 0)
  means_unary unary_nand_op a = some (if a + 1 == modulus then 0 else 1)
  means_unary unary_or_op a = some (if a == 0 then 0 else 1)
  means_unary unary_nor_op a = some (if a == 0 then 1 else 0)
  means_unary unary_xor_op a = some (parity width a)
  means_unary unary_xnor_op a = some (1 - parity width a)
  means_unary concat_op a = some a
  -- A stream to the right keeps the order.
  means_unary stream_lr_op a = some a
  means_unary _ a = none

  unfoldable pub means : Operation → ℕ → ℕ → Option ℕ
  means add_op a b = some ((a + b) % modulus)
  means sub_op a b = some ((a + modulus - b) % modulus)
  means mult_op a b = some (a * b % modulus)
  means div_op a b = some (a / b)
  means mod_op a b = some (a % b)
  means power_op a b = some (a ^ b % modulus)
  means bit_and_op a b = some (bit_and a b)
  means bit_or_op a b = some (bit_or a b)
  means bit_xor_op a b = some (bit_xor a b)
  means bit_xnor_op a b = some (modulus - 1 - bit_xor a b)
  means unary_nand_op a b = some (modulus - 1 - bit_and a b)
  means unary_nor_op a b = some (modulus - 1 - bit_or a b)
  means l_shift_op a b = some (a * 2 ^ b % modulus)
  means arith_l_shift_op a b = some (a * 2 ^ b % modulus)
  means r_shift_op a b = some (a / 2 ^ b)
  means arith_r_shift_op a b = some (a / 2 ^ b)
  means concat_op a b = some (a * modulus + b)
  means multi_concat_op a b = some (repeated a b)
  means multi_assignment_pattern_op a b = some (repeated a b)
  -- The first operand is the size of a slice.
  means stream_lr_op a b = some b
  means log_and_op a b = some (if a == 0 then 0 else if b == 0 then 0 else 1)
  means log_or_op a b = some (if a == 0 then if b == 0 then 0 else 1 else 1)
  means eq_op a b = some (if a == b then 1 else 0)
  means case_eq_op a b = some (if same_bits width a b then 1 else 0)
  means neq_op a b = some (if a == b then 0 else 1)
  means case_neq_op a b = some (if same_bits width a b then 0 else 1)
  means lt_op a b = some (if ltb a b then 1 else 0)
  means le_op a b = some (if ltb b a then 0 else 1)
  means gt_op a b = some (if ltb b a then 1 else 0)
  means ge_op a b = some (if ltb a b then 0 else 1)
  means _ a b = none
