-- ===== src/Operation.antt =====
-- src/frontends/systemverilog/uhdm_ast.cc, `process_operation`: the node of an operation.
pub mod Lists
pub mod Pattern
pub mod Ordered
pub mod Dispatch
pub mod Meaning
pub mod Refinement
mod Tests
use synlig.Common.{ℕ, Bool, true, false, Option, none, some, ◌==◌, if◌then◌else◌}
use synlig.Common.Text.{Text}
use synlig.Ast
use synlig.Ast.{
  AstNode, AstNodeType, Nodes, node, nil, cons, empty, new_fields, children, type, back, size,
  ◌++ₙ◌, set_type, ast_operator, ast_item, ast_add, ast_sub, ast_mul, ast_logic_and, ast_logic_not,
  ast_assign_eq, ast_localparam, ast_identifier, no_type, posedge, negedge,
}
use synlig.Loop.{make_ast_node}
use synlig.Yosys.{Yosys}

-- The value of `vpiOpType`.
pub data Operation : Type 0 where
  stream_rl_op event_or_op list_op cast_op inside_op assignment_pattern_op : Operation
  wild_eq_op wild_neq_op minus_op plus_op posedge_op negedge_op : Operation
  unary_and_op unary_or_op unary_xor_op unary_xnor_op unary_nand_op unary_nor_op : Operation
  bit_neg_op bit_and_op bit_or_op bit_xor_op bit_xnor_op : Operation
  l_shift_op r_shift_op arith_l_shift_op arith_r_shift_op : Operation
  not_op log_and_op log_or_op eq_op neq_op case_eq_op case_neq_op : Operation
  gt_op ge_op lt_op le_op sub_op add_op mult_op div_op mod_op power_op : Operation
  post_inc_op pre_inc_op post_dec_op pre_dec_op condition_op concat_op : Operation
  multi_concat_op multi_assignment_pattern_op assignment_op stream_lr_op null_op : Operation
  min_typ_max_op : Operation
  other_op : ℕ → Operation

-- What a process function leaves: a node, a null pointer, or an error, which is a failed assertion,
-- a read of a child that is not there, or an error that is reported.
pub data Outcome : Type 0 where
  made : AstNode → Outcome
  no_node failed : Outcome
  -- No node: these are pushed to the children of an ancestor.
  pushed : Nodes → Outcome

module _ (yosys : Yosys) (obj_name : Text) where
  open yosys use {mkconst_int}

  -- `new AstNode(type, a)`.
  abbrev unary : AstNodeType → AstNode → AstNode
  unary t a = node t new_fields (cons a nil) empty

  -- The condition of an event, which Surelog makes 64 bits wide, is cast to a single bit.
  unfoldable pub single_bit : Nodes → Nodes
  single_bit nil = nil
  single_bit (cons c cs) =
      let size = mkconst_int 1 true 32 in
      let cast =
        make_ast_node yosys obj_name (ast_operator Ast.cast_size) (cons size (cons c nil)) in
      cons cast cs

  -- `~&` and `~|`: of two operands bit by bit, else a reduction.
  unfoldable pub negated : AstNodeType → AstNodeType → Nodes → AstNode
  negated binary reduce ns =
      if size ns == 2
      then unary (ast_operator Ast.bit_not) (make_ast_node yosys obj_name binary ns)
      else unary ast_logic_not (make_ast_node yosys obj_name reduce ns)

  -- A shift, whose amount is made unsigned.
  unfoldable pub shift : AstNodeType → Nodes → Outcome
  shift t (cons a (cons b nil)) =
      made (
        make_ast_node yosys obj_name t (cons a (cons (unary (ast_operator Ast.to_unsigned) b) nil)))
  shift t _ = failed

  -- An increment or a decrement: the operand is assigned itself plus or minus one.
  unfoldable pub step_by_one : AstNodeType → Nodes → Outcome
  step_by_one t nil = failed
  step_by_one t (cons a ns) =
      let one = mkconst_int 1 true 32 in
      let sum = node t new_fields (cons a (cons one nil)) empty in
      made (make_ast_node yosys obj_name ast_assign_eq ((cons a ns) ++ₙ cons sum nil))

  -- A local parameter that something is subtracted from becomes an identifier.
  unfoldable pub minuend : Nodes → Nodes
  minuend (cons (node ast_localparam f cs as') ns) = cons (node ast_identifier f cs as') ns
  minuend ns = ns

  -- The last operand of a stream to the right.
  unfoldable pub last_operand : Nodes → Outcome
  last_operand ns = elim (back ns) [ none ↦ failed | some n ↦ made n ]

  -- The typical one of three operands.
  unfoldable pub typical : Nodes → Outcome
  typical (cons a (cons b (cons c nil))) = made b
  typical _ = failed

  abbrev plain : AstNodeType → Nodes → Outcome
  plain t ns = made (make_ast_node yosys obj_name t ns)

  -- The inner switch, on an operation with its operands.
  unfoldable pub process_operands : Operation → Nodes → Outcome
  process_operands minus_op ns = plain (ast_operator Ast.neg) ns
  process_operands plus_op ns = plain (ast_operator Ast.plus) ns
  process_operands posedge_op ns = plain (ast_item posedge) (single_bit ns)
  process_operands negedge_op ns = plain (ast_item negedge) (single_bit ns)
  process_operands unary_and_op ns = plain (ast_operator Ast.reduce_and) ns
  process_operands unary_or_op ns = plain (ast_operator Ast.reduce_or) ns
  process_operands unary_xor_op ns = plain (ast_operator Ast.reduce_xor) ns
  process_operands unary_xnor_op ns = plain (ast_operator Ast.reduce_xnor) ns
  process_operands unary_nand_op ns =
      made (negated (ast_operator Ast.bit_and) (ast_operator Ast.reduce_and) ns)
  process_operands unary_nor_op ns =
      made (negated (ast_operator Ast.bit_or) (ast_operator Ast.reduce_or) ns)
  process_operands bit_neg_op ns = plain (ast_operator Ast.bit_not) ns
  process_operands bit_and_op ns = plain (ast_operator Ast.bit_and) ns
  process_operands bit_or_op ns = plain (ast_operator Ast.bit_or) ns
  process_operands bit_xor_op ns = plain (ast_operator Ast.bit_xor) ns
  process_operands bit_xnor_op ns = plain (ast_operator Ast.bit_xnor) ns
  process_operands l_shift_op ns = shift (ast_operator Ast.shift_left) ns
  process_operands r_shift_op ns = shift (ast_operator Ast.shift_right) ns
  process_operands not_op ns = plain ast_logic_not ns
  process_operands log_and_op ns = plain ast_logic_and ns
  process_operands log_or_op ns = plain (ast_operator Ast.logic_or) ns
  process_operands eq_op ns = plain (ast_operator Ast.eq) ns
  process_operands neq_op ns = plain (ast_operator Ast.ne) ns
  process_operands case_eq_op ns = plain (ast_operator Ast.eqx) ns
  process_operands case_neq_op ns = plain (ast_operator Ast.nex) ns
  process_operands gt_op ns = plain (ast_operator Ast.gt) ns
  process_operands ge_op ns = plain (ast_operator Ast.ge) ns
  process_operands lt_op ns = plain (ast_operator Ast.lt) ns
  process_operands le_op ns = plain (ast_operator Ast.le) ns
  process_operands sub_op ns = plain ast_sub (minuend ns)
  process_operands add_op ns = plain ast_add ns
  process_operands mult_op ns = plain ast_mul ns
  process_operands div_op ns = plain (ast_operator Ast.div) ns
  process_operands mod_op ns = plain (ast_operator Ast.modulo) ns
  process_operands arith_l_shift_op ns = shift (ast_operator Ast.shift_sleft) ns
  process_operands arith_r_shift_op ns = shift (ast_operator Ast.shift_sright) ns
  process_operands power_op ns = plain (ast_operator Ast.power) ns
  process_operands post_inc_op ns = step_by_one ast_add ns
  process_operands pre_inc_op ns = step_by_one ast_add ns
  process_operands post_dec_op ns = step_by_one ast_sub ns
  process_operands pre_dec_op ns = step_by_one ast_sub ns
  process_operands condition_op ns = plain (ast_operator Ast.ternary) ns
  process_operands concat_op ns = plain (ast_operator Ast.concat) (Ast.reverse ns)
  process_operands multi_concat_op ns = plain (ast_operator Ast.replicate) ns
  process_operands multi_assignment_pattern_op ns = plain (ast_operator Ast.replicate) ns
  process_operands assignment_op ns = plain ast_assign_eq ns
  process_operands stream_lr_op ns = last_operand ns
  process_operands null_op ns = no_node
  process_operands min_typ_max_op ns = typical ns
  process_operands _ ns = failed
