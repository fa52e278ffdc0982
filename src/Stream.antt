-- ===== src/Stream.antt =====
-- src/frontends/systemverilog/uhdm_ast.cc, `process_stream_op`, and uhdm_ast.h, the builder of nodes: a
-- stream operator becomes a loop that copies slices from one wire to another.
mod Tests
pub mod Run
pub mod Rounds
pub mod Copies
use synlig.Common.{
  ℕ, Bool, true, false, List, [], ◌∷◌, ◌++◌, Option, none, some, if◌then◌else◌, ◌%◌, ◌^◌,
}
use synlig.Common.Decimal.{to_string}
use synlig.Common.Int.{ℤ, pos}
use synlig.Common.Text.{Text, codes}
use synlig.Ast
use synlig.Ast.{
  AstNode, AstNodeType, Fields, node, nil, cons, empty, new_fields, of_list, type, str, ast_item,
  ast_block, ast_function, ast_constant, ast_localparam, ast_wire, ast_range, ast_sub, ast_add,
  ast_assign_eq, ast_for, ast_genblock, ast_identifier, ast_operator,
}
use synlig.Operation.Lists.{find_ancestor}
use synlig.Wire.{make_range}
use synlig.Yosys.{Yosys}

-- The builder: a type, a name and children.
abbrev pub make_node : AstNodeType → Text → List AstNode → AstNode
make_node t name ns = node t (record new_fields { str = name }) (of_list ns) empty

abbrev pub set_reg : Bool → AstNode → AstNode
set_reg b (node t f cs as') = node t (record f { is_reg = b }) cs as'

abbrev pub make_ident : Text → AstNode
make_ident id = make_node ast_identifier id []

-- `value`, without the bits: the range is that of the width, 32.
abbrev pub make_const : ℕ → Bool → AstNode
make_const v is_signed =
    node ast_constant
      (record new_fields {
        integer = v % 2 ^ 32;
        is_signed = is_signed;
        range_valid = true;
        range_left = pos 31;
        range_right = pos 0;
      })
      nil empty

abbrev pub is_statement_list : AstNodeType → Bool
is_statement_list (ast_item Ast.module_scope) = true
is_statement_list (ast_item Ast.package_scope) = true
is_statement_list ast_block = true
is_statement_list (ast_item Ast.initial) = true
is_statement_list (ast_item Ast.always) = true
is_statement_list ast_function = true
is_statement_list _ = false

abbrev pub is_procedure : AstNodeType → Bool
is_procedure (ast_item Ast.always) = true
is_procedure (ast_item Ast.initial) = true
is_procedure ast_function = true
is_procedure _ = false

abbrev pub is_constant_type : AstNodeType → Bool
is_constant_type ast_constant = true
is_constant_type _ = false

-- The size of a slice and what is streamed; none where an assertion fails.
unfoldable pub stream_operands : List AstNode → Option (AstNode × AstNode)
stream_operands [] = none
stream_operands (stream_concat ∷ []) = some (make_const 1 false, stream_concat)
stream_operands (slice_size ∷ stream_concat ∷ []) =
    if is_constant_type (type slice_size) then some (slice_size, stream_concat) else none
stream_operands (a ∷ b ∷ c ∷ more) = none

abbrev pub make_id_str : ℕ → Text → Text
make_id_str stream_op_id suffix =
    codes "$synlig$stream_op_" ++ (to_string stream_op_id ++ (95 ∷ suffix))

abbrev pub either_type : Bool → AstNodeType → AstNodeType → AstNodeType
either_type is_proc_ctx in_procedure outside = if is_proc_ctx then in_procedure else outside

module _ (stream_op_id : ℕ) where
  abbrev pub width_name : Text
  width_name = make_id_str stream_op_id (codes "width")

  abbrev pub src_name : Text
  src_name = make_id_str stream_op_id (codes "src")

  abbrev pub dst_name : Text
  dst_name = make_id_str stream_op_id (codes "dst")

  abbrev pub counter_name : Text
  counter_name = make_id_str stream_op_id (codes "counter")

  unfoldable pub high_index : AstNode
  high_index = make_node ast_sub [] (make_ident width_name ∷ make_const 1 true ∷ [])

  unfoldable pub src_wire : Bool → AstNode
  src_wire is_proc_ctx = set_reg is_proc_ctx (
      make_node ast_wire src_name
        (make_node ast_range [] (make_const 0 true ∷ high_index ∷ []) ∷ []))

  unfoldable pub dst_wire : Bool → AstNode
  dst_wire is_proc_ctx = set_reg is_proc_ctx (
      make_node ast_wire dst_name
        (make_node ast_range [] (high_index ∷ make_const 0 true ∷ []) ∷ []))

  unfoldable pub assign_stream_concat : Bool → AstNode → AstNode
  assign_stream_concat is_proc_ctx stream_concat =
      make_node (either_type is_proc_ctx ast_assign_eq (ast_item Ast.assign)) []
        (make_ident src_name ∷ stream_concat ∷ [])

  abbrev pub counter : AstNode
  counter = make_node (ast_operator Ast.selfsz) [] (make_ident counter_name ∷ [])

  -- [counter + slice_size - 1 : counter + 0]
  unfoldable pub slice_range : AstNode → AstNode
  slice_range slice_size = make_node ast_range [] (
      make_node ast_sub []
        (make_node ast_add [] (counter ∷ slice_size ∷ []) ∷ make_const 1 true ∷ [])
      ∷ make_node ast_add [] (counter ∷ make_const 0 true ∷ [])
      ∷ [])

  unfoldable pub loop_init : AstNode
  loop_init = make_node ast_assign_eq [] (make_ident counter_name ∷ make_const 0 true ∷ [])

  unfoldable pub loop_condition : AstNode
  loop_condition =
      make_node (ast_operator Ast.lt) [] (make_ident counter_name ∷ make_ident width_name ∷ [])

  unfoldable pub loop_step : AstNode → AstNode
  loop_step slice_size = make_node ast_assign_eq [] (
      make_ident counter_name
      ∷ make_node ast_add [] (make_ident counter_name ∷ slice_size ∷ [])
      ∷ [])

  unfoldable pub loop_assign : Bool → AstNode → AstNode
  loop_assign is_proc_ctx slice_size =
      make_node (either_type is_proc_ctx ast_assign_eq (ast_item Ast.assign)) [] (
        make_node ast_identifier dst_name (slice_range slice_size ∷ [])
        ∷ make_node ast_identifier src_name (slice_range slice_size ∷ [])
        ∷ [])

  unfoldable pub for_loop : Bool → AstNode → AstNode
  for_loop is_proc_ctx slice_size =
      make_node (either_type is_proc_ctx ast_for (ast_item Ast.genfor)) [] (
        loop_init
        ∷ loop_condition
        ∷ loop_step slice_size
        ∷ make_node (either_type is_proc_ctx ast_block ast_genblock)
            (make_id_str stream_op_id (codes "loop_body")) (loop_assign is_proc_ctx slice_size ∷ [])
        ∷ [])

  module _ (yosys : Yosys) where
    unfoldable pub stream_concat_width : AstNode → AstNode
    stream_concat_width stream_concat = make_node ast_localparam width_name (
        make_node (ast_item Ast.fcall) (codes "\\$bits") (stream_concat ∷ [])
        ∷ make_range yosys (pos 31) (pos 0) true
        ∷ [])

    unfoldable pub loop_counter : Bool → AstNode
    loop_counter is_proc_ctx = set_reg true (
        make_node (either_type is_proc_ctx ast_wire (ast_item Ast.genvar)) counter_name
          (make_range yosys (pos 31) (pos 0) true ∷ []))

    unfoldable pub stream_statements : Bool → AstNode → AstNode → List AstNode
    stream_statements is_proc_ctx slice_size stream_concat =
        stream_concat_width stream_concat
        ∷ src_wire is_proc_ctx
        ∷ dst_wire is_proc_ctx
        ∷ assign_stream_concat is_proc_ctx stream_concat
        ∷ loop_counter is_proc_ctx
        ∷ for_loop is_proc_ctx slice_size
        ∷ []

-- What a stream operator becomes, with the number that it takes before its operands are visited.
pub record Stream : Type 0 where
  -- The nodes that the nearest list of statements around it gets at its end
  pub pushed : List AstNode
  -- The node of the expression itself
  pub current_node : AstNode

abbrev pub is_some : Option AstNode → Bool
is_some none = false
is_some (some n) = true

module _ (yosys : Yosys) (stream_op_id : ℕ) where
  abbrev impl : Text
  impl = make_id_str stream_op_id (codes "impl")

  -- In a procedure, the block of the statements is pushed before the operands are visited, which push
  -- `nested`; elsewhere the statements follow.
  unfoldable pub stream_of : Bool → List AstNode → AstNode × AstNode → Stream
  stream_of is_proc_ctx nested (slice_size, stream_concat) =
      let statements = stream_statements stream_op_id yosys is_proc_ctx slice_size stream_concat in
      let dst = dst_name stream_op_id in
      record {
        pushed =
            if is_proc_ctx
            then make_node ast_block impl statements ∷ nested
            else nested ++ statements;
        current_node = make_ident (if is_proc_ctx then impl ++ (46 ∷ dst) else dst);
      }

  abbrev streamed : Bool → List AstNode → Option (AstNode × AstNode) → Option Stream
  streamed is_proc_ctx nested none = none
  streamed is_proc_ctx nested (some operands) = some (stream_of is_proc_ctx nested operands)

  -- None where an assertion fails.
  unfoldable pub process_stream_op : List AstNode → List AstNode → List AstNode → Option Stream
  process_stream_op ancestors nested operands =
      let is_proc_ctx = is_some (find_ancestor is_procedure ancestors) in
      let stream = streamed is_proc_ctx nested (stream_operands operands) in
      if is_some (find_ancestor is_statement_list ancestors) then stream else none
