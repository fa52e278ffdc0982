-- ===== src/Operation/Dispatch.antt =====
-- src/frontends/systemverilog/uhdm_ast.cc, `process_operation`: which function makes the node.
use synlig.Common.{List}
use synlig.Common.Text.{Text}
use synlig.Ast.{AstNode, of_list}
use synlig.Operation.{Operation, Outcome, failed, process_operands}
use synlig.Operation.Lists.{process_list_op, process_cast_op, process_inside_op}
use synlig.Yosys.{Yosys}

-- `stream_op` and `pattern_op` are the outcomes of `process_stream_op` and of
-- `process_assignment_pattern_op`.
module _ (yosys : Yosys) (obj_name : Text) where
  unfoldable pub process_operation :
      (stream_op pattern_op : Outcome) → List AstNode → Operation → List AstNode → Outcome
  process_operation stream_op pattern_op ancestors Operation.stream_rl_op operands = stream_op
  process_operation stream_op pattern_op ancestors Operation.event_or_op operands =
      process_list_op ancestors operands
  process_operation stream_op pattern_op ancestors Operation.list_op operands =
      process_list_op ancestors operands
  process_operation stream_op pattern_op ancestors Operation.cast_op operands =
      process_cast_op yosys obj_name operands
  process_operation stream_op pattern_op ancestors Operation.inside_op operands =
      process_inside_op yosys obj_name operands
  process_operation stream_op pattern_op ancestors Operation.assignment_pattern_op operands =
      pattern_op
  process_operation stream_op pattern_op ancestors Operation.wild_eq_op operands = failed
  process_operation stream_op pattern_op ancestors Operation.wild_neq_op operands = failed
  process_operation stream_op pattern_op ancestors o operands =
      process_operands yosys obj_name o (of_list operands)
