-- ===== src/Lib.antt =====
-- Synlig reads SystemVerilog through Surelog and builds Yosys' syntax tree from it. The plugin's
-- frontend (src/frontends/systemverilog/uhdm_ast_frontend.cc, uhdm_surelog_ast_frontend.cc) hands the
-- elaborated design to `UhdmAst` (src/frontends/systemverilog/uhdm_ast.cc), whose process functions
-- make one node for each object, and whose passes then rewrite what Yosys cannot read: loops with
-- break and continue, packed structs, accesses to their members, and wires of many ranges. This library
-- models the tree, the process functions of expressions and statements, and those passes.
--
-- Ast: the node. The constructors of `AstNodeType` that the modelled code names, the members of a
-- node that it reads or writes, the children and the attributes. A pass that changes a node in place
-- is a function that returns the new node, and `clone` is the identity. `uint32_t` is ℕ with the
-- wrap-around written out (Common.Word); an `int` is an integer, without overflow.
--
-- Yosys: what is called of Yosys' library, as a record of operations and laws that the clients take
-- as a parameter, with a model that meets them.
--
-- Attributes: uhdm_ast.cc, `get_attribute`, `set_attribute`, `delete_attribute` and
-- `delete_internal_attributes` on the map of a node, which is an association list. Absent nodes,
-- which the first two refuse by an assertion and the others skip, are not modelled.
--
-- Names: uhdm_ast.cc, `sanitize_symbol_name` and `strip_package_name`, on texts as lists of bytes.
--
-- Children: uhdm_ast.cc, `resolve_children_reparent`, with the vector that it fills as an accumulator.
--
-- Memory: utils/memory.h, the operations of `unique_resource`. Ownership runs any sequence of them on
-- two holders; handles are numbers, and the deleter writes a log.
--
-- Loop: uhdm_ast.cc, `transform_breaks_continues` with its closures `transform_block`,
-- `wrap_and_transform`, `make_case` and `make_cond_var`. The two wires are flags, handed from call to
-- call. `transform_block` and the loop over the arms of a case are structural recursion. Semantics
-- gives a block a meaning, with what else a statement does left open.
--
-- Struct: uhdm_ast.cc, `simplify_struct`, `range_width_local` and `get_max_offset_struct`.
-- `log_error` and failed assertions are errors of a result type. The members come back with their
-- ranges, and the names whose node in scope is linked to the struct as a list. `synlig_simplify` is a
-- parameter. The end that `std::remove_if` leaves is modelled as the usual implementation leaves it.
--
-- Select: uhdm_ast.cc, `traverse_dimensions`. Value evaluates the nodes that it makes, Position
-- follows its loop, Access and Part state what it selects.
--
-- Vpi: the objects that Surelog hands over and their relations, as a record of functions on handles,
-- which the external VPI interface stands for, and uhdm_ast.cc, `visit_one_to_many`,
-- `iterate_one_to_many`, `visit_one_to_one` and `visit_range`. What a process function reads of its
-- object besides its relations is an argument. A process function returns its node; what it pushes to
-- nodes under construction, and the counters that it takes and returns, are arguments and results.
--
-- Operation: uhdm_ast.cc, `process_operation` with its switch over the operators, `process_list_op`,
-- `process_cast_op`, `process_inside_op` and `process_assignment_pattern_op` (Operation.Lists,
-- Operation.Pattern, Operation.Dispatch). Meaning gives operators and nodes their values as words.
--
-- Statement: uhdm_ast.cc, `process_always`, `process_initial`, `process_event_control` and
-- `process_begin`; Statement.Loops: `process_for`, `process_while` and `process_repeat`, which call the
-- pass of Loop; Statement.Cases: `process_if_else`, `process_case`, `process_case_item` and
-- `process_gate`.
--
-- Reference: uhdm_ast.cc, `process_bit_select`, `process_part_select`, `process_indexed_part_select`,
-- `process_var_select`, `process_range` and `process_hier_path` (Reference.HierPath).
--
-- Wire: uhdm_ast.cc, `convert_range`, which turns an access to a wire of many ranges into a range of
-- bits; Wire.Convert: `set_dimensions`, `add_multirange_wire` and `convert_packed_unpacked_range`, behind
-- its call of `resolve_wiretype`. What `simplify_sv` and `synlig_simplify` make of a range is a
-- parameter.
--
-- Force: uhdm_ast.cc, `check_memories` and `add_force_convert_attribute`, on a tree that is not changed
-- besides its marks, which are kept beside the names of the wires; the maps of the functions that were
-- left are results. The walk over the scopes has one round more than the scope has bytes, of which each
-- round but the last takes some away.
--
-- Hierarchy: uhdm_ast.cc, `add_or_replace_child`, by which declarations become children of a module, and
-- `move_type_to_new_typedef` (Hierarchy.Typedefs), with the text of a value and `mkconst_str` of Yosys as
-- parameters; `process_gen_scope`, which calls both (Hierarchy.GenScope), `visit_default_expr`
-- (Hierarchy.Initials), `make_cell` (Hierarchy.Cells), `process_function` and
-- `process_return` (Hierarchy.Functions), `process_type_parameter`
-- (Hierarchy.TypeParameters) and `visit_designs`
-- (Hierarchy.Designs), whose visited nodes are arguments.
--
-- Stream: uhdm_ast.cc, `process_stream_op`, with the nodes that it pushes to the list of statements around
-- it as a result. Run gives the loop a meaning on bits, and Copies runs it, with a
-- bound on its rounds.
--
-- Scope: uhdm_ast.cc, `setup_current_scope`, `clear_current_scope`, `add_members_to_scope_local`,
-- `make_packed_struct_local` and `copy_packed_unpacked_attribute`, on `current_scope` of Yosys as a map. The
-- top nodes come in the order of their iterator.
--
-- Dot: uhdm_ast.cc, `search_struct_access_with_dots` and `convert_dot`, which call the pass of Select for
-- each member. Position adds up the offsets.
--
-- Typespec: uhdm_ast.cc, `process_int_typespec`, `process_shortint_typespec`, `process_longint_typespec`,
-- `process_shortreal_typespec`, `process_byte_typespec` and `process_time_typespec`; `process_struct_typespec`
-- and `process_union_typespec` (Typespec.Members), `process_packed_array_typespec`
-- (Typespec.Packed), `process_logic_typespec`, `process_bit_typespec` and `process_array_typespec`
-- (Typespec.Ranges).
--
-- Constant: uhdm_ast.cc, `process_value`. Yosys' readers of literals and strings are parameters.
--
-- Frontend.Defaults, Frontend.Defines: uhdm_surelog_ast_frontend.cc, `SystemVerilogDefaults::execute` and
-- the operations of `SystemVerilogDefines`, on the global lists that they keep. The line that an erroneous
-- command ends with is an error or a constructor of the result. An iterator behind `erase` is taken to be
-- at the next element. Frontend.Options: uhdm_common_frontend.cc, the loop over the arguments of
-- `UhdmCommonFrontend::execute`. Frontend.Read: the rest of it up to the call of `parse`,
-- `UhdmSurelogAstFrontend::parse` and `Compiler::execute`; what Surelog reports and `extra_args` of Yosys
-- are parameters, and a design that reaches `visit_designs` is the outcome of the command.
--
-- The digits of `std::to_string` are put on fuel above the number (Common.Decimal), which is enough as
-- each round divides by ten. The loop of `remove` has one step more than there are defines, of which each
-- step passes or erases one. No other model but the walk of Force and the loop of Stream runs on
-- fuel. Not modelled: the process functions of other declarations, ports and other typespecs,
-- assignments and calls, and the passes
-- `simplify_sv` and `resolve_wiretype` of uhdm_ast.cc; the help texts and the frontend
-- for UHDM files, the driver (src/utils) and the bindings (src/python); and the copy of Yosys' own sources
-- under src/mods/yosys_ast, whose functions the passes call.
pub mod Frontend
pub mod Force
pub mod Hierarchy
pub mod Stream
pub mod Scope
pub mod Common
pub mod Ast
pub mod Yosys
pub mod Vpi
pub mod Attributes
pub mod Names
pub mod Children
pub mod Memory
pub mod Loop
pub mod Operation
pub mod Statement
pub mod Reference
pub mod Struct
pub mod Select
pub mod Wire
pub mod Constant
pub mod Dot
pub mod Typespec
