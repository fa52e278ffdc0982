-- ===== src/Hierarchy/Functions.antt =====
-- src/frontends/systemverilog/uhdm_ast.cc, `process_function` and `process_return`: a function or a task
-- with its ports, and the statement that gives its result.
use synlig.Common.{ℕ, suc, ◌%◌, Bool, List, [], ◌∷◌, Option, none, some, if◌then◌else◌}
use synlig.Common.Text.{Text, codes}
use synlig.Ast
use synlig.Ast.{
  AstNode, Nodes, node, nil, cons, empty, new_fields, of_list, ◌++ₙ◌, children, str, ast_wire,
  ast_identifier, ast_assign_eq, ast_function, ast_item,
}
use synlig.Attributes.{get_attribute}
use synlig.Hierarchy.{add_or_replace_child}
use synlig.Hierarchy.GenScope.{is_type_parameter}
use synlig.Loop.{make_ast_node}
use synlig.Operation.Lists.{find_ancestor}
use synlig.Statement.{is_function_or_task}
use synlig.Yosys.{Yosys}

-- The first child of a function names its result.
abbrev pub result_name : Nodes → Nodes
result_name nil = nil
result_name (cons n ns) =
    cons (node ast_identifier (record new_fields { str = str n }) nil empty) nil

abbrev pub nodes_of : Option AstNode → Nodes
nodes_of none = nil
nodes_of (some n) = cons n nil

-- A node of a function under its name; `is_reg` tells that the net type is `vpiReg`.
abbrev pub return_node : Text → Bool → AstNode → AstNode
return_node name is_reg (node t f cs as') = node t (record f { str = name; is_reg = is_reg }) cs as'

-- Parameters of a type are left out. None where an assertion fails.
unfoldable pub add_parameters : Nodes → List (Option AstNode) → Option Nodes
add_parameters ns [] = some ns
add_parameters ns (none ∷ ps) = add_parameters ns ps
add_parameters ns (some p ∷ ps) =
    let skipped = add_parameters ns ps in
    let added : Option Nodes = elim (add_or_replace_child ns p) [
      | none ↦ none
      | some ms ↦ add_parameters ms ps
    ] in
    if is_type_parameter (get_attribute p (codes "$synlig$is_type_parameter"))
    then skipped
    else added

-- `port_count` is an unsigned number of 32 bits.
abbrev pub next_port_id : ℕ → ℕ
next_port_id port_count = suc port_count % 4294967296

abbrev pub io_decl : ℕ → AstNode → AstNode
io_decl port_id (node t f cs as') = node ast_wire (record f { port_id = port_id }) cs as'

-- Each port gets the next number.
unfoldable pub io_decls : ℕ → List AstNode → Nodes
io_decls port_count [] = nil
io_decls port_count (n ∷ ns) =
    cons (io_decl (next_port_id port_count) n) (io_decls (next_port_id port_count) ns)

-- What the visits of the object of a function or a task bring.
pub record Visits : Type 0 where
  pub is_function_object : Bool
  pub return' : Option AstNode
  pub net_is_reg : Bool
  pub parameters : List (Option AstNode)
  pub io : List AstNode
  pub variables : List AstNode
  pub stmt : Option AstNode

abbrev pub return_nodes : Text → Bool → Option AstNode → Nodes
return_nodes name is_reg none = nil
return_nodes name is_reg (some n) = cons (return_node name is_reg n) nil

module _ (yosys : Yosys) (obj_name : Text) where
  -- None without a function or a task around it, where a null pointer is read.
  unfoldable pub process_return : List AstNode → Option AstNode → Option AstNode
  process_return ancestors condition = elim (find_ancestor is_function_or_task ancestors) [
    | none ↦ none
    | some func ↦ some (
        make_ast_node yosys obj_name ast_assign_eq
          (result_name (children func) ++ₙ nodes_of condition))
  ]

  abbrev pub function_node : Bool → Nodes → AstNode
  function_node is_function_object ns =
      make_ast_node yosys obj_name (if is_function_object then ast_function else ast_item Ast.task)
        ns

  abbrev pub behind_parameters : ℕ → Visits → Option Nodes → Option AstNode
  behind_parameters port_count v none = none
  behind_parameters port_count v (some ns) = some (
      function_node v.is_function_object
        (ns ++ₙ (io_decls port_count v.io ++ₙ (of_list v.variables ++ₙ nodes_of v.stmt))))

  -- No port is a null pointer.
  unfoldable pub process_function : ℕ → Visits → Option AstNode
  process_function port_count v = behind_parameters port_count v (
      add_parameters
        (return_nodes (str (function_node v.is_function_object nil)) v.net_is_reg v.return')
        v.parameters)
