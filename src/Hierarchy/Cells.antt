-- ===== src/Hierarchy/Cells.antt =====
-- src/frontends/systemverilog/uhdm_ast.cc, `make_cell`: a cell with its type and its connections.
use synlig.Common.{Bool, true, false, List, [], ◌∷◌, Option, none, some, if◌then◌else◌}
use synlig.Common.Text.{Text}
use synlig.Ast
use synlig.Ast.{
  AstNode, AstNodeType, Nodes, node, nil, cons, empty, new_fields, of_list, ◌++ₙ◌, ast_item,
  ast_identifier, set_type, type,
}
use synlig.Hierarchy.{is_parameter}
use synlig.Names.{sanitize_symbol_name}

-- A port: its name, if there is one, and the nodes of its high connection.
pub record Port : Type 0 where
  pub name : Option Text
  pub high_conn : List (Option AstNode)

abbrev pub arg_name : Option Text → Text
arg_name none = []
arg_name (some s) = sanitize_symbol_name s

-- A connection to a parameter reads it.
abbrev pub as_identifier : AstNode → AstNode
as_identifier n = if is_parameter (type n) then set_type ast_identifier n else n

unfoldable pub connections : List (Option AstNode) → Nodes
connections [] = nil
connections (none ∷ ns) = connections ns
connections (some n ∷ ns) = cons (as_identifier n) (connections ns)

unfoldable pub arguments : List Port → Nodes
arguments [] = nil
arguments (port ∷ ports) =
    cons
      (node (ast_item Ast.argument) (record new_fields { str = arg_name port.name })
        (connections port.high_conn) empty)
      (arguments ports)

abbrev pub type_node : Text → AstNode
type_node cell_type = node (ast_item Ast.celltype) (record new_fields { str = cell_type }) nil empty

abbrev pub is_cell_type : AstNodeType → Bool
is_cell_type (ast_item Ast.celltype) = true
is_cell_type _ = false

unfoldable pub with_type : Text → Nodes → Nodes
with_type cell_type nil = cons (type_node cell_type) nil
with_type cell_type (cons n ns) =
    if is_cell_type (type n) then cons n ns else cons (type_node cell_type) (cons n ns)

unfoldable pub make_cell : AstNode → Text → List Port → AstNode
make_cell (node t f cs as') cell_type ports =
    node t f (with_type cell_type cs ++ₙ arguments ports) as'
