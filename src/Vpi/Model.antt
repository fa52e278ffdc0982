-- ===== src/Vpi/Model.antt =====
-- Objects with numbers for handles: what belongs to one has the next numbers.
use synlig.Common.{ℕ, ◌+◌, ◌==◌, if◌then◌else◌, false, List, [], ◌∷◌, Option, none, some}
use synlig.Common.Text.{codes}
use synlig.Ast.{
  AstNode, node, nil, cons, empty, new_fields, ast_identifier, ast_break, ast_assign_eq,
  ast_constant, ast_wire,
}
use synlig.Vpi.{
  Relation, Vpi, vpi_condition, vpi_stmt, vpi_else_stmt, vpi_for_init_stmt, vpi_width_expr,
  vpi_base_expr,
}

abbrev pub condition : AstNode
condition = node ast_identifier (record new_fields { str = codes "\\c"; integer = 3 }) nil empty

abbrev pub breaking : AstNode
breaking = node ast_break new_fields nil empty

abbrev pub initialization : AstNode
initialization =
    let wire = node ast_wire (record new_fields { str = codes "\\i" }) nil empty in
    let zero_node = node ast_constant new_fields nil empty in
    node ast_assign_eq new_fields (cons wire (cons zero_node nil)) empty

abbrev related : Relation → ℕ → Option ℕ
related vpi_condition h = some (h + 1)
related vpi_stmt h = some (h + 2)
related vpi_else_stmt h = some (h + 3)
related vpi_width_expr h = some (h + 1)
related vpi_base_expr h = some (h + 1)
related _ h = none

abbrev listed : Relation → ℕ → List ℕ
listed vpi_for_init_stmt h = (h + 4) ∷ []
listed _ h = []

abbrev object : ℕ → Option AstNode
object h =
    if h == 1
    then some condition
    else if h == 2
    then some breaking
    else if h == 4
    then some initialization
    else none

abbrev pub model : Vpi ℕ
model = record {
  vpi_handle = related;
  vpi_iterate = listed;
  is_ref_typespec = λ h. false;
  process_object = object;
}
