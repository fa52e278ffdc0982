-- ===== src/Children/Tests.antt =====
-- A module with an expanded generate block between two wires.
use synlig.Common.{◌≡◌}
use synlig.Common.Text.{codes}
use synlig.Ast.{
  AstNode, node, nil, cons, empty, entry, new_fields, ast_wire, ast_genblock, ast_constant,
  children, ast_block,
}
use synlig.Attributes.{get_attribute, lookup}
use synlig.Children.{
  resolve_children_reparent, expand, is_expanded, children-resolve_children_reparent,
}

abbrev wire : AstNode
wire = node ast_wire new_fields nil empty

abbrev flag : AstNode
flag = node ast_constant (record new_fields { integer = 1 }) nil empty

abbrev inner : AstNode
inner = node ast_block new_fields nil empty

abbrev block : AstNode
block =
    node ast_genblock new_fields (cons inner (cons wire nil))
      (entry (codes "$synlig$expand_genblock") flag empty)

abbrev module_node : AstNode
module_node = node ast_block new_fields (cons wire (cons block (cons wire nil))) empty

children-resolve_children_reparent_example :
    children (resolve_children_reparent module_node)
    ≡ cons wire (cons inner (cons wire (cons wire nil)))
unfolding expand is_expanded get_attribute lookup
children-resolve_children_reparent_example = children-resolve_children_reparent module_node
