-- ===== src/Attributes/Tests.antt =====
-- A node with an attribute of Synlig and one of Yosys.
use synlig.Common.{some, ◌≡◌}
use synlig.Common.Text.{codes}
use synlig.Ast.{AstNode, node, nil, empty, entry, new_fields, ast_wire, ast_constant}
use synlig.Attributes.{get_attribute, set_attribute, get_attribute-set_attribute}

abbrev one : AstNode
one = node ast_constant (record new_fields { integer = 1 }) nil empty

abbrev wire : AstNode
wire =
    node ast_wire new_fields nil
      (entry (codes "$synlig$partial") one (entry (codes "keep") one empty))

set_and_read : get_attribute (set_attribute wire (codes "src") one) (codes "src") ≡ some one
set_and_read = get_attribute-set_attribute wire one (codes "src") (codes "src")
