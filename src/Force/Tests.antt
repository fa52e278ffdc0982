-- ===== src/Force/Tests.antt =====
-- logic [7:0] mem [0:3]; $readmemh("f", mem); mem, in a generate block of another one.
use synlig.Common.{[], ◌∷◌, some, none, refl, List, ◌≡◌}
use synlig.Common.Checked.{gives}
use synlig.Common.Text.{codes}
use synlig.Ast
use synlig.Ast.{
  AstNode, Attributes, Nodes, node, nil, cons, empty, entry, new_fields, of_list, ast_range,
  ast_wire, ast_identifier, ast_genblock, ast_function,
}
use synlig.Attributes.{get_attribute, lookup}
use synlig.Force.{
  Memories, check_memories, check_node, check_children, visit, visit_typed, visit_identifier,
  declare, readmem, memory_name, access, enclosing, walk, found_or, find_memory,
  add_force_convert_attribute, forced_value, range_count, inner_scope, last_dot, shifted_or,
  or_start,
}
use synlig.Force.Scopes.{enclosing-nearest, nearest, scope_text}
use synlig.Force.Kept.{Gives, HasFilled, check_children-filled}

abbrev range : AstNode
range = node ast_range new_fields nil empty

abbrev one_dimension : AstNode
one_dimension = node (Ast.ast_other 0) new_fields (cons range nil) empty

abbrev wire : AstNode
wire =
    node ast_wire (record new_fields { str = codes "mem" }) nil
      (entry (codes "$synlig$packed_ranges") one_dimension
        (entry (codes "$synlig$unpacked_ranges") one_dimension empty))

abbrev identifier : Nodes → AstNode
identifier cs = node ast_identifier (record new_fields { str = codes "mem" }) cs empty

abbrev readmemh : AstNode
readmemh =
    node (Ast.ast_other 1) (record new_fields { str = codes "\\$readmemh" })
      (of_list (range ∷ identifier nil ∷ [])) empty

abbrev block : List AstNode → AstNode
block ns = node ast_genblock (record new_fields { str = codes "g" }) (of_list ns) empty

-- An access to the whole memory marks it, an access to one element does not.
whole_access :
    check_memories (block (wire ∷ block (identifier nil ∷ []) ∷ []))
    ≡ gives ((codes ".g.mem", some 1) ∷ [], [])
unfolding check_memories check_node check_children visit visit_typed visit_identifier declare
    readmem memory_name access enclosing walk found_or find_memory add_force_convert_attribute
    forced_value range_count inner_scope last_dot shifted_or or_start get_attribute lookup
whole_access = refl

filled :
    check_memories (block (wire ∷ readmemh ∷ identifier nil ∷ []))
    ≡ gives ((codes ".g.mem", some 0) ∷ [], [])
unfolding check_memories check_node check_children visit visit_typed visit_identifier declare
    readmem memory_name access enclosing walk found_or find_memory add_force_convert_attribute
    forced_value range_count inner_scope last_dot shifted_or or_start get_attribute lookup
filled = refl

abbrev memories : Memories
memories = (codes ".a.mem", some 0) ∷ (codes ".a.b.mem", none) ∷ []

enclosing-nearest_example :
    enclosing (scope_text (codes "c" ∷ codes "b" ∷ codes "a" ∷ [])) (codes "mem") memories
    ≡ gives (nearest (codes "c" ∷ codes "b" ∷ codes "a" ∷ []) (codes "mem") memories)
unfolding last_dot shifted_or
enclosing-nearest_example =
    enclosing-nearest (codes "c" ∷ codes "b" ∷ codes "a" ∷ []) (codes "mem") memories
      (refl, (refl, (refl, tt)))

check_children-filled_example :
    Gives
      (HasFilled (codes ".a.mem"))
      (check_children (codes ".a") (cons (identifier nil) nil) (memories, []))
unfolding find_memory
check_children-filled_example =
    check_children-filled (codes ".a.mem") (codes ".a") (cons (identifier nil) nil) memories [] refl
