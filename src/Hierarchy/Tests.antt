-- ===== src/Hierarchy/Tests.antt =====
-- module m (input p); initial begin end ... : a second declaration of p, and a second initial.
use synlig.Common.{Bool, true, List, [], ◌∷◌, ◌++◌, map, none, some, refl, ◌≡◌}
use synlig.Common.Int.{ℤ}
use synlig.Common.Text.{Text, codes}
use synlig.Ast
use synlig.Ast.{
  AstNode, Nodes, node, nil, cons, empty, new_fields, of_list, ast_block, ast_item, ast_wire,
  ast_struct, ast_constant, ast_function, ast_assign_eq, ast_identifier,
}
use synlig.Hierarchy.{
  add_or_replace_child, replace_first, merged, keep_direction, keep_sign, keep_children,
  keep_ranges, keep_value_sign, port_type, join_first, join_initial, block_of, own_block,
  has_initial, add_initial,
}
use synlig.Hierarchy.Tidy.{IsTidy, add_or_replace_child-IsTidy}
use synlig.Attributes.{has_name, internal_attributes, lookup}
use synlig.Common.Decimal
use synlig.Hierarchy.TypeParameters.{
  process_type_parameter, assign_types, assign_type, typedefs_of, renamed_items, rename_child,
  rename_children,
}
use synlig.Hierarchy.Designs.{visit_designs, visit_designs-AreKept, AreKept, AreWithout}
use synlig.Hierarchy.Typedefs.{
  move_type_to_new_typedef, move_type_to_new_typedef_again, typedef_node, set_str,
}
use synlig.Hierarchy.Functions.{process_function, process_return, add_parameters, io_decls, Visits}
use synlig.Loop.{make_ast_node}
use synlig.Operation.Lists.{find_ancestor}
use synlig.Statement.{is_function_or_task}
use synlig.Names.{after_separator, strip_package_name}
use synlig.Yosys.Model.{model}

abbrev plain : AstNode
plain = node (Ast.ast_other 0) new_fields nil empty

abbrev initial_of : List AstNode → AstNode
initial_of ns =
    node (ast_item Ast.initial) new_fields
      (of_list (node ast_block new_fields (of_list ns) empty ∷ [])) empty

abbrev port : AstNode
port = node ast_wire (record new_fields { str = codes "p"; is_input = true; port_id = 3 }) nil empty

abbrev again : AstNode
again = node ast_wire (record new_fields { str = codes "p"; is_signed = true }) nil empty

abbrev ports : Nodes
ports = of_list (port ∷ initial_of (plain ∷ []) ∷ [])

abbrev signed_port : AstNode
signed_port =
    node ast_wire
      (record new_fields { str = codes "p"; is_input = true; port_id = 3; is_signed = true }) nil
      empty

-- The new node has the direction and the number of the port.
replaced :
    add_or_replace_child ports again ≡ some (of_list (signed_port ∷ initial_of (plain ∷ []) ∷ []))
unfolding add_or_replace_child replace_first merged keep_direction keep_sign keep_children
    keep_ranges keep_value_sign port_type lookup
replaced = refl

-- The statements of two initials stand in one block.
joined :
    add_or_replace_child ports (initial_of (plain ∷ []))
    ≡ some (of_list (port ∷ initial_of (plain ∷ plain ∷ []) ∷ []))
unfolding add_or_replace_child add_initial join_first join_initial block_of own_block has_initial
joined = refl

add_or_replace_child-IsTidy_example : IsTidy (of_list (port ∷ initial_of (plain ∷ plain ∷ []) ∷ []))
add_or_replace_child-IsTidy_example =
    add_or_replace_child-IsTidy ports (initial_of (plain ∷ [])) (refl, (refl, tt)) joined

abbrev struct_type : AstNode
struct_type = node ast_struct (record new_fields { str = codes "\\p::word" }) nil empty

abbrev mkconst_str : Text → AstNode
mkconst_str s = node ast_constant (record new_fields { str = s }) nil empty

abbrev as_string : AstNode → ℤ → Bool → Text
as_string n width is_signed = codes "0"

abbrev with_typedef : Nodes
with_typedef = of_list (port ∷ typedef_node (codes "\\word") (set_str [] struct_type) ∷ [])

first_time :
    move_type_to_new_typedef model mkconst_str as_string (of_list (port ∷ [])) struct_type 0
    ≡ some (with_typedef, 0)
unfolding move_type_to_new_typedef strip_package_name after_separator
first_time = refl

move_type_to_new_typedef_again_example :
    move_type_to_new_typedef model mkconst_str as_string with_typedef struct_type 4
    ≡ some (with_typedef, 4)
move_type_to_new_typedef_again_example =
    move_type_to_new_typedef_again model mkconst_str as_string (of_list (port ∷ [])) struct_type 0 4
      first_time

abbrev design : List AstNode → AstNode
design ns = node (Ast.ast_other 2) new_fields (of_list ns) empty

visit_designs-AreKept_example :
    (kept : Nodes) × (visit_designs
        (map some (design (port ∷ []) ∷ []) ++ (some (design (plain ∷ [])) ∷ []))
      ≡ some kept)
    × AreKept kept (of_list (plain ∷ []))
    × ((k : Text) → has_name internal_attributes k ≡ true → AreWithout k kept)
visit_designs-AreKept_example =
    visit_designs-AreKept (design (port ∷ []) ∷ []) (design (plain ∷ []))

abbrev named_item : Text → AstNode
named_item name = node (ast_item Ast.enum_item) (record new_fields { str = name }) nil empty

-- enum { RED } word, assigned to a type parameter of a module that declares word.
abbrev enum_type : AstNode
enum_type =
    node (ast_item Ast.enum) (record new_fields { str = codes "\\word" })
      (of_list (named_item (codes "\\RED") ∷ [])) empty

enum_parameter :
    process_type_parameter mkconst_str (some (of_list (port ∷ []))) (some enum_type ∷ []) 2 5
    ≡ some (record {
      attribute_name = [];
      assigned = of_list (
          node
            (ast_item Ast.enum)
            (record new_fields { str = codes "\\word$enum5" })
            (of_list (named_item (codes "\\word$enum5.\\RED") ∷ []))
            empty
          ∷ []);
      renamed_enum = codes "\\word$enum5";
      anonymous_type_id = 2;
      enum_id = 6;
    })
unfolding process_type_parameter assign_types assign_type typedefs_of renamed_items rename_child
    rename_children Decimal.to_string Decimal.put_digits
enum_parameter = refl

-- function f(input p, q); two ports behind the ports of the module.
two_numbered :
    io_decls 4294967295 (plain ∷ port ∷ [])
    ≡ of_list (
        node ast_wire new_fields nil empty
        ∷ node ast_wire
            (record new_fields { str = codes "p"; is_input = true; port_id = 1 })
            nil
            empty
        ∷ [])
unfolding io_decls
two_numbered = refl

abbrev function_visits : Visits
function_visits = record {
  is_function_object = true;
  return' = some port;
  net_is_reg = true;
  parameters = none ∷ [];
  io = plain ∷ [];
  variables = [];
  stmt = some plain;
}

abbrev result_wire : AstNode
result_wire =
    node ast_wire (record new_fields { is_input = true; is_reg = true; port_id = 3 }) nil empty

with_ports :
    process_function model [] 4 function_visits
    ≡ some (
        make_ast_node model [] ast_function (
          of_list (
            result_wire
            ∷ node ast_wire (record new_fields { port_id = 5 }) nil empty
            ∷ plain
            ∷ [])))
unfolding process_function add_parameters io_decls make_ast_node
with_ports = refl

-- The statement assigns to the first child of the function.
returned :
    process_return model []
      (plain ∷ node ast_function new_fields (of_list (again ∷ [])) empty ∷ [])
      (some plain)
    ≡ some (
        make_ast_node model [] ast_assign_eq (
          of_list
            (node ast_identifier (record new_fields { str = codes "p" }) nil empty ∷ plain ∷ [])))
unfolding process_return find_ancestor is_function_or_task make_ast_node
returned = refl

outside : process_return model [] (plain ∷ []) none ≡ none
unfolding process_return find_ancestor is_function_or_task
outside = refl
