-- ===== src/Scope/Tests.antt =====
-- A package p with a parameter A and an enum, and a module with a parameter A of its own.
use synlig.Common.{true, List, [], ◌∷◌, some, none, refl, ◌≡◌}
use synlig.Common.Text.{Text, codes}
use synlig.Ast
use synlig.Ast.{
  AstNode, Attributes, Nodes, node, nil, empty, new_fields, of_list, ast_item, ast_parameter,
  ast_struct, ast_struct_item, children,
}
use synlig.Attributes.{lookup}
use synlig.Scope.{
  Entry, import_all, package_entries, package_entry, setup_current_scope,
  add_members_to_scope_local,
}
use synlig.Scope.Shadowing.{
  lookup-setup_current_scope, or_else, last_declaration, declaration, last_imported, last_import,
  imported_declaration, last_item, packages_have_names, have_names, has_own_name,
}

abbrev named_node : Ast.AstNodeType → Text → Nodes → AstNode
named_node t name cs = node t (record new_fields { str = name }) cs empty

abbrev colour : AstNode
colour =
    named_node (ast_item Ast.enum) (codes "$enum0")
      (of_list (named_node (ast_item Ast.enum_item) (codes "\\RED") nil ∷ []))

abbrev package_node : AstNode
package_node =
    named_node (ast_item Ast.package_scope) (codes "\\p")
      (of_list (named_node ast_parameter (codes "\\A") nil ∷ colour ∷ []))

abbrev own : AstNode
own = named_node ast_parameter (codes "\\A") (of_list (colour ∷ []))

abbrev top : AstNode
top = named_node (ast_item Ast.module_scope) (codes "\\top") (of_list (own ∷ []))

abbrev imports : List Entry
imports =
    (codes "\\p::A", named_node ast_parameter (codes "\\A") nil)
    ∷ (codes "\\A", named_node ast_parameter (codes "\\A") nil)
    ∷ (codes "$enum0", colour)
    ∷ (codes "\\RED", named_node (ast_item Ast.enum_item) (codes "\\RED") nil)
    ∷ []

imported : import_all (none ∷ some package_node ∷ []) ≡ some imports
unfolding import_all package_entries package_entry
imported = refl

names_given : packages_have_names (none ∷ some package_node ∷ []) ≡ true
unfolding packages_have_names have_names has_own_name
names_given = refl

lookup-setup_current_scope_example :
    (scope : Attributes) × (setup_current_scope (none ∷ some package_node ∷ []) top empty
      ≡ some scope)
    × ((k : Text)
        → lookup scope k
          ≡ or_else
              (last_declaration k (children top))
              (or_else (last_imported k (none ∷ some package_node ∷ [])) (lookup empty k)))
lookup-setup_current_scope_example =
    lookup-setup_current_scope (none ∷ some package_node ∷ []) top empty names_given

-- The parameter of the module hides that of the package, which is found with the package in front.
own_first : last_declaration (codes "\\A") (children top) ≡ some own
unfolding last_declaration declaration
own_first = refl

package_in_front :
    last_imported (codes "\\p::A") (some package_node ∷ [])
    ≡ some (named_node ast_parameter (codes "\\A") nil)
unfolding last_imported last_import imported_declaration declaration last_item
package_in_front = refl

-- The members of an embedded struct are below its name.
abbrev inner : AstNode
inner =
    named_node ast_struct (codes "s") (of_list (named_node ast_struct_item (codes "b") nil ∷ []))

members :
    add_members_to_scope_local (named_node ast_struct [] (of_list (inner ∷ []))) (codes "w")
    ≡ some ((codes "w.s", inner) ∷ (codes "w.s.b", named_node ast_struct_item (codes "b") nil) ∷ [])
unfolding add_members_to_scope_local
members = refl
