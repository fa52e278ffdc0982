-- ===== src/Scope/Shadowing.antt =====
-- src/frontends/systemverilog/uhdm_ast.cc, `setup_current_scope`: which declaration a name finds.
use synlig.Common.{
  Bool, true, false, ◌&&◌, and_true_left, and_true_right, List, [], ◌∷◌, ◌++◌, Option, none, some,
  if◌then◌else◌, ◌≡◌, refl, sym, ap, ◌∙◌,
}
use mathlib.Core.Path.{ap₂}
use synlig.Common.Text.{Text, codes, text_eq}
use synlig.Ast
use synlig.Ast.{
  AstNode, Attributes, Nodes, node, nil, cons, str, children, ast_typedef, ast_parameter,
  ast_localparam, ast_item,
}
use synlig.Attributes.{lookup, insert, lookup-insert}
use synlig.Scope.{
  Entry, insert_all, setup_current_scope, import_all, top_entries, top_entry, with_imports,
  imported, package_entry, package_entries, append_entries, named_entries,
}

abbrev pub or_else : Option AstNode → Option AstNode → Option AstNode
or_else none rest = rest
or_else (some n) rest = some n

-- The last declaration of the name.
abbrev pub last_named : Text → List Entry → Option AstNode
last_named k [] = none
last_named k ((name, o) ∷ entries) =
    or_else (last_named k entries) (if text_eq name k then some o else none)

or_else_cases :
    (o : Option AstNode) (b : Bool) (n : AstNode) (rest : Option AstNode)
    → or_else o (if b then some n else rest) ≡ or_else (or_else o (if b then some n else none)) rest
or_else_cases none true n rest = refl
or_else_cases none false n rest = refl
or_else_cases (some m) b n rest = refl

lookup-insert_all :
    (entries : List Entry) (scope : Attributes) (k : Text)
    → lookup (insert_all entries scope) k ≡ or_else (last_named k entries) (lookup scope k)
unfolding insert_all
lookup-insert_all [] scope k = refl
lookup-insert_all ((name, o) ∷ entries) scope k =
    lookup-insert_all entries (insert scope name o) k
    ∙ ap (or_else (last_named k entries)) (lookup-insert scope name k o)
    ∙ or_else_cases (last_named k entries) (text_eq name k) o (lookup scope k)

or_else_assoc : (a b c : Option AstNode) → or_else (or_else a b) c ≡ or_else a (or_else b c)
or_else_assoc none b c = refl
or_else_assoc (some n) b c = refl

or_else-none : (o : Option AstNode) → or_else o none ≡ o
or_else-none none = refl
or_else-none (some n) = refl

last_named-append :
    (k : Text) (es es' : List Entry)
    → last_named k (es ++ es') ≡ or_else (last_named k es') (last_named k es)
last_named-append k [] es' = sym (or_else-none (last_named k es'))
last_named-append k ((name, o) ∷ es) es' =
    ap (λ x. or_else x (if text_eq name k then some o else none)) (last_named-append k es es')
    ∙ or_else_assoc (last_named k es') (last_named k es) _

-- What a name finds in the source, without the lists of entries: the node, if it has the name.
abbrev pub if_named : Text → Text → AstNode → Option AstNode
if_named k name n = if text_eq name k then some n else none

-- The last item of an enum with the name.
unfoldable pub last_item : Text → Nodes → Option AstNode
last_item k nil = none
last_item k (cons c cs) = or_else (last_item k cs) (if_named k (str c) c)

-- A typedef and a parameter have their name, an enum has also those of its items.
unfoldable pub declaration : Text → AstNode → Option AstNode
declaration k (node ast_typedef f cs as') = if_named k f.str (node ast_typedef f cs as')
declaration k (node ast_parameter f cs as') = if_named k f.str (node ast_parameter f cs as')
declaration k (node ast_localparam f cs as') = if_named k f.str (node ast_localparam f cs as')
declaration k (node (ast_item Ast.enum) f cs as') =
    or_else (last_item k cs) (if_named k f.str (node (ast_item Ast.enum) f cs as'))
declaration k _ = none

-- The last declaration in a module.
unfoldable pub last_declaration : Text → Nodes → Option AstNode
last_declaration k nil = none
last_declaration k (cons o os) = or_else (last_declaration k os) (declaration k o)

-- `p::x` for a name `\x` of the package `p`.
abbrev pub qualified : Text → Text → Text
qualified package_name [] = []
qualified package_name (c ∷ s) = package_name ++ (codes "::" ++ s)

abbrev pub import_named : Text → Text → Text → AstNode → Option AstNode
import_named k package_name name n =
    or_else (if_named k name n) (if_named k (qualified package_name name) n)

-- A declaration of a package has a second name, which is that of the package in front of its own; enums
-- and their items have none.
unfoldable pub imported_declaration : Text → Text → AstNode → Option AstNode
imported_declaration k p (node ast_typedef f cs as') =
    import_named k p f.str (node ast_typedef f cs as')
imported_declaration k p (node ast_parameter f cs as') =
    import_named k p f.str (node ast_parameter f cs as')
imported_declaration k p (node ast_localparam f cs as') =
    import_named k p f.str (node ast_localparam f cs as')
imported_declaration k p n = declaration k n

unfoldable pub last_import : Text → Text → Nodes → Option AstNode
last_import k p nil = none
last_import k p (cons o os) = or_else (last_import k p os) (imported_declaration k p o)

-- The last declaration in a package.
unfoldable pub last_imported : Text → List (Option AstNode) → Option AstNode
last_imported k [] = none
last_imported k (none ∷ tops) = last_imported k tops
last_imported k (some (node (ast_item Ast.package_scope) f cs as') ∷ tops) =
    or_else (last_imported k tops) (last_import k f.str cs)
last_imported k (some n ∷ tops) = last_imported k tops

abbrev pub is_nonempty : Text → Bool
is_nonempty [] = false
is_nonempty (c ∷ s) = true

-- A typedef or a parameter has a name.
unfoldable pub has_own_name : AstNode → Bool
has_own_name (node ast_typedef f cs as') = is_nonempty f.str
has_own_name (node ast_parameter f cs as') = is_nonempty f.str
has_own_name (node ast_localparam f cs as') = is_nonempty f.str
has_own_name _ = true

unfoldable pub have_names : Nodes → Bool
have_names nil = true
have_names (cons o os) = has_own_name o && have_names os

unfoldable pub packages_have_names : List (Option AstNode) → Bool
packages_have_names [] = true
packages_have_names (none ∷ tops) = packages_have_names tops
packages_have_names (some (node (ast_item Ast.package_scope) f cs as') ∷ tops) =
    have_names cs && packages_have_names tops
packages_have_names (some n ∷ tops) = packages_have_names tops

last_named-named_entries :
    (k : Text) (cs : Nodes) → last_named k (named_entries cs) ≡ last_item k cs
unfolding last_item
last_named-named_entries k nil = refl
last_named-named_entries k (cons c cs) =
    ap (λ o. or_else o (if_named k (str c) c)) (last_named-named_entries k cs)

last_named-top_entry : (k : Text) (o : AstNode) → last_named k (top_entry o) ≡ declaration k o
unfolding top_entry declaration
last_named-top_entry k (node ast_typedef f cs as') = refl
last_named-top_entry k (node ast_parameter f cs as') = refl
last_named-top_entry k (node ast_localparam f cs as') = refl
last_named-top_entry k (node (ast_item Ast.enum) f cs as') =
    ap (λ o. or_else o (if_named k f.str (node (ast_item Ast.enum) f cs as')))
      (last_named-named_entries k cs)
last_named-top_entry k (node _ f cs as') = refl

last_named-top_entries :
    (k : Text) (os : Nodes) → last_named k (top_entries os) ≡ last_declaration k os
unfolding top_entries last_declaration
last_named-top_entries k nil = refl
last_named-top_entries k (cons o os) =
    last_named-append k (top_entry o) (top_entries os)
    ∙ ap₂ or_else (last_named-top_entries k os) (last_named-top_entry k o)

-- The entries are made, and a name finds in them what is given.
abbrev pub Finds : Option (List Entry) → (Text → Option AstNode) → Type 0
Finds entries found =
    (es : List Entry) × (entries ≡ some es) × ((k : Text) → last_named k es ≡ found k)

imported-Finds :
    (p name : Text) (n : AstNode)
    → is_nonempty name ≡ true
    → Finds (imported p name n) (λ k. import_named k p name n)
imported-Finds p [] n h = cc
imported-Finds p (c ∷ s) n h = (_, refl, λ k. refl)

package_entry-Finds :
    (p : Text) (o : AstNode)
    → has_own_name o ≡ true
    → Finds (package_entry p o) (λ k. imported_declaration k p o)
unfolding package_entry imported_declaration declaration has_own_name
package_entry-Finds p (node ast_typedef f cs as') h = imported-Finds p f.str _ h
package_entry-Finds p (node ast_parameter f cs as') h = imported-Finds p f.str _ h
package_entry-Finds p (node ast_localparam f cs as') h = imported-Finds p f.str _ h
package_entry-Finds p (node (ast_item Ast.enum) f cs as') h = (
  _,
  refl,
  λ k.
      ap (λ o. or_else o (if_named k f.str (node (ast_item Ast.enum) f cs as')))
        (last_named-named_entries k cs),
)
package_entry-Finds p (node _ f cs as') h = ([], refl, λ k. refl)

append_entries-Finds :
    (a b : Option (List Entry)) (f g : Text → Option AstNode)
    → Finds a f
    → Finds b g
    → Finds (append_entries a b) (λ k. or_else (g k) (f k))
append_entries-Finds a b f g (es, e, h) (es', e', h') =
    (es ++ es', ap₂ append_entries e e', λ k. last_named-append k es es' ∙ ap₂ or_else (h' k) (h k))

package_entries-Finds :
    (p : Text) (os : Nodes)
    → have_names os ≡ true
    → Finds (package_entries p os) (λ k. last_import k p os)
unfolding package_entries last_import have_names
package_entries-Finds p nil h = ([], refl, λ k. refl)
package_entries-Finds p (cons o os) h =
    append_entries-Finds (package_entry p o) (package_entries p os) _ _
      (package_entry-Finds p o (and_true_left (has_own_name o) (have_names os) h))
      (package_entries-Finds p os (and_true_right (has_own_name o) (have_names os) h))

import_all-Finds :
    (tops : List (Option AstNode))
    → packages_have_names tops ≡ true
    → Finds (import_all tops) (λ k. last_imported k tops)
unfolding import_all last_imported packages_have_names
import_all-Finds [] h = ([], refl, λ k. refl)
import_all-Finds (none ∷ tops) h = import_all-Finds tops h
import_all-Finds (some (node (ast_item Ast.package_scope) f cs as') ∷ tops) h =
    append_entries-Finds (package_entries f.str cs) (import_all tops) _ _
      (package_entries-Finds f.str cs (and_true_left (have_names cs) (packages_have_names tops) h))
      (import_all-Finds tops (and_true_right (have_names cs) (packages_have_names tops) h))
import_all-Finds (some (node _ f cs as') ∷ tops) h = import_all-Finds tops h

-- Where each typedef and each parameter of a package has a name, the scope is made. A name finds in it the
-- last declaration in the module, which is a typedef, a parameter, an enum or an item of an enum; else the
-- last one in a package, where typedefs and parameters have also a name with the package in front; else
-- what it found before.
pub lookup-setup_current_scope :
    (top_nodes : List (Option AstNode)) (top : AstNode) (scope : Attributes)
    → packages_have_names top_nodes ≡ true
    → (scope' : Attributes) × (setup_current_scope top_nodes top scope ≡ some scope')
      × ((k : Text)
          → lookup scope' k
            ≡ or_else
                (last_declaration k (children top))
                (or_else (last_imported k top_nodes) (lookup scope k)))
unfolding setup_current_scope
lookup-setup_current_scope top_nodes top scope h =
    let own = top_entries (children top) in
    let (imports, made, found) = import_all-Finds top_nodes h in
    (
      insert_all own (insert_all imports scope),
      ap (with_imports own scope) made,
      λ k.
          lookup-insert_all own (insert_all imports scope) k
          ∙ ap₂ or_else (last_named-top_entries k (children top))
              (lookup-insert_all imports scope k ∙ ap (λ o. or_else o (lookup scope k)) (found k)),
    )
