-- ===== src/Scope.antt =====
-- src/frontends/systemverilog/uhdm_ast.cc, `setup_current_scope`, `add_members_to_scope_local`,
-- `make_packed_struct_local`, `copy_packed_unpacked_attribute` and `clear_current_scope`: the names that
-- `current_scope` of Yosys has when a module is simplified.
mod Tests
pub mod Shadowing
use synlig.Common.{ℕ, Bool, true, false, List, [], ◌∷◌, ◌++◌, Option, none, some, if◌then◌else◌}
use synlig.Common.Int.{ℤ, pos}
use synlig.Common.Text.{Text, codes, text_eq}
use synlig.Ast
use synlig.Ast.{
  AstNode, AstNodeType, Attributes, Nodes, node, nil, cons, empty, new_fields, type, str, fields,
  children, attributes, ◌++ₙ◌, ast_item, ast_typedef, ast_parameter, ast_localparam, ast_struct,
  ast_union, ast_struct_item, ast_wire,
}
use synlig.Attributes.{lookup, insert}
use synlig.Struct.{get_max_offset_struct}
use synlig.Wire.{make_range}
use synlig.Yosys.{Yosys}

abbrev pub Entry : Type 0
Entry = Text × AstNode

-- `current_scope[name] = o`, one after the other.
unfoldable pub insert_all : List Entry → Attributes → Attributes
insert_all [] scope = scope
insert_all ((name, o) ∷ entries) scope = insert_all entries (insert scope name o)

abbrev pub is_declared : AstNodeType → Bool
is_declared ast_typedef = true
is_declared ast_parameter = true
is_declared ast_localparam = true
is_declared _ = false

abbrev pub is_enum : AstNodeType → Bool
is_enum (ast_item Ast.enum) = true
is_enum _ = false

abbrev pub is_package : AstNodeType → Bool
is_package (ast_item Ast.package_scope) = true
is_package _ = false

abbrev pub named_entries : Nodes → List Entry
named_entries nil = []
named_entries (cons c cs) = (str c, c) ∷ named_entries cs

-- The name of a declaration is without its backslash behind that of the package; `substr(1)` of an empty
-- name throws.
abbrev pub imported : Text → Text → AstNode → Option (List Entry)
imported package_name [] o = none
imported package_name (c ∷ s) o = some ((package_name ++ (58 ∷ 58 ∷ s), o) ∷ (c ∷ s, o) ∷ [])

unfoldable pub package_entry : Text → AstNode → Option (List Entry)
package_entry package_name o =
    let import' = imported package_name (str o) o in
    if is_declared (type o)
    then import'
    else if is_enum (type o)
    then some ((str o, o) ∷ named_entries (children o))
    else some []

abbrev pub append_entries : Option (List Entry) → Option (List Entry) → Option (List Entry)
append_entries none rest = none
append_entries (some es) none = none
append_entries (some es) (some rest) = some (es ++ rest)

unfoldable pub package_entries : Text → Nodes → Option (List Entry)
package_entries package_name nil = some []
package_entries package_name (cons o os) =
    append_entries (package_entry package_name o) (package_entries package_name os)

-- `top_nodes`, in the order of its iterator; a null pointer is skipped.
unfoldable pub import_all : List (Option AstNode) → Option (List Entry)
import_all [] = some []
import_all (none ∷ tops) = import_all tops
import_all (some n ∷ tops) =
    let rest = import_all tops in
    let own = append_entries (package_entries (str n) (children n)) rest in
    if is_package (type n) then own else rest

unfoldable pub top_entry : AstNode → List Entry
top_entry o =
    if is_declared (type o)
    then (str o, o) ∷ []
    else if is_enum (type o)
    then (str o, o) ∷ named_entries (children o)
    else []

unfoldable pub top_entries : Nodes → List Entry
top_entries nil = []
top_entries (cons o os) = top_entry o ++ top_entries os

abbrev pub with_imports : List Entry → Attributes → Option (List Entry) → Option Attributes
with_imports own scope none = none
with_imports own scope (some imports) = some (insert_all own (insert_all imports scope))

-- None if `substr` throws.
unfoldable pub setup_current_scope :
    List (Option AstNode) → AstNode → Attributes → Option Attributes
setup_current_scope top_nodes current_top_node scope =
    with_imports (top_entries (children current_top_node)) scope (import_all top_nodes)

-- The module and its declarations are forgotten.
abbrev pub clear_current_scope : Attributes → Attributes
clear_current_scope scope = empty

abbrev pub has_members : AstNodeType → Bool
has_members ast_struct = true
has_members ast_union = true
has_members _ = false

abbrev pub is_member : AstNodeType → Bool
is_member ast_struct_item = true
is_member _ = false

abbrev pub push_entry : Text → AstNode → Option (List Entry) → Option (List Entry)
push_entry name o none = none
push_entry name o (some es) = some ((name, o) ∷ es)

unfoldable mutual
  -- None if an assertion fails.
  pub add_members_to_scope_local : AstNode → Text → Option (List Entry)
  add_members_to_scope_local (node t f cs as') name =
      let members = members_to_scope cs name in if has_members t then members else none

  pub members_to_scope : Nodes → Text → Option (List Entry)
  members_to_scope nil name = some []
  members_to_scope (cons n ns) name =
      let embedded = add_members_to_scope_local n (name ++ (46 ∷ str n)) in
      let rest = members_to_scope ns name in
      push_entry (name ++ (46 ∷ str n)) n
        (append_entries (if is_member (type n) then some [] else embedded) rest)

abbrev pub children_at : Text → AstNode → Nodes
children_at k n = elim (lookup (attributes n) k) [ none ↦ nil | some v ↦ children v ]

abbrev pub push_children : AstNode → Nodes → AstNode
push_children (node t f cs as') more = node t f (cs ++ₙ more) as'

abbrev pub insert_front : AstNode → AstNode → AstNode
insert_front n (node t f cs as') = node t f (cons n cs) as'

module _ (yosys : Yosys) where
  open yosys use {mkconst_int}

  abbrev pub at_or_new : Option AstNode → AstNode
  at_or_new none = mkconst_int 1 false 1
  at_or_new (some v) = v

  -- One of the two attributes.
  unfoldable pub copy_ranges : Text → AstNode → AstNode → AstNode
  copy_ranges k from (node t f cs as') =
      node t f cs (insert as' k (push_children (at_or_new (lookup as' k)) (children_at k from)))

  unfoldable pub copy_packed_unpacked_attribute : AstNode → AstNode → AstNode
  copy_packed_unpacked_attribute from to =
      copy_ranges (codes "$synlig$unpacked_ranges") from
        (copy_ranges (codes "$synlig$packed_ranges") from to)

  abbrev pub with_range : AstNode → AstNode → AstNode
  with_range range (node t f cs as') =
      let k = codes "$synlig$packed_ranges" in
      node t f cs (insert as' k (insert_front range (at_or_new (lookup as' k))))

  unfoldable pub struct_wire : AstNode → Text → ℤ → AstNode
  struct_wire template_node name offset = with_range (make_range yosys offset (pos 0) false) (
      copy_packed_unpacked_attribute template_node (
        node ast_wire
          (record new_fields {
            str = name;
            is_logic = true;
            range_valid = true;
            is_signed = (fields template_node).is_signed;
          })
          nil empty))

  abbrev pub put_in_scope :
      AstNode → Attributes → Text → Option (List Entry) → Option (AstNode × Attributes)
  put_in_scope wnode scope name none = none
  put_in_scope wnode scope name (some members) =
      some (wnode, insert_all members (insert scope name wnode))

  -- The wire and the scope with it and its members; none if an assertion fails.
  unfoldable pub make_packed_struct_local :
      AstNode → Text → Attributes → Option (AstNode × Attributes)
  make_packed_struct_local template_node name scope = elim (get_max_offset_struct template_node) [
    | none ↦ none
    | some offset ↦
        put_in_scope (struct_wire template_node name offset) scope name
          (add_members_to_scope_local template_node name)
  ]
