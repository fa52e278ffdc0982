-- ===== src/Hierarchy/TypeParameters.antt =====
-- src/frontends/systemverilog/uhdm_ast.cc, `process_type_parameter`: a type parameter with the type that is
-- assigned to it.
use synlig.Common.{
  ℕ, suc, Bool, true, false, ◌&&◌, List, [], ◌∷◌, ◌++◌, Option, none, some, if◌then◌else◌,
}
use synlig.Common.Decimal.{to_string}
use synlig.Common.Text.{Text, codes, text_eq}
use synlig.Ast.{AstNode, AstNodeType, Nodes, node, nil, cons, type, str, ◌++ₙ◌, ast_typedef}
use synlig.Attributes.{set_attribute}
use synlig.Hierarchy.{is_unnamed, is_wire}
use synlig.Hierarchy.Typedefs.{is_enum_type, set_str}

abbrev pub is_typedef : AstNodeType → Bool
is_typedef ast_typedef = true
is_typedef _ = false

-- The name in the attribute of the parameter, its children and the new name of an enum, with the numbers
-- of the next anonymous type and of the next enum.
pub record TypeParameter : Type 0 where
  pub attribute_name : Text
  pub assigned : Nodes
  pub renamed_enum : Text
  pub anonymous_type_id : ℕ
  pub enum_id : ℕ

-- The first typedef of the name.
unfoldable pub typedefs_of : Text → Nodes → Nodes
typedefs_of name nil = nil
typedefs_of name (cons n ns) =
    let rest = typedefs_of name ns in
    if text_eq (str n) name && is_typedef (type n) then cons n nil else rest

abbrev pub typedef_in : Text → Option Nodes → Nodes
typedef_in name none = nil
typedef_in name (some ns) = typedefs_of name ns

-- What a typespec adds; `top` is the children of the current top node, if there is one.
unfoldable pub assign_type : Option Nodes → Option AstNode → TypeParameter → TypeParameter
assign_type top none p = p
assign_type top (some n) p =
    let anonymous = record p {
      attribute_name = codes "anonymous_parameter" ++ to_string p.anonymous_type_id;
      anonymous_type_id = suc p.anonymous_type_id;
    } in
    let assigned' = p.assigned ++ₙ cons n (typedef_in (str n) top) in
    let enum' = record p {
      assigned = assigned';
      renamed_enum = str n ++ (codes "$enum" ++ to_string p.enum_id);
      enum_id = suc p.enum_id;
    } in
    if is_wire (type n) && is_unnamed (str n)
    then anonymous
    else if is_enum_type (type n)
    then enum'
    else record p { assigned = assigned' }

unfoldable pub assign_types : Option Nodes → List (Option AstNode) → TypeParameter → TypeParameter
assign_types top [] p = p
assign_types top (n ∷ ns) p = assign_types top ns (assign_type top n p)

unfoldable pub renamed_items : Text → Nodes → Nodes
renamed_items name nil = nil
renamed_items name (cons n ns) = cons (set_str (name ++ (46 ∷ str n)) n) (renamed_items name ns)

module _ (mkconst_str : Text → AstNode) where
  abbrev pub with_enum_type : Text → Nodes → Option Nodes
  with_enum_type name nil = none
  with_enum_type name (cons c cs) =
      some (cons (set_attribute c (codes "\\enum_type") (mkconst_str name)) cs)

  abbrev pub with_children_or_none : AstNode → Option Nodes → Option AstNode
  with_children_or_none n none = none
  with_children_or_none (node t f cs as') (some ms) = some (node t f ms as')

  -- A typedef has the name in an attribute, an enum has it itself and before the names of its values.
  unfoldable pub rename_child : Text → AstNode → Option AstNode
  rename_child name (node t f cs as') =
      let typedef' = with_children_or_none (node t f cs as') (with_enum_type name cs) in
      if is_typedef t
      then typedef'
      else if is_enum_type t
      then some (node t (record f { str = name }) (renamed_items name cs) as')
      else some (node t f cs as')

  abbrev pub cons_or_none : Option AstNode → Option Nodes → Option Nodes
  cons_or_none none rest = none
  cons_or_none (some n) none = none
  cons_or_none (some n) (some ns) = some (cons n ns)

  unfoldable pub rename_children : Text → Nodes → Option Nodes
  rename_children name nil = some nil
  rename_children name (cons n ns) = cons_or_none (rename_child name n) (rename_children name ns)

  abbrev pub finish_type_parameter : TypeParameter → Option Nodes → Option TypeParameter
  finish_type_parameter p none = none
  finish_type_parameter p (some ns) = some (record p { assigned = ns })

  -- None where an assertion fails.
  unfoldable pub process_type_parameter :
      Option Nodes → List (Option AstNode) → ℕ → ℕ → Option TypeParameter
  process_type_parameter top typespecs anonymous_type_id enum_id =
      let p = assign_types top typespecs (record {
        attribute_name = [];
        assigned = nil;
        renamed_enum = [];
        anonymous_type_id = anonymous_type_id;
        enum_id = enum_id;
      }) in
      let renamed = finish_type_parameter p (rename_children p.renamed_enum p.assigned) in
      if is_unnamed p.renamed_enum then some p else renamed
