-- ===== src/Typespec/Members.antt =====
-- src/frontends/systemverilog/uhdm_ast.cc, `process_struct_typespec` and `process_union_typespec`: the
-- members of a struct or a union, of which one with an enum gets the range of the enum.
use synlig.Common.{Bool, true, false, List, [], ◌∷◌, Option, none, some, if◌then◌else◌}
use synlig.Common.Int.{pos}
use synlig.Common.Text.{Text}
use synlig.Ast
use synlig.Ast.{
  AstNode, AstNodeType, Nodes, node, nil, cons, type, children, ast_item, ast_struct, ast_union,
}
use synlig.Loop.{make_ast_node}
use synlig.Wire.{make_range}
use synlig.Yosys.{Yosys}

abbrev pub is_enum_node : AstNode → Bool
is_enum_node (node (ast_item Ast.enum) f cs as') = true
is_enum_node _ = false

module _ (yosys : Yosys) where
  -- The range behind the value of the first item, or that of one bit.
  unfoldable pub item_range : Nodes → Option AstNode
  item_range nil = none
  item_range (cons value (cons range nil)) = some range
  item_range cs = some (make_range yosys (pos 0) (pos 0) false)

  unfoldable pub enum_range : Nodes → Option AstNode
  enum_range nil = none
  enum_range (cons item items) = item_range (children item)

  abbrev pub with_only : AstNode → Option AstNode → Option AstNode
  with_only n none = none
  with_only (node t f cs as') (some range) = some (node t f (cons range nil) as')

  abbrev pub only_enum : AstNode → AstNode → Nodes → Option AstNode
  only_enum n enum' nil = with_only n (enum_range (children enum'))
  only_enum n enum' (cons c cs) = none

  -- None where an assertion fails.
  unfoldable pub typespec_member : AstNode → Option AstNode
  typespec_member (node t f nil as') = some (node t f nil as')
  typespec_member (node t f (cons c cs) as') =
      let ranged = only_enum (node t f (cons c cs) as') c cs in
      if is_enum_node c then ranged else some (node t f (cons c cs) as')

  abbrev pub push_member : Option AstNode → Option Nodes → Option Nodes
  push_member none rest = none
  push_member (some n) none = none
  push_member (some n) (some ns) = some (cons n ns)

  unfoldable pub typespec_members : List AstNode → Option Nodes
  typespec_members [] = some nil
  typespec_members (n ∷ ns) = push_member (typespec_member n) (typespec_members ns)

  module _ (obj_name : Text) where
    abbrev pub members_node : AstNodeType → Option Nodes → Option AstNode
    members_node t none = none
    members_node t (some ns) = some (make_ast_node yosys obj_name t ns)

    unfoldable pub process_struct_typespec : List AstNode → Option AstNode
    process_struct_typespec members = members_node ast_struct (typespec_members members)

    unfoldable pub process_union_typespec : List AstNode → Option AstNode
    process_union_typespec members = members_node ast_union (typespec_members members)
