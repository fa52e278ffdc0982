-- ===== src/Typespec/Packed.antt =====
-- src/frontends/systemverilog/uhdm_ast.cc, `process_packed_array_typespec`: a wire with packed ranges, that
-- refers to the type of its elements by name. A copy of a node is the node.
use synlig.Common.{true, List, [], ◌∷◌, Option, none, some}
use synlig.Common.Text.{Text}
use synlig.Ast
use synlig.Ast.{
  AstNode, Nodes, Attributes, node, nil, cons, empty, new_fields, str, ◌++ₙ◌, ast_wire, ast_struct,
  ast_item,
}
use synlig.Attributes.{lookup, insert}
use synlig.Loop.{make_ast_node}
use synlig.Wire.Convert.{add_multirange_wire}
use synlig.Yosys.{Yosys}

abbrev pub or_else_name : Text → Text → Text
or_else_name [] other = other
or_else_name (c ∷ s) other = c ∷ s

-- The wire refers to the type of the name.
abbrev pub push_wiretype : Text → AstNode → AstNode
push_wiretype name (node t f cs as') =
    node t (record f { is_custom_type = true })
      (cs ++ₙ cons (node (ast_item Ast.wiretype) (record new_fields { str = name }) nil empty) nil)
      as'

abbrev pub with_name : Text → AstNode → AstNode
with_name name (node t f cs as') = node t (record f { str = name }) cs as'

-- A wire with the types of parameters by their name.
pub record WithTypes : Type 0 where
  pub wire : AstNode
  pub param_types : Attributes

-- The first type of a name is kept.
abbrev pub keep_type : AstNode → Option AstNode → Attributes → Attributes
keep_type elem none types = insert types (str elem) elem
keep_type elem (some known) types = types

abbrev pub named_elem : Text → AstNode → WithTypes → WithTypes
named_elem [] elem w = w
named_elem (c ∷ s) elem w = record {
  wire = push_wiretype (c ∷ s) w.wire;
  param_types = keep_type elem (lookup w.param_types (c ∷ s)) w.param_types;
}

-- `elem` is the node of `vpiElemTypespec`: a struct takes the place of the wire.
unfoldable pub with_elem : Option AstNode → WithTypes → WithTypes
with_elem none w = w
with_elem (some (node ast_struct f cs as')) w = record w {
  wire = with_name (or_else_name (str w.wire) f.str) (node ast_struct f cs as');
}
with_elem (some (node (ast_item Ast.enum) f cs as')) w = record w {
  wire = with_name (or_else_name (str w.wire) f.str) (push_wiretype f.str w.wire);
}
with_elem (some (node t f cs as')) w = named_elem f.str (node t f cs as') w

module _ (yosys : Yosys) (obj_name : Text) where
  unfoldable pub process_packed_array_typespec :
      List AstNode → Option AstNode → Attributes → WithTypes
  process_packed_array_typespec packed elem param_types =
      let w =
        with_elem elem (record {
          wire = make_ast_node yosys obj_name ast_wire nil;
          param_types = param_types;
        }) in
      record w { wire = add_multirange_wire yosys w.wire packed [] }
