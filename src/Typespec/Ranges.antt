-- ===== src/Typespec/Ranges.antt =====
-- src/frontends/systemverilog/uhdm_ast.cc, `process_logic_typespec`, `process_bit_typespec` and
-- `process_array_typespec`: wires with the ranges of a typespec and of its elements.
use synlig.Common.{Bool, true, false, List, [], ◌∷◌, ◌++◌, Option, none, some}
use synlig.Common.Int.{pos}
use synlig.Common.Text.{Text, codes}
use synlig.Ast.{AstNode, Nodes, node, nil, cons, str, ast_wire, ast_struct}
use synlig.Loop.{make_ast_node}
use synlig.Names.{after_separator}
use synlig.Typespec.{set_signed}
use synlig.Typespec.Packed.{with_name}
use synlig.Wire.{make_range}
use synlig.Wire.Convert.{add_multirange_wire}
use synlig.Yosys.{Yosys}

abbrev pub behind_package : Option Text → Text → Text
behind_package none s = s
behind_package (some pkg) [] = []
behind_package (some pkg) (c ∷ s) = pkg ++ (codes "::" ++ s)

-- A name without a package gets that of the instance, where it is a package.
abbrev pub with_package : Option Text → Text → Text
with_package pkg s = elim (after_separator s) [ none ↦ behind_package pkg s | some t ↦ s ]

abbrev pub set_logic : AstNode → AstNode
set_logic (node t f cs as') = node t (record f { is_logic = true }) cs as'

abbrev pub nodes_or : AstNode → List AstNode → List AstNode
nodes_or n [] = n ∷ []
nodes_or n (m ∷ ns) = m ∷ ns

-- Only a struct takes the place of the wire, under the name of the wire.
unfoldable pub with_struct : Option AstNode → AstNode → AstNode
with_struct (some (node ast_struct f cs as')) w = with_name (str w) (node ast_struct f cs as')
with_struct elem w = w

-- What `visit_range` passes on becomes a child.
abbrev pub visited_range : Option AstNode → Nodes
visited_range none = nil
visited_range (some range) = cons range nil

module _ (yosys : Yosys) (obj_name : Text) where
  -- `pkg` is the name of the instance if it is a package, and `elem_ranges` are the ranges of the elements.
  unfoldable pub process_logic_typespec : Option Text → List AstNode → List AstNode → Bool → AstNode
  process_logic_typespec pkg ranges elem_ranges is_signed =
      let w = set_logic (make_ast_node yosys obj_name ast_wire nil) in
      set_signed is_signed (
        add_multirange_wire yosys (with_name (with_package pkg (str w)) w)
          (nodes_or (make_range yosys (pos 0) (pos 0) false) (ranges ++ elem_ranges)) [])

  unfoldable pub process_bit_typespec : Option AstNode → Bool → AstNode
  process_bit_typespec range is_signed =
      set_signed is_signed (make_ast_node yosys obj_name ast_wire (visited_range range))

  unfoldable pub process_array_typespec : List AstNode → List AstNode → Option AstNode → AstNode
  process_array_typespec ranges elem_ranges elem =
      add_multirange_wire yosys (with_struct elem (make_ast_node yosys obj_name ast_wire nil))
        elem_ranges ranges
