-- ===== src/Dot.antt =====
-- src/frontends/systemverilog/uhdm_ast.cc, `search_struct_access_with_dots` and `convert_dot`: an access
-- to a member of a struct, through dots and indices, becomes a range of bits of the wire.
pub mod Position
mod Tests
use synlig.Common.{
  ℕ, zero, suc, ◌/◌, Bool, true, false, not, ◌&&◌, ◌||◌, List, [], ◌∷◌, ◌++◌, Option, none, some,
  ◌==◌, ltb, leb, length, take, if◌then◌else◌,
}
use synlig.Common.Int.{ℤ, pos, ◌+ℤ◌, ◌-ℤ◌, ltb_ℤ, min_ℤ, max_ℤ}
use synlig.Common.Text.{Text, codes, text_eq}
use synlig.Common.Word.{add32, sub32, mul32, to_u32}
use synlig.Ast.{
  AstNode, AstNodeType, Dimension, Nodes, node, nil, cons, empty, new_fields, fields, children,
  type, str, ast_range, ast_dot, ast_struct, ast_union, ast_add, ast_sub,
}
use synlig.Attributes.{get_attribute}
use synlig.Operation.Pattern.{is_dot}
use synlig.Select.{Selection, binary, constant, traverse_dimensions}
use synlig.Wire.{to_int}
use synlig.Yosys.{Yosys}

-- A member with the ranges that select from it.
abbrev pub Select : Type 0
Select = AstNode × List AstNode

abbrev pub push_range : AstNode → Option (List AstNode) → Option (List AstNode)
push_range r none = none
push_range r (some rs) = some (r ∷ rs)

-- The ranges among the children, which are ranges and dots; else an assertion fails.
unfoldable pub select_ranges : Nodes → Option (List AstNode)
select_ranges nil = some []
select_ranges (cons (node ast_range f cs as') ns) =
    push_range (node ast_range f cs as') (select_ranges ns)
select_ranges (cons (node ast_dot f cs as') ns) = select_ranges ns
select_ranges (cons n ns) = none

-- The name without a backslash in front.
unfoldable pub search_name : Text → Text
search_name [] = []
search_name (c ∷ s) = if c == 92 then s else c ∷ s

unfoldable pub find_child : Text → Nodes → Option AstNode
find_child name nil = none
find_child name (cons n ns) =
    let rest = find_child name ns in if text_eq (str n) name then some n else rest

abbrev pub push_select :
    Option AstNode → Option (List AstNode) → Option (List Select) → Option (List Select)
push_select none ranges rest = none
push_select (some m) none rest = none
push_select (some m) (some rs) none = none
push_select (some m) (some rs) (some selects) = some ((m, rs) ∷ selects)

abbrev pub or_struct : Option AstNode → AstNode → AstNode
or_struct none n = n
or_struct (some m) n = m

unfoldable mutual
  -- The selects of a dot and of the dots below it, of which each has one at most.
  pub search_dot : AstNode → AstNode → Option (List Select)
  search_dot (node t f cs as') current_struct =
      let found = find_child (search_name f.str) (children current_struct) in
      push_select found (select_ranges cs) (search_sub cs (or_struct found current_struct))

  pub search_sub : Nodes → AstNode → Option (List Select)
  search_sub nil current_struct = some []
  search_sub (cons n ns) current_struct =
      let here = search_dot n current_struct in
      let rest = search_sub ns current_struct in if is_dot (type n) then here else rest

-- The wire counts as the first member.
unfoldable pub search_struct_access_with_dots :
    AstNode → AstNode → AstNode → AstNode → Option (List Select)
search_struct_access_with_dots current_node wire_node current_struct dot =
    push_select (some wire_node) (select_ranges (children current_node))
      (search_dot dot current_struct)

unfoldable pub reversed_onto : List Dimension → List Dimension → List Dimension
reversed_onto [] acc = acc
reversed_onto (d ∷ ds) acc = reversed_onto ds (d ∷ acc)

unfoldable pub unswapped : List Dimension → List Dimension
unswapped [] = []
unswapped (d ∷ ds) = record d { range_swapped = false } ∷ unswapped ds

abbrev pub without_last : List Dimension → List Dimension
without_last [] = []
without_last (d ∷ []) = []
without_last (d ∷ e ∷ ds) = d ∷ without_last (e ∷ ds)

-- The wire stores its dimensions reversed, mostly with one for the substructure.
unfoldable pub wire_dimensions : List Dimension → ℕ → List Dimension
wire_dimensions dimensions ranges =
    let ds = reversed_onto dimensions [] in
    unswapped (if ltb ranges (length ds) then without_last ds else ds)

-- The bits of an enumeration as a dimension.
unfoldable pub enum_dimension : AstNode → Dimension
enum_dimension m =
    let high = to_u32 (max_ℤ (fields m).range_right (fields m).range_left) in
    let low = to_u32 (min_ℤ (fields m).range_right (fields m).range_left) in
    record {
      range_right = to_int low;
      range_width = to_int (add32 (sub32 high low) 1);
      range_swapped = (fields m).range_swapped;
    }

unfoldable pub enum_dimensions : AstNode → List Dimension → ℕ → Option (List Dimension)
enum_dimensions m dimensions ranges =
    if (ranges == 1) && (length dimensions == 0)
    then some (enum_dimension m ∷ [])
    else if ltb 1 (length dimensions)
    then some (reversed_onto dimensions [])
    else none

abbrev pub is_enum : AstNode → Bool
is_enum m = elim (get_attribute m (codes "$synlig$enum_struct_item")) [
  | none ↦ false
  | some v ↦ true
]

-- The dimensions of a member that a select has to do with; `none` is a failed assertion.
unfoldable pub member_dimensions : Bool → Bool → AstNode → ℕ → Option (List Dimension)
member_dimensions is_first last_access m ranges =
    let own = (fields m).dimensions in
    let dimensions = if is_first then wire_dimensions own ranges else own in
    if not (last_access || (ranges == length dimensions))
    then none
    else if is_enum m || (ltb (length dimensions) ranges && (ranges == 1))
    then if last_access then enum_dimensions m dimensions ranges else none
    else some dimensions

unfoldable pub dimensions_product : List Dimension → ℕ
dimensions_product [] = 1
dimensions_product (d ∷ ds) = mul32 (dimensions_product ds) (to_u32 d.range_width)

unfoldable pub member_offset : AstNode → ℕ
member_offset m = to_u32 (fields m).range_right

unfoldable pub member_width : AstNode → ℕ
member_width m = to_u32 (((fields m).range_left -ℤ (fields m).range_right) +ℤ pos 1)

unfoldable pub has_order : AstNode → Bool
has_order m =
    not (ltb_ℤ (fields m).range_left (fields m).range_right) && not (fields m).range_swapped

unfoldable pub substructure_size : ℕ → ℕ → Option ℕ
substructure_size width zero = none
substructure_size width (suc n) = some (width / suc n)

module _ (yosys : Yosys) where
  unfoldable pub with_substructure :
      Option ℕ → List Dimension → List AstNode → Bool → Option Selection
  with_substructure none dimensions ranges last_access = none
  with_substructure (some size) dimensions ranges last_access =
      traverse_dimensions yosys dimensions ranges size last_access

  unfoldable pub dimension_select :
      Option (List Dimension) → AstNode → List AstNode → Bool → Option Selection
  dimension_select none m ranges last_access = none
  dimension_select (some dimensions) m ranges last_access =
      let accessed = take (length ranges) dimensions in
      if leb (length ranges) (length dimensions) && has_order m
      then with_substructure (substructure_size (member_width m) (dimensions_product accessed))
          accessed ranges last_access
      else none

  -- The offset within a member and the width of a select.
  unfoldable pub member_select : Bool → Bool → Select → Option Selection
  member_select is_first last_access (m, ranges) =
      dimension_select (member_dimensions is_first last_access m (length ranges)) m ranges
        last_access

  -- The next member lies not before the last one, which an assertion checks.
  unfoldable pub advance : ℕ → ℕ → AstNode → Option Selection → Option Selection
  advance previous offset right none = none
  advance previous offset right (some (offset_node, width_node)) =
      if ltb offset previous
      then none
      else some (
        binary ast_add (binary ast_add right offset_node) (constant yosys (sub32 offset previous)),
        width_node,
      )

  abbrev pub on_selection : {A : Type 0} → Option Selection → (AstNode → Option A) → Option A
  on_selection none next = none
  on_selection (some (offset_node, width_node)) next = next offset_node

  -- The loop over the selects, of which there is one at least.
  unfoldable pub select_members : Bool → ℕ → AstNode → List Select → Option Selection
  select_members is_first previous right [] = none
  select_members is_first previous right ((m, rs) ∷ []) =
      advance previous (member_offset m) right (member_select is_first true (m, rs))
  select_members is_first previous right ((m, rs) ∷ s ∷ selects) =
      on_selection (advance previous (member_offset m) right (member_select is_first false (m, rs)))
        (λ next. select_members false (member_offset m) next (s ∷ selects))

  unfoldable pub dot_range : Option Selection → Option AstNode
  dot_range none = none
  dot_range (some (right, width)) =
      some (binary ast_range (binary ast_sub (binary ast_add right width) (constant yosys 1)) right)

  unfoldable pub on_selects : Option (List Select) → Option AstNode
  on_selects none = none
  on_selects (some selects) = dot_range (select_members true 0 (constant yosys 0) selects)

  -- `wiretype_of` is what the attribute `wiretype` of a wire is linked to, and `simplified` is what
  -- `synlig_simplify` makes of a node.
  unfoldable pub struct_of : (AstNode → Option AstNode) → AstNode → Option AstNode
  struct_of wiretype_of (node ast_struct f cs as') = some (node ast_struct f cs as')
  struct_of wiretype_of (node ast_union f cs as') = some (node ast_union f cs as')
  struct_of wiretype_of wire = wiretype_of wire

  unfoldable pub convert_in :
      (AstNode → AstNode) → AstNode → AstNode → AstNode → Option AstNode → Option AstNode
  convert_in simplified wire n dot none = none
  convert_in simplified wire n dot (some struct_node) =
      on_selects (search_struct_access_with_dots n (simplified wire) (simplified struct_node) dot)

  unfoldable pub convert_dot :
      (AstNode → AstNode)
      → (AstNode → Option AstNode)
      → AstNode
      → AstNode
      → AstNode
      → Option AstNode
  convert_dot simplified wiretype_of wire n dot =
      convert_in simplified wire n dot (struct_of wiretype_of wire)
