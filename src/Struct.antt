-- ===== src/Struct.antt =====
-- src/frontends/systemverilog/uhdm_ast.cc, `simplify_struct` and what goes with it: the layout of
-- the members of packed structs and unions.
pub mod Tiling
pub mod Offset
pub mod Removal
pub mod Success
mod Tests
use synlig.Common.{
  ℕ, zero, suc, Bool, true, false, not, ◌&&◌, ◌||◌, List, [], ◌∷◌, ◌++◌, Option, none, some,
  if◌then◌else◌, ◌≡◌, refl,
}
use synlig.Common.Checked.{Checked, gives, fails, ◌>>=◌}
use synlig.Common.Text.{Text}
use synlig.Common.Int.{ℤ, pos, negsuc, ◌+ℤ◌, ◌-ℤ◌, ◌*ℤ◌, ltb_ℤ, eq_ℤ, min_ℤ, max_ℤ}
use synlig.Ast.{
  AstNode, AstNodeType, Attributes, Dimension, Fields, Nodes, node, nil, cons, fields, is_range,
}
use synlig.Ast.{ast_range, ast_struct, ast_union, ast_struct_item}

pub data Error : Type 0 where
  -- `Size must be constant in packed struct/union member`
  size_not_constant : Error
  -- `member of a packed union has … bits, expecting …`
  union_mismatch : Error
  -- `log_assert(node->type == AST_STRUCT_ITEM)`
  not_struct_item : Error
  -- A member was deleted with the ranges, and is read again.
  use_after_free : Error

abbrev pub Result : Type 0 → Type 0
Result A = Checked Error A

-- The kinds of children that the loop over the members tells apart.
pub data Member : Type 0 where
  range struct item other : Member

unfoldable pub member : AstNodeType → Member
member ast_range = range
member ast_struct = struct
member ast_union = struct
member ast_struct_item = item
member _ = other

unfoldable pub is_union : AstNodeType → Bool
is_union ast_union = true
is_union _ = false

-- `range_width_local`. A range has its bounds in its members.
unfoldable pub range_width_local : AstNode → Result ℤ
range_width_local (node t f cs as') =
    if f.range_valid
    then gives (f.range_left -ℤ f.range_right +ℤ pos 1)
    else fails size_not_constant

-- The width of a member that is no struct, and the children that it keeps.
unfoldable pub item_width : Fields → Nodes → Result (ℤ × Nodes)
item_width f cs = elim cs [
  | nil ↦
      if ltb_ℤ f.range_left (pos 0)
      then gives (pos 1, nil)
      else gives (f.range_left -ℤ f.range_right +ℤ pos 1, nil)
  | cons c ds ↦
      if is_range c
      then (range_width_local c >>= λ w. gives (w, nil))
      else if ltb_ℤ f.range_left (pos 0)
      then gives (pos 1, cons c ds)
      else gives (f.range_left -ℤ f.range_right +ℤ pos 1, cons c ds)
]

abbrev pub count_kept : Nodes → ℕ
count_kept nil = 0
count_kept (cons n ns) = if is_range n then count_kept ns else suc (count_kept ns)

abbrev pub drop_nodes : ℕ → Nodes → Nodes
drop_nodes zero ns = ns
drop_nodes (suc k) nil = nil
drop_nodes (suc k) (cons n ns) = drop_nodes k ns

abbrev pub all_ranges : Nodes → Bool
all_ranges nil = true
all_ranges (cons n ns) = is_range n && all_ranges ns

-- What stands between the iterator that `std::remove_if` returns and the end: it moves the kept
-- pointers to the front, and leaves the places behind them as they were.
unfoldable pub removed_tail : Nodes → Nodes
removed_tail cs = drop_nodes (count_kept cs) cs

-- `{low, high - low + 1, range_swapped}` of each range, after `synlig_simplify`, a copy of Yosys'
-- function, which is the parameter `simplify` here.
unfoldable pub range_dimensions : (AstNode → AstNode) → Nodes → List Dimension
range_dimensions simplify nil = []
range_dimensions simplify (cons n ns) =
    let f = fields (simplify n) in
    let low = min_ℤ f.range_left f.range_right in
    let high = max_ℤ f.range_left f.range_right in
    record {
      range_right = low;
      range_width = high -ℤ low +ℤ pos 1;
      range_swapped = f.range_swapped;
    }
    ∷ range_dimensions simplify ns

-- The dimensions of a struct with its range children. These are deleted, and so is a member that
-- stands where `remove_if` leaves a range.
unfoldable pub struct_dimensions : (AstNode → AstNode) → Fields → Nodes → Result (List Dimension)
struct_dimensions simplify f cs =
    if all_ranges (removed_tail cs)
    then gives (f.dimensions ++ range_dimensions simplify (removed_tail cs))
    else fails use_after_free

-- The width times the widths of all dimensions.
unfoldable pub dimensions_width : ℤ → List Dimension → ℤ
dimensions_width w [] = w
dimensions_width w (d ∷ ds) = dimensions_width (w *ℤ d.range_width) ds

-- The variables of the loop over the members, with the members that it has passed, and the names
-- whose node in scope now has a struct for its wire type, the last one first.
pub record Layout : Type 0 where
  pub members : Nodes
  pub offset : ℤ
  pub packed_width : ℤ
  pub links : List Text

-- The range of a member of the given width, at an offset.
abbrev pub placed : Fields → ℤ → ℤ → Fields
placed f at width = record f {
  range_right = at;
  range_left = at +ℤ width -ℤ pos 1;
  range_valid = true;
}

-- The end of a round: the checks and the steps on `packed_width` and `offset`.
unfoldable pub add_member : Bool → AstNode → ℤ → List Text → Layout → Result Layout
add_member in_union m width links l =
    if in_union
    then (if eq_ℤ l.packed_width (negsuc 0)
        then gives (record {
          members = cons m l.members;
          offset = l.offset;
          packed_width = width;
          links = links;
        })
        else if eq_ℤ l.packed_width width
        then gives (record {
          members = cons m l.members;
          offset = l.offset;
          packed_width = l.packed_width;
          links = links;
        })
        else fails union_mismatch)
    else gives (record {
      members = cons m l.members;
      offset = l.offset +ℤ width;
      packed_width = l.packed_width;
      links = links;
    })

-- The value that `simplify_struct` returns.
abbrev pub result_width : Bool → Layout → ℤ
result_width in_union l = if in_union then l.packed_width else l.offset

-- `linked` tells of a name that its node in scope gets the struct for its wire type: the name is not
-- empty, the parent is neither a typedef nor a struct, and `current_scope` has the name.
module _ (simplify : AstNode → AstNode) (linked : Text → Bool) where
  unfoldable pub add_link : Text → List Text → List Text
  add_link name names = if linked name then name ∷ names else names

  -- One round at a member with children `cs`, behind which the layout is `l`. `inner` is the call
  -- on the members of an embedded struct or union, at an offset.
  abbrev pub layout_round :
      Member
      → Bool
      → ℤ
      → AstNodeType
      → Fields
      → Nodes
      → Attributes
      → (ℤ → Result Layout)
      → Layout
      → Result Layout
  layout_round range in_union base t f cs as' inner l = gives l
  layout_round struct in_union base t f cs as' inner l = struct_dimensions simplify f cs >>= λ dims.
      inner (base +ℤ l.offset) >>= λ i.
      let width = dimensions_width (result_width (is_union t) i) dims in
      let f' = placed (record f { dimensions = dims }) (base +ℤ l.offset) width in
      add_member in_union (node t f' i.members as') width (add_link f.str (i.links ++ l.links)) l
  layout_round item in_union base t f cs as' inner l = item_width f cs >>= λ (width, cs').
      let at = if in_union then base else base +ℤ l.offset in
      add_member in_union (node t (placed f at width) cs' as') width l.links l
  layout_round other in_union base t f cs as' inner l = fails not_struct_item

  -- The loop over the members, from the last to the first.
  unfoldable pub layout_members : Bool → ℤ → Nodes → Result Layout
  layout_members in_union base nil =
      gives (record { members = nil; offset = pos 0; packed_width = negsuc 0; links = [] })
  layout_members in_union base (cons (node t f cs as') rest) =
      layout_members in_union base rest >>= λ l.
      layout_round (member t) in_union base t f cs as' (λ at. layout_members (is_union t) at cs) l

  -- The struct with its members laid out, its width, and the names linked to structs.
  unfoldable pub simplify_struct : AstNode → ℤ → Result (AstNode × ℤ × List Text)
  unfolding add_link
  simplify_struct (node t f cs as') base = struct_dimensions simplify f cs >>= λ dims.
      layout_members (is_union t) base cs >>= λ l. gives (
        node t (record f { dimensions = dims }) l.members as',
        result_width (is_union t) l,
        add_link f.str l.links,
      )

-- `get_max_offset_struct`: it goes down the first members to the first with a range.
unfoldable mutual
  pub max_offset : AstNode → Option ℤ
  max_offset (node t f cs as') =
      if ltb_ℤ f.range_left (pos 0) then first_max_offset cs else some f.range_left

  pub first_max_offset : Nodes → Option ℤ
  first_max_offset nil = none
  first_max_offset (cons n ns) = max_offset n

unfoldable pub get_max_offset_struct : AstNode → Option ℤ
get_max_offset_struct (node t f cs as') = elim (member t) [
  | struct ↦ max_offset (node t f cs as')
  | _ ↦ none
]
