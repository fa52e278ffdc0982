-- ===== src/Wire.antt =====
-- src/frontends/systemverilog/uhdm_ast.cc: a wire of many ranges becomes a wire of one, and an access
-- to it a range of bits.
pub mod Access
pub mod RowMajor
pub mod Convert
pub mod Width
pub mod Memory
mod Tests
use synlig.Common.{
  ℕ, zero, suc, ◌+◌, ◌-◌, ◌/◌, ◌<◌, Bool, true, false, List, [], ◌∷◌, ◌++◌, Option, none, some,
  ◌==◌, ltb, leb, length, get_elem?, drop, if◌then◌else◌,
}
use synlig.Common.Int.{ℤ, pos, negsuc, ◌+ℤ◌, ◌-ℤ◌}
use synlig.Common.Text.{Text, codes}
use synlig.Common.Word.{add32, sub32, to_u32, u32_mod}
use synlig.Ast.{
  AstNode, AstNodeType, Attributes, Dimension, Fields, Nodes, node, nil, cons, empty, new_fields,
  ast_range, ast_add, ast_sub, ast_mul, ast_struct, ast_wire, children, attributes, integer, type,
  first, size, to_list, fields,
}
use synlig.Attributes.{get_attribute}
use synlig.Select.{binary, constant}
use synlig.Yosys.{Yosys}

-- `get_ranges` asserts that a node has children.
unfoldable pub assert_children {ℓ} : {A : Type ℓ} → Nodes → Option A → Option A
assert_children nil o = none
assert_children (cons n ns) o = o

-- The children of a node that are ranges.
unfoldable pub get_ranges : Nodes → List AstNode
get_ranges nil = []
get_ranges (cons (node ast_range f cs as') ns) = node ast_range f cs as' ∷ get_ranges ns
get_ranges (cons n ns) = get_ranges ns

-- A `uint32_t` as an `int`.
unfoldable pub to_int : ℕ → ℤ
to_int v = if ltb v (u32_mod / 2) then pos v else negsuc (u32_mod - 1 - v)

-- `max(a, b) - min(a, b) + 1` of the two bounds of a range, which must be there.
unfoldable pub range_size : AstNode → Option ℕ
range_size (node t f (cons a (cons b ns)) as') =
    let low = if ltb (integer b) (integer a) then integer b else integer a in
    let high = if ltb (integer a) (integer b) then integer b else integer a in
    some (add32 (sub32 high low) 1)
range_size _ = none

unfoldable pub push_size : ℕ → Option (List ℕ) → Option (List ℕ)
push_size s none = none
push_size s (some sizes) = some (s ∷ sizes)

-- A range divides the size; a division by zero and a range without two bounds give `none`.
unfoldable pub divide_by : ℕ → Option ℕ → (ℕ → Option (List ℕ)) → Option (List ℕ)
divide_by elem_size none next = none
divide_by elem_size (some zero) next = none
divide_by elem_size (some (suc n)) next = push_size (elem_size / suc n) (next (elem_size / suc n))

-- The sizes of the elements that each range selects from, in the order of evaluation.
unfoldable pub element_sizes : ℕ → List AstNode → Option (List ℕ)
element_sizes elem_size [] = some []
element_sizes elem_size (r ∷ rs) =
    divide_by elem_size (range_size r) (λ quotient. element_sizes quotient rs)

-- The low ends of `count` dimensions from `from` on.
unfoldable pub offsets_from : List Dimension → ℕ → ℕ → Option (List ℤ)
offsets_from dimensions from zero = some []
offsets_from dimensions from (suc count) = elim (get_elem? dimensions from) [
  | none ↦ none
  | some d ↦ elim (offsets_from dimensions (suc from) count) [
    | none ↦ none
    | some os ↦ some (d.range_right ∷ os)
  ]
]

-- What a wiretype is, where a wire has one.
pub data Wiretype : Type 0 where
  no_wiretype : Wiretype
  wiretype : AstNodeType → Wiretype

-- How many packed ranges are the wiretype's; `none` is an error.
unfoldable pub skipped : Wiretype → ℕ → ℕ → Option ℕ
skipped no_wiretype dimensions selects = some 0
skipped (wiretype ast_struct) dimensions selects = some 1
skipped (wiretype ast_wire) dimensions selects =
    if leb selects dimensions then some (dimensions - selects) else none
skipped (wiretype _) dimensions selects = none

-- The bounds of one range of the access; only the last may have two.
unfoldable pub range_bounds : Bool → Nodes → Option (AstNode × AstNode)
range_bounds is_last (cons a nil) = some (a, a)
range_bounds true (cons a (cons b nil)) = some (a, b)
range_bounds _ _ = none

abbrev pub on_bounds :
    {A : Type 0} → Option (AstNode × AstNode) → (AstNode → AstNode → Option A) → Option A
on_bounds none next = none
on_bounds (some (left, right)) next = next left right

-- The size of the element of a range: the first one where the sizes end.
unfoldable pub single_size : List ℕ → List ℕ → ℕ
single_size [] [] = 1
single_size (first_size ∷ more) [] = first_size
single_size all (elem_size ∷ sizes) = elem_size

abbrev pub rest_of : {A : Type 0} → List A → List A
rest_of [] = []
rest_of (x ∷ xs) = xs

abbrev pub attribute_children : AstNode → Text → Option (List AstNode)
attribute_children n name = elim (get_attribute n name) [
  | none ↦ none
  | some a ↦ some (to_list (children a))
]

abbrev pub size_of_wire : AstNode → ℕ
size_of_wire range = to_u32 ((fields range).range_left +ℤ pos 1)

module _ (yosys : Yosys) where
  open yosys use {mkconst_int}

  unfoldable pub make_range : ℤ → ℤ → Bool → AstNode
  make_range left right is_signed =
      node ast_range
        (record new_fields {
          range_left = left;
          range_right = right;
          range_valid = true;
          is_signed = is_signed;
        })
        (cons (mkconst_int (to_u32 left) true 32) (cons (mkconst_int (to_u32 right) true 32) nil))
        empty

  -- The index counts from the low end of its dimension.
  unfoldable pub less_offset : List ℤ → AstNode → AstNode
  less_offset [] n = n
  less_offset (pos zero ∷ os) n = n
  less_offset (o ∷ os) n = binary ast_sub n (constant yosys (to_u32 o))

  -- The low end after one more range of the access.
  unfoldable pub low_end : Option (AstNode × AstNode) → AstNode → AstNode
  low_end none scaled = scaled
  low_end (some (l, r)) scaled = binary ast_add r scaled

  -- The range of bits after one more range of the access; before the first there is none.
  unfoldable pub add_range : Option (AstNode × AstNode) → AstNode → AstNode → ℕ → AstNode × AstNode
  add_range result left right elem_size =
      let scaled = binary ast_mul right (constant yosys elem_size) in
      let span =
        binary ast_sub
          (binary ast_sub
            (binary ast_mul (binary ast_add left (constant yosys 1)) (constant yosys elem_size))
            scaled)
          (constant yosys 1) in
      let low = low_end result scaled in (binary ast_add low span, low)

  -- The loop over the ranges of the access, with all the sizes, and the sizes and the offsets that are
  -- left.
  unfoldable pub add_ranges :
      List ℕ
      → Option (AstNode × AstNode)
      → List AstNode
      → List ℕ
      → List ℤ
      → Option (Option (AstNode × AstNode))
  add_ranges all result [] sizes offsets = some result
  add_ranges all result (r ∷ rs) sizes offsets =
      on_bounds (range_bounds (length rs == 0) (children r)) (λ left right.
        add_ranges all
          (some (
            add_range result (less_offset offsets left) (less_offset offsets right)
              (single_size all sizes)))
          rs (rest_of sizes) (rest_of offsets))

  -- `none` is a null pointer, as for an access without ranges.
  unfoldable pub range_result : Option (AstNode × AstNode) → Option AstNode
  range_result none = none
  range_result (some (left, right)) = some (binary ast_range left right)

  unfoldable pub finished : Option (Option (AstNode × AstNode)) → Option (Option AstNode)
  finished none = none
  finished (some result) = some (range_result result)

  -- Without ranges, the access is to the whole wire.
  unfoldable pub with_sizes : ℕ → Option (List ℕ) → List ℤ → List AstNode → Option (Option AstNode)
  with_sizes elem_size none offsets ranges = none
  with_sizes elem_size (some []) offsets ranges =
      some (some (make_range (to_int elem_size -ℤ pos 1) (pos 0) false))
  with_sizes elem_size (some (s ∷ ss)) offsets ranges =
      finished (add_ranges (s ∷ ss) none ranges (s ∷ ss) offsets)

  -- The access, given the ranges of the wire in the order of evaluation, the size of the wire and
  -- the low ends of the dimensions.
  unfoldable pub access_range : ℕ → List AstNode → List ℤ → List AstNode → Option (Option AstNode)
  access_range elem_size wire_ranges offsets ranges =
      with_sizes elem_size (element_sizes elem_size wire_ranges) offsets ranges

  unfoldable pub both_offsets : Option (List ℤ) → Option (List ℤ) → Option (List ℤ)
  both_offsets none os' = none
  both_offsets (some os) none = none
  both_offsets (some os) (some os') = some (os ++ os')

  unfoldable pub with_offsets :
      ℕ → List AstNode → Option (List ℤ) → List AstNode → Option (Option AstNode)
  with_offsets elem_size wire_ranges none ranges = none
  with_offsets elem_size wire_ranges (some offsets) ranges =
      access_range elem_size wire_ranges offsets ranges

  -- The ranges and dimensions of the wire that the access has to do with: the unpacked ones, and
  -- then the packed ones that are not the wiretype's.
  unfoldable pub wire_access :
      List Dimension
      → ℕ
      → Option ℕ
      → Option (List AstNode)
      → Option (List AstNode)
      → List AstNode
      → Option (Option AstNode)
  wire_access dimensions elem_size (some skip) (some packed) (some unpacked) ranges =
      if leb skip (length packed)
      then with_offsets elem_size (unpacked ++ drop skip packed)
          (both_offsets (offsets_from dimensions (length packed) (length unpacked))
            (offsets_from dimensions skip (length packed - skip)))
          ranges
      else none
  wire_access dimensions elem_size _ _ _ ranges = none

  -- The first child of a wire is its range.
  unfoldable pub with_range :
      List Dimension
      → Option AstNode
      → Option ℕ
      → Option (List AstNode)
      → Option (List AstNode)
      → List AstNode
      → Option (Option AstNode)
  with_range [] range skip packed unpacked ranges = none
  with_range (d ∷ ds) none skip packed unpacked ranges = none
  with_range (d ∷ ds) (some range) skip packed unpacked ranges =
      wire_access (d ∷ ds) (size_of_wire range) skip packed unpacked ranges

  unfoldable pub converted :
      (AstNode → Wiretype) → AstNode → Option AstNode → Option (Option AstNode)
  converted wiretype_of id none = none
  converted wiretype_of id (some wire) =
      with_range (fields wire).dimensions (first (children wire))
        (skipped (wiretype_of wire) (length (fields wire).dimensions) (size (children id)))
        (attribute_children wire (codes "$synlig$packed_ranges"))
        (attribute_children wire (codes "$synlig$unpacked_ranges")) (get_ranges (children id))

  -- `wiretype_of` is what the attribute `wiretype` of the wire is linked to. The outer `none` is a
  -- failed assertion, an error or a read of what is not there.
  unfoldable pub convert_range :
      (Text → Option AstNode) → (AstNode → Wiretype) → AstNode → Option (Option AstNode)
  convert_range current_scope wiretype_of id =
      assert_children (children id) (converted wiretype_of id (current_scope (fields id).str))
