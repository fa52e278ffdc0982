-- ===== src/Wire/Convert.antt =====
-- src/frontends/systemverilog/uhdm_ast.cc, `add_multirange_wire`, `set_dimensions` and
-- `convert_packed_unpacked_range`: the range of a wire of many ranges.
use synlig.Common.{
  ℕ, ◌-◌, ◌*◌, ◌%◌, ◌^◌, Bool, true, false, not, ◌&&◌, ◌||◌, List, [], ◌∷◌, ◌++◌, Option, none,
  some, ◌==◌, ltb, length, if◌then◌else◌,
}
use synlig.Common.Int.{ℤ, pos, negsuc, ◌+ℤ◌, ◌-ℤ◌}
use synlig.Common.Text.{Text, codes}
use synlig.Ast.{
  AstNode, AstNodeType, Attributes, Dimension, node, nil, cons, ast_memory, ast_struct_item,
  ast_parameter, ast_localparam, ast_wire, integer, type, of_list, fields, ◌++ₙ◌,
}
use synlig.Attributes.{get_attribute, insert, erase}
use synlig.Select.{is_constant}
use synlig.Wire.{to_int, make_range, attribute_children}
use synlig.Yosys.{Yosys}

abbrev pub packed_ranges : Text
packed_ranges = codes "$synlig$packed_ranges"

abbrev pub unpacked_ranges : Text
unpacked_ranges = codes "$synlig$unpacked_ranges"

abbrev pub ranges_or_none : Option (List AstNode) → List AstNode
ranges_or_none none = []
ranges_or_none (some rs) = rs

-- The ranges of an attribute, which may be missing.
abbrev pub ranges_at : AstNode → Text → List AstNode
ranges_at wire name = ranges_or_none (attribute_children wire name)

-- A range of [A] becomes [A:A].
unfoldable pub doubled : AstNode → AstNode
doubled (node t f (cons a nil) as') = node t f (cons a (cons a nil)) as'
doubled n = n

-- The dimension of a range whose bounds are constants; else an assertion fails.
unfoldable pub range_dimension : AstNode → Option Dimension
range_dimension (node t f (cons a (cons b ns)) as') =
    let low = if ltb (integer b) (integer a) then integer b else integer a in
    let high = if ltb (integer a) (integer b) then integer b else integer a in
    if is_constant a && is_constant b
    then some (record {
      range_right = to_int low;
      range_width = (to_int high -ℤ to_int low) +ℤ pos 1;
      range_swapped = f.range_swapped;
    })
    else none
range_dimension _ = none

-- An `int` as a `size_t`.
unfoldable pub to_size : ℤ → ℕ
to_size (pos n) = n % 2 ^ 64
to_size (negsuc n) = 2 ^ 64 - 1 - n % 2 ^ 64

abbrev pub push_dimension :
    Option Dimension → Option (List Dimension × ℕ) → Option (List Dimension × ℕ)
push_dimension none o = none
push_dimension (some d) none = none
push_dimension (some d) (some (ds, size)) = some (d ∷ ds, to_size d.range_width * size % 2 ^ 64)

-- The dimensions of some ranges, and their total size.
unfoldable pub calc_range_size : List AstNode → Option (List Dimension × ℕ)
calc_range_size [] = some ([], 1)
calc_range_size (r ∷ rs) = push_dimension (range_dimension r) (calc_range_size rs)

abbrev pub both_sizes :
    Option (List Dimension × ℕ) → Option (List Dimension × ℕ) → Option (List Dimension × ℕ × ℕ)
both_sizes none o = none
both_sizes (some p) none = none
both_sizes (some (ds, packed_size)) (some (es, unpacked_size)) =
    some (ds ++ es, packed_size, unpacked_size)

unfoldable pub simplify_all : (AstNode → AstNode) → List AstNode → List AstNode
simplify_all simplified [] = []
simplify_all simplified (r ∷ rs) = simplified (doubled r) ∷ simplify_all simplified rs

-- The dimensions of the wire, and the total sizes of its packed and of its unpacked ranges, all of
-- which have been simplified.
unfoldable pub set_dimensions : List AstNode → List AstNode → Option (List Dimension × ℕ × ℕ)
set_dimensions packed unpacked = both_sizes (calc_range_size packed) (calc_range_size unpacked)

abbrev pub is_empty : List AstNode → Bool
is_empty [] = true
is_empty (r ∷ rs) = false

unfoldable pub is_memory : AstNodeType → Bool
is_memory ast_memory = true
is_memory _ = false

unfoldable pub is_struct_item : AstNodeType → Bool
is_struct_item ast_struct_item = true
is_struct_item _ = false

unfoldable pub is_parameter : AstNodeType → Bool
is_parameter ast_parameter = true
is_parameter ast_localparam = true
is_parameter _ = false

unfoldable pub is_wire : AstNodeType → Bool
is_wire ast_wire = true
is_wire _ = false

abbrev pub has_attribute : AstNode → Text → Bool
has_attribute n name = elim (get_attribute n name) [ none ↦ false | some v ↦ true ]

abbrev pub is_forced : AstNode → Bool
is_forced n = elim (get_attribute n (codes "$synlig$force_convert")) [
  | none ↦ false
  | some v ↦ integer v == 1
]

abbrev pub is_port : AstNode → Bool
is_port n = (fields n).is_input || (fields n).is_output

-- Whether a wire becomes one of a single range.
unfoldable pub convert_node : AstNode → List AstNode → List AstNode → Bool
convert_node wire packed unpacked =
    if is_memory (type wire)
    then false
    else if ltb 1 (length packed)
    then true
    else if is_struct_item (type wire) && ltb 0 (length packed)
    then true
    else if ltb 1 (length unpacked)
    then true
    else if is_struct_item (type wire) && ltb 0 (length unpacked)
    then true
    else if has_attribute wire (codes "\\wiretype")
    then true
    else if is_parameter (type wire)
    then true
    else if is_port wire && (ltb 0 (length packed) || ltb 0 (length unpacked))
    then true
    else is_forced wire

-- A wire with one packed and one unpacked range that is no port becomes a memory.
unfoldable pub becomes_memory : AstNode → List AstNode → List AstNode → Bool
becomes_memory wire packed unpacked =
    is_wire (type wire)
    && (length packed == 1)
    && (length unpacked == 1)
    && not (fields wire).is_input
    && not (fields wire).is_output

unfoldable pub kept_ranges : AstNode → List AstNode → List AstNode → AstNode
kept_ranges (node t f cs as') packed unpacked =
    let ranges = of_list (packed ++ unpacked) in
    if becomes_memory (node t f cs as') packed unpacked
    then node ast_memory (record f { is_logic = true }) (cs ++ₙ ranges) as'
    else node t f (cs ++ₙ ranges) as'

unfoldable pub without_ranges : AstNode → AstNode
without_ranges (node t f cs as') =
    node t (record f { range_left = pos 0; range_right = pos 0; range_valid = true }) cs
      (erase (erase as' packed_ranges) unpacked_ranges)

-- The simplified ranges, in the attribute that holds them.
unfoldable pub with_ranges : Attributes → Text → Option AstNode → List AstNode → Attributes
with_ranges as' name none ranges = as'
with_ranges as' name (some (node t f cs bs)) ranges = insert as' name (node t f (of_list ranges) bs)

module _ (yosys : Yosys) where
  open yosys use {mkconst_int}

  abbrev pub ranges_node : List AstNode → AstNode → AstNode
  ranges_node ranges (node t f cs as') = elim ranges [
    | [] ↦ node t f cs as'
    | r ∷ rs ↦ node t f (of_list (r ∷ rs)) as'
  ]

  unfoldable pub add_multirange_wire : AstNode → List AstNode → List AstNode → AstNode
  add_multirange_wire (node t f cs as') packed unpacked =
      let with_packed =
        insert (erase as' packed_ranges) packed_ranges
          (ranges_node packed (mkconst_int 1 false 1)) in
      node t f cs (
        insert (erase with_packed unpacked_ranges) unpacked_ranges
          (ranges_node unpacked (mkconst_int 1 false 1)))

  -- A single range stays; else there is one for all bits. `none` is a failed assertion.
  unfoldable pub one_range : List AstNode → List AstNode → ℕ → ℕ → Option AstNode
  one_range (p ∷ []) [] packed_size unpacked_size = some p
  one_range [] (u ∷ []) packed_size unpacked_size = some u
  one_range packed unpacked packed_size unpacked_size =
      let size = packed_size * unpacked_size % 2 ^ 64 in
      if size == 0
      then none
      else some (make_range yosys (to_int ((size - 1) % 2 ^ 32)) (pos 0) false)

  unfoldable pub with_range :
      AstNode → List AstNode → List AstNode → List Dimension → Option AstNode → Option AstNode
  with_range wire packed unpacked dimensions none = none
  with_range (node t f cs as') packed unpacked dimensions (some range) =
      let old = node t f cs as' in
      let with_packed = with_ranges as' packed_ranges (get_attribute old packed_ranges) packed in
      let both =
        with_ranges with_packed unpacked_ranges (get_attribute old unpacked_ranges) unpacked in
      some (node t (record f { dimensions = dimensions }) (cs ++ₙ cons range nil) both)

  unfoldable pub with_dimensions :
      AstNode → List AstNode → List AstNode → Option (List Dimension × ℕ × ℕ) → Option AstNode
  with_dimensions wire packed unpacked none = none
  with_dimensions wire packed unpacked (some (dimensions, packed_size, unpacked_size)) =
      with_range wire packed unpacked dimensions
        (one_range packed unpacked packed_size unpacked_size)

  -- A wire that has dimensions has been converted.
  unfoldable pub new_dimensions :
      (AstNode → AstNode) → AstNode → List AstNode → List AstNode → List Dimension → Option AstNode
  new_dimensions simplified wire packed unpacked (d ∷ ds) = some wire
  new_dimensions simplified wire packed unpacked [] =
      let packed' = simplify_all simplified packed in
      let unpacked' = simplify_all simplified unpacked in
      with_dimensions wire packed' unpacked' (set_dimensions packed' unpacked')

  -- The function behind `resolve_wiretype`. `simplified` is what `simplify_sv` and `synlig_simplify`
  -- make of a range.
  unfoldable pub convert_packed_unpacked_range : (AstNode → AstNode) → AstNode → Option AstNode
  convert_packed_unpacked_range simplified wire =
      let packed = ranges_at wire packed_ranges in
      let unpacked = ranges_at wire unpacked_ranges in
      if is_empty packed && is_empty unpacked
      then some (without_ranges wire)
      else if convert_node wire packed unpacked
      then new_dimensions simplified wire packed unpacked (fields wire).dimensions
      else some (kept_ranges wire packed unpacked)
