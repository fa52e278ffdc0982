-- ===== src/Wire/Width.antt =====
-- The range of a converted wire has a bit for each element of its ranges.
use synlig.Common.{
  ℕ, zero, suc, ◌+◌, ◌-◌, ◌*◌, ◌/◌, ◌%◌, ◌^◌, ◌<◌, ◌≤◌, ◌≡◌, true, false, ◌&&◌, List, [], ◌∷◌, ◌++◌,
  Option, none, some, ◌==◌, ltb, length, if◌then◌else◌, if_true, if_false, refl, sym, ap, ◌∙◌,
  arith,
}
use mathlib.Core.Path.{ap₂, subst}
use native.Mathlib.Nat
use synlig.Common.Int.{pos, ◌+ℤ◌, ◌-ℤ◌}
use synlig.Common.Word.{u32_mod}
use synlig.Ast.{AstNode, Dimension, Nodes, node, nil, cons, children, fields, integer, back, ◌++ₙ◌}
use synlig.Select.{is_constant}
use synlig.Wire.{to_int, make_range}
use synlig.Wire.Convert
use synlig.Wire.Convert.{
  is_empty, range_dimension, calc_range_size, push_dimension, both_sizes, set_dimensions,
  simplify_all, to_size, one_range, with_range, with_dimensions, new_dimensions, convert_node,
  ranges_at, convert_packed_unpacked_range, packed_ranges, unpacked_ranges,
}
use synlig.Yosys.{Yosys}

-- How many elements a range has, and some ranges.
unfoldable pub extent : AstNode → ℕ
extent (node t f (cons a (cons b ns)) as') = (integer a - integer b) + (integer b - integer a) + 1
extent _ = 1

unfoldable pub elements : List AstNode → ℕ
elements [] = 1
elements (r ∷ rs) = extent r * elements rs

-- The bounds are constants that an `int` holds.
unfoldable pub IsConstantRange : AstNode → Type 0
IsConstantRange (node t f (cons a (cons b ns)) as') =
    (is_constant a ≡ true) × (is_constant b ≡ true) × (integer a < 2 ^ 31) × (integer b < 2 ^ 31)
IsConstantRange _ = ⊥

unfoldable pub AreConstantRanges : List AstNode → Type 0
AreConstantRanges [] = Unit
AreConstantRanges (r ∷ rs) = IsConstantRange r × AreConstantRanges rs

to_int-pos : (v : ℕ) → v < 2 ^ 31 → to_int v ≡ pos v
unfolding to_int
to_int-pos v h = if_true _ (pos v) _ (below v h)
  where
    below : (v : ℕ) → v < 2 ^ 31 → ltb v (u32_mod / 2) ≡ true
    below v h = ground arith

to_size-extent :
    (a b : ℕ)
    → a < 2 ^ 31
    → b < 2 ^ 31
    → to_size ((to_int (if ltb a b then b else a) -ℤ to_int (if ltb b a then b else a)) +ℤ pos 1)
      ≡ (a - b) + (b - a) + 1
unfolding to_size ◌+ℤ◌ ◌-ℤ◌ to_int
to_size-extent a b ha hb = ground arith

extent_positive : (r : AstNode) → 1 ≤ extent r
unfolding extent
extent_positive (node t f (cons a (cons b ns)) as') = omega arith
extent_positive (node t f nil as') = omega arith
extent_positive (node t f (cons a nil) as') = omega arith

multiple_le : (w n : ℕ) → 1 ≤ w → n ≤ w * n
multiple_le zero n h = absurd (omega arith)
multiple_le (suc w) n h = omega arith

positive_product : (w n : ℕ) → 1 ≤ w → 1 ≤ n → 1 ≤ w * n
positive_product w n h h' = let le = multiple_le w n h in omega arith

elements_positive : (rs : List AstNode) → 1 ≤ elements rs
unfolding elements
elements_positive [] = omega arith
elements_positive (r ∷ rs) =
    positive_product (extent r) (elements rs) (extent_positive r) (elements_positive rs)

range_dimension-extent :
    (r : AstNode)
    → IsConstantRange r
    → (d : Dimension) × ((range_dimension r ≡ some d) × (to_size d.range_width ≡ extent r))
unfolding range_dimension extent IsConstantRange
range_dimension-extent (node t f (cons a (cons b ns)) as') (ca, cb, ha, hb) = (
  record {
    range_right = to_int (if ltb (integer b) (integer a) then integer b else integer a);
    range_width =
        (to_int (if ltb (integer a) (integer b) then integer b else integer a)
          -ℤ to_int (if ltb (integer b) (integer a) then integer b else integer a))
        +ℤ pos 1;
    range_swapped = f.range_swapped;
  },
  (
    if_true (is_constant a && is_constant b) _ none (ground (arith, ca, cb)),
    to_size-extent (integer a) (integer b) ha hb,
  ),
)
range_dimension-extent (node t f nil as') h = elim h [ ]
range_dimension-extent (node t f (cons a nil) as') h = elim h [ ]

calc_range_size-elements :
    (rs : List AstNode)
    → AreConstantRanges rs
    → elements rs < 2 ^ 31
    → (ds : List Dimension) × (calc_range_size rs ≡ some (ds, elements rs))
unfolding calc_range_size elements AreConstantRanges
calc_range_size-elements [] h small = ([], refl)
calc_range_size-elements (r ∷ rs) (h, hs) small =
    let le = multiple_le (extent r) (elements rs) (extent_positive r) in
    let (ds, counted) = calc_range_size-elements rs hs (omega arith) in
    let (d, (measured, sized)) = range_dimension-extent r h in
    (
      d ∷ ds,
      ap₂ push_dimension measured counted
          ∙ ap (λ k. some (d ∷ ds, k * elements rs % 2 ^ 64)) sized
          ∙ ap (λ k. some (d ∷ ds, k)) (omega arith),
    )

mul_comm : (m n : ℕ) → m * n ≡ n * m
mul_comm m n = grind arith

not_empty :
    (packed unpacked : List AstNode)
    → 2 ≤ length packed + length unpacked
    → (is_empty packed && is_empty unpacked) ≡ false
not_empty [] [] h = absurd (omega arith)
not_empty [] (u ∷ us) h = refl
not_empty (p ∷ ps) us h = refl

module _ (yosys : Yosys) where
  abbrev pub one_range_of : ℕ → AstNode
  one_range_of n = make_range yosys (pos (n - 1)) (pos 0) false

  whole :
      (n : ℕ)
      → 1 ≤ n
      → n < 2 ^ 31
      → (if n % 2 ^ 64 == 0
          then none
          else some (make_range yosys (to_int ((n % 2 ^ 64 - 1) % 2 ^ 32)) (pos 0) false))
        ≡ some (one_range_of n)
  whole n h1 h2 =
      ap
        (λ k.
          if k == 0
          then none
          else some (make_range yosys (to_int ((k - 1) % 2 ^ 32)) (pos 0) false))
        (Nat.mod-eq_of_lt {n = n} {m = 2 ^ 64} (omega arith))
      ∙ if_false (n == 0) none _ (ground arith)
      ∙ ap (λ k. some (make_range yosys (to_int k) (pos 0) false))
          (Nat.mod-eq_of_lt {n = n - 1} {m = 2 ^ 32} (omega arith))
      ∙ ap (λ v. some (make_range yosys v (pos 0) false)) (to_int-pos (n - 1) (omega arith))

  -- There are several ranges.
  one_range-several :
      (packed unpacked : List AstNode) (m n : ℕ)
      → 2 ≤ length packed + length unpacked
      → 1 ≤ m * n
      → m * n < 2 ^ 31
      → one_range yosys packed unpacked m n ≡ some (one_range_of (m * n))
  unfolding one_range
  one_range-several (p ∷ []) [] m n h h1 h2 = absurd (omega arith)
  one_range-several [] [] m n h h1 h2 = absurd (omega arith)
  one_range-several [] (u ∷ []) m n h h1 h2 = absurd (omega arith)
  one_range-several (p ∷ q ∷ ps) us m n h h1 h2 = whole (m * n) h1 h2
  one_range-several (p ∷ []) (u ∷ us) m n h h1 h2 = whole (m * n) h1 h2
  one_range-several [] (u ∷ v ∷ us) m n h h1 h2 = whole (m * n) h1 h2

  length-simplify_all :
      (simplified : AstNode → AstNode) (rs : List AstNode)
      → length (simplify_all simplified rs) ≡ length rs
  unfolding simplify_all
  length-simplify_all simplified [] = refl
  length-simplify_all simplified (r ∷ rs) = ap suc (length-simplify_all simplified rs)

  back-append : (ns : Nodes) (n : AstNode) → back (ns ++ₙ cons n nil) ≡ some n
  back-append nil n = refl
  back-append (cons m nil) n = refl
  back-append (cons m (cons k ns)) n = back-append (cons k ns) n

  -- The last child of the wire is one range of `n` bits.
  unfoldable pub HasBits : ℕ → Option AstNode → Type 0
  HasBits n none = ⊥
  HasBits n (some wire) = back (children wire) ≡ some (one_range_of n)

  with_dimensions-HasBits :
      (wire : AstNode) (packed unpacked : List AstNode)
      → AreConstantRanges packed
      → AreConstantRanges unpacked
      → 2 ≤ length packed + length unpacked
      → elements packed * elements unpacked < 2 ^ 31
      → HasBits
          (elements packed * elements unpacked)
          (with_dimensions yosys wire packed unpacked (set_dimensions packed unpacked))
  unfolding set_dimensions with_dimensions with_range HasBits
  with_dimensions-HasBits (node t f cs as') packed unpacked hp hu several small =
      let m = elements packed in
      let n = elements unpacked in
      let m1 = elements_positive packed in
      let n1 = elements_positive unpacked in
      let m_le = multiple_le n m n1 in
      let n_le = multiple_le m n m1 in
      let (ds, ep) = calc_range_size-elements packed hp (omega (arith, mul_comm m n)) in
      let (es, eu) = calc_range_size-elements unpacked hu (omega arith) in
      subst (λ o. HasBits (m * n) (with_dimensions yosys (node t f cs as') packed unpacked o))
        (sym (ap₂ both_sizes ep eu))
        (subst
          (λ o. HasBits (m * n) (with_range yosys (node t f cs as') packed unpacked (ds ++ es) o))
          (sym (one_range-several packed unpacked m n several (positive_product m n m1 n1) small))
          (back-append cs (one_range_of (m * n))))

  -- A wire of several ranges that is converted gets one range, from the number of all elements less
  -- one down to 0, if the simplified ranges have constants below 2 ^ 31 for bounds and the number of
  -- elements is below 2 ^ 31.
  pub convert_packed_unpacked_range-HasBits :
      (simplified : AstNode → AstNode) (wire : AstNode)
      → convert_node wire (ranges_at wire packed_ranges) (ranges_at wire unpacked_ranges) ≡ true
      → (fields wire).dimensions ≡ []
      → 2 ≤ length (ranges_at wire packed_ranges) + length (ranges_at wire unpacked_ranges)
      → AreConstantRanges (simplify_all simplified (ranges_at wire packed_ranges))
      → AreConstantRanges (simplify_all simplified (ranges_at wire unpacked_ranges))
      → elements (simplify_all simplified (ranges_at wire packed_ranges))
          * elements (simplify_all simplified (ranges_at wire unpacked_ranges))
        < 2 ^ 31
      → HasBits
          (elements (simplify_all simplified (ranges_at wire packed_ranges))
            * elements (simplify_all simplified (ranges_at wire unpacked_ranges)))
          (convert_packed_unpacked_range yosys simplified wire)
  unfolding convert_packed_unpacked_range new_dimensions
  convert_packed_unpacked_range-HasBits simplified wire chosen fresh several hp hu small =
      let packed = ranges_at wire packed_ranges in
      let unpacked = ranges_at wire unpacked_ranges in
      let N =
        elements (simplify_all simplified packed) * elements (simplify_all simplified unpacked) in
      subst (HasBits N)
        (sym (
          if_false _ (some (Convert.without_ranges wire)) _ (not_empty packed unpacked several)
          ∙ if_true _ _ (some (Convert.kept_ranges wire packed unpacked)) chosen
          ∙ ap (new_dimensions yosys simplified wire packed unpacked) fresh))
        (with_dimensions-HasBits wire _ _ hp hu
          (omega
            (arith, length-simplify_all simplified packed, length-simplify_all simplified unpacked))
          small)
