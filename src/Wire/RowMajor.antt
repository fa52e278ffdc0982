-- ===== src/Wire/RowMajor.antt =====
-- `convert_range` selects the bits of an element in row-major order.
use synlig.Common.{
  ℕ, zero, suc, ◌+◌, ◌-◌, ◌*◌, ◌%◌, ◌<◌, ◌≤◌, ◌≡◌, true, List, [], ◌∷◌, ◌++◌, Option, none, some,
  leb, length, if_true, refl, sym, ap, ◌∙◌, arith,
}
use mathlib.Core.Path.{ap₂, subst, subst₂}
use native.Mathlib.Nat
use synlig.Common.Int.{ℤ, pos, ◌+ℤ◌}
use synlig.Common.Word
use synlig.Common.Word.{add32, sub32, mul32, to_u32, u32_mod}
use synlig.Common.Text.{Text, codes}
use synlig.Ast.{
  AstNode, Nodes, Dimension, node, nil, cons, children, first, size, fields, ast_range,
}
use synlig.Select.Value.{eval}
use synlig.Wire.{
  range_size, element_sizes, range_bounds, add_ranges, finished, with_sizes, access_range,
  converted, with_range, wire_access, with_offsets, both_offsets, skipped, push_size, divide_by,
  offsets_from, convert_range, Wiretype, no_wiretype, attribute_children, get_ranges,
  assert_children, range_result, size_of_wire,
}
use synlig.Wire.Access
use synlig.Wire.Access.{
  Index, sizes_of, offsets_of, AllSmall, index_at, width_of, offset_after, access_ranges, Spans,
  low_of,
}
use synlig.Yosys.{Yosys}

-- A dimension that an access has an index for: its width, its low end, the index and the range.
pub record Row : Type 0 where
  pub width : ℕ
  pub low : ℤ
  pub index : AstNode
  pub range : AstNode

-- Each width is that of the range, and not zero.
unfoldable pub AreRows : List Row → Type 0
AreRows [] = Unit
AreRows (y ∷ ys) = (range_size y.range ≡ some y.width) × (1 ≤ y.width) × AreRows ys

unfoldable pub product_of : List Row → ℕ
product_of [] = 1
product_of (y ∷ ys) = y.width * product_of ys

unfoldable pub ranges_of : List Row → List AstNode
ranges_of [] = []
ranges_of (y ∷ ys) = y.range ∷ ranges_of ys

-- The indices, with the sizes of the elements, where `z` is that of the last one.
unfoldable pub indices : List Row → ℕ → List Index
unfolding product_of
indices [] z = []
indices (y ∷ ys) z = (product_of ys * z, y.low, y.index) ∷ indices ys z

divide_by-some :
    (w n : ℕ) (next : ℕ → Option (List ℕ))
    → 1 ≤ w
    → divide_by (w * n) (some w) next ≡ push_size n (next n)
unfolding divide_by
divide_by-some zero n next h = absurd (omega arith)
divide_by-some (suc w) n next h =
    ap (λ k. push_size k (next k)) (Nat.mul-div_cancel_left n {n = suc w} (omega arith))

divide_by-range :
    (w n size : ℕ) (range : AstNode) (next : ℕ → Option (List ℕ))
    → range_size range ≡ some w
    → 1 ≤ w
    → size ≡ w * n
    → divide_by size (range_size range) next ≡ push_size n (next n)
divide_by-range w n size range next e h es =
    ap₂ (λ s o. divide_by s o next) es e ∙ divide_by-some w n next h

mul_right : (a b c : ℕ) → a * b * c ≡ a * (b * c)
mul_right a b c = grind arith

-- The sizes of the elements are the products of the widths behind them.
element_sizes-indices :
    (ys : List Row) (w e : ℕ) (range : AstNode)
    → AreRows ys
    → range_size range ≡ some w
    → 1 ≤ w
    → element_sizes (product_of ys * (w * e)) (ranges_of ys ++ range ∷ [])
      ≡ some (sizes_of (indices ys (w * e)) ++ e ∷ [])
unfolding element_sizes AreRows product_of ranges_of indices sizes_of push_size
element_sizes-indices [] w e range rows h hw = divide_by-range w e _ range _ h hw (omega arith)
element_sizes-indices (y ∷ ys) w e range (hy, hy1, rows) h hw =
    divide_by-range y.width (product_of ys * (w * e)) _ y.range _ hy hy1
      (mul_right y.width (product_of ys) (w * e))
    ∙ ap (push_size (product_of ys * (w * e))) (element_sizes-indices ys w e range rows h hw)

module _ (env : AstNode → ℕ) (yosys : Yosys) where
  -- The number of the element that the indices name, in row-major order.
  unfoldable pub row_major : ℕ → List Row → ℕ
  row_major acc [] = acc
  row_major acc (y ∷ ys) = row_major (acc * y.width + index_at env yosys y.low y.index) ys

  join : (a w i z : ℕ) → add32 (a * (w * z) % u32_mod) (mul32 i z) ≡ (a * w + i) * z % u32_mod
  unfolding add32 mul32
  join a w i z =
      sym (Nat.add-mod (a * (w * z)) (i * z) u32_mod) ∙ ap (λ x. x % u32_mod) (ring_join a w i z)
    where
      ring_join : (a w i z : ℕ) → a * (w * z) + i * z ≡ (a * w + i) * z
      ring_join a w i z = grind arith

  offset_after-indices :
      (a z : ℕ) (ys : List Row)
      → offset_after env yosys (a * (product_of ys * z) % u32_mod) (indices ys z)
        ≡ row_major a ys * z % u32_mod
  unfolding offset_after indices row_major product_of
  offset_after-indices a z [] = ap (λ x. a * x % u32_mod) (omega arith)
  offset_after-indices a z (y ∷ ys) =
      ap (λ x. offset_after env yosys x (indices ys z))
        (ap
            (λ x.
              add32 (a * x % u32_mod)
                (mul32 (index_at env yosys y.low y.index) (product_of ys * z)))
            (mul_right y.width (product_of ys) z)
          ∙ join a y.width (index_at env yosys y.low y.index) (product_of ys * z))
      ∙ offset_after-indices (a * y.width + index_at env yosys y.low y.index) z ys

unfoldable pub lows_of : List Row → List ℤ
lows_of [] = []
lows_of (y ∷ ys) = y.low ∷ lows_of ys

lows_of-indices : (ys : List Row) (z : ℕ) → offsets_of (indices ys z) ≡ lows_of ys
unfolding offsets_of indices lows_of
lows_of-indices [] z = refl
lows_of-indices (y ∷ ys) z = ap (λ os. y.low ∷ os) (lows_of-indices ys z)

multiple_le : (w n : ℕ) → 1 ≤ w → n ≤ w * n
multiple_le zero n h = absurd (omega arith)
multiple_le (suc w) n h = omega arith

-- No element is larger than the wire.
indices-AllSmall :
    (ys : List Row) (z : ℕ) → AreRows ys → product_of ys * z < u32_mod → AllSmall (indices ys z)
unfolding AreRows product_of indices AllSmall
indices-AllSmall [] z rows h = tt
indices-AllSmall (y ∷ ys) z (hy, hy1, rows) h =
    let below = multiple_le y.width (product_of ys * z) hy1 in
    let same = mul_right y.width (product_of ys) z in
    let small = transport_lt _ _ _ below same h in (small, indices-AllSmall ys z rows small)
  where
    transport_lt : (a b c : ℕ) → a ≤ b → c ≡ b → c < u32_mod → a < u32_mod
    transport_lt a b c h e k = omega arith

last_small : (ys : List Row) (z : ℕ) → AreRows ys → product_of ys * z < u32_mod → z < u32_mod
unfolding AreRows product_of
last_small [] z rows h = omega arith
last_small (y ∷ ys) z (hy, hy1, rows) h =
    let below = multiple_le y.width (product_of ys * z) hy1 in
    let same = mul_right y.width (product_of ys) z in last_small ys z rows (omega arith)

module _ (env : AstNode → ℕ) (yosys : Yosys) where
  -- A range node whose bounds are the low end and the high end of some bits.
  unfoldable pub SelectsRange : ℕ → ℕ → Option (Option AstNode) → Type 0
  SelectsRange low width (some (some (node ast_range f (cons l (cons r nil)) as'))) =
      (eval env r ≡ low) × (eval env l ≡ add32 low (sub32 width 1))
  SelectsRange low width _ = ⊥

  finished-SelectsRange :
      (low width : ℕ) (o : Option (Option (AstNode × AstNode)))
      → Spans env yosys low width o
      → SelectsRange low width (finished yosys o)
  unfolding SelectsRange Spans finished range_result
  finished-SelectsRange low width none h = h
  finished-SelectsRange low width (some none) h = h
  finished-SelectsRange low width (some (some (l, r))) h = h

  with_sizes-some :
      (size : ℕ) (sizes : List ℕ) (s : ℕ) (offsets : List ℤ) (ranges : List AstNode)
      → with_sizes yosys size (some (sizes ++ s ∷ [])) offsets ranges
        ≡ finished yosys (add_ranges yosys (sizes ++ s ∷ []) none ranges (sizes ++ s ∷ []) offsets)
  unfolding with_sizes
  with_sizes-some size [] s offsets ranges = refl
  with_sizes-some size (t ∷ sizes) s offsets ranges = refl

  zero_product : (n : ℕ) → 0 ≡ 0 * n % u32_mod
  zero_product n = omega arith

  access_range-SelectsRange :
      (ys : List Row) (w e : ℕ) (o : ℤ) (range last l r : AstNode)
      → AreRows ys
      → range_size range ≡ some w
      → 1 ≤ w
      → product_of ys * (w * e) < u32_mod
      → range_bounds true (children last) ≡ some (l, r)
      → SelectsRange
          ((row_major env yosys 0 ys * w + index_at env yosys o r) * e % u32_mod)
          (width_of env yosys (index_at env yosys o l) (index_at env yosys o r) e)
          (access_range yosys
            (product_of ys * (w * e))
            (ranges_of ys ++ range ∷ [])
            (lows_of ys ++ o ∷ [])
            (access_ranges env yosys (indices ys (w * e)) last))
  unfolding access_range low_of
  access_range-SelectsRange ys w e o range last l r rows h hw total bounds =
      let small = last_small ys (w * e) rows total in
      let below = multiple_le w e hw in
      let xs = indices ys (w * e) in
      let i = index_at env yosys o r in
      subst₂
        (λ sizes lows.
          SelectsRange ((row_major env yosys 0 ys * w + i) * e % u32_mod)
            (width_of env yosys (index_at env yosys o l) i e)
            (with_sizes yosys (product_of ys * (w * e)) sizes (lows ++ o ∷ [])
              (access_ranges env yosys xs last)))
        (sym (element_sizes-indices ys w e range rows h hw)) (lows_of-indices ys (w * e))
        (subst₂
          (λ low found. SelectsRange low (width_of env yosys (index_at env yosys o l) i e) found)
          (ap (λ x. add32 (offset_after env yosys x xs) (mul32 i e))
              (zero_product (product_of ys * (w * e)))
            ∙ ap (λ x. add32 x (mul32 i e)) (offset_after-indices env yosys 0 (w * e) ys)
            ∙ join env yosys (row_major env yosys 0 ys) w i e)
          (sym (
            with_sizes-some (product_of ys * (w * e)) (sizes_of xs) e (offsets_of xs ++ o ∷ [])
              (access_ranges env yosys xs last)))
          (finished-SelectsRange _ _ _ (
            Access.add_ranges-Spans env yosys (sizes_of xs ++ e ∷ []) xs e o last l r [] [] none
              (indices-AllSmall ys (w * e) rows total) (omega arith) bounds)))

  assert_children-ranges :
      {A : Type 0} (xs : List Index) (last : AstNode) (cs : Nodes) (o : Option A)
      → get_ranges cs ≡ access_ranges env yosys xs last
      → assert_children cs o ≡ o
  unfolding assert_children get_ranges access_ranges
  assert_children-ranges [] last nil o h = cc
  assert_children-ranges ((s, l, n) ∷ xs) last nil o h = cc
  assert_children-ranges xs last (cons n ns) o h = refl

  zero_leb : (n : ℕ) → leb 0 n ≡ true
  zero_leb n = ground arith

  small_size : (range : AstNode) (n : ℕ) → size_of_wire range ≡ n → n < u32_mod
  small_size range n h =
      let small = Word.to_u32-lt ((fields range).range_left +ℤ pos 1) in omega arith

  -- An access to a wire that has no wiretype, with an index for each range of the wire, those before
  -- the last alone, selects the element that the indices name in row-major order, unpacked ranges
  -- first, and where the last range has two bounds the elements from the right one to the left one.
  -- The width of a wire is the product of those of its ranges and of `e`.
  pub convert_range-SelectsRange :
      (current_scope : Text → Option AstNode) (wiretype_of : AstNode → Wiretype)
      (id wire wire_range d_range last l r : AstNode) (d : Dimension) (ds : List Dimension)
      (packed unpacked : List AstNode) (os os' : List ℤ) (ys : List Row) (w e : ℕ) (o : ℤ)
      → current_scope (fields id).str ≡ some wire
      → wiretype_of wire ≡ no_wiretype
      → (fields wire).dimensions ≡ d ∷ ds
      → first (children wire) ≡ some wire_range
      → attribute_children wire (codes "$synlig$packed_ranges") ≡ some packed
      → attribute_children wire (codes "$synlig$unpacked_ranges") ≡ some unpacked
      → offsets_from (d ∷ ds) (length packed) (length unpacked) ≡ some os
      → offsets_from (d ∷ ds) 0 (length packed) ≡ some os'
      → unpacked ++ packed ≡ ranges_of ys ++ d_range ∷ []
      → os ++ os' ≡ lows_of ys ++ o ∷ []
      → AreRows ys
      → range_size d_range ≡ some w
      → 1 ≤ w
      → size_of_wire wire_range ≡ product_of ys * (w * e)
      → get_ranges (children id) ≡ access_ranges env yosys (indices ys (w * e)) last
      → range_bounds true (children last) ≡ some (l, r)
      → SelectsRange
          ((row_major env yosys 0 ys * w + index_at env yosys o r) * e % u32_mod)
          (width_of env yosys (index_at env yosys o l) (index_at env yosys o r) e)
          (convert_range yosys current_scope wiretype_of id)
  unfolding convert_range converted with_range wire_access skipped both_offsets with_offsets
  convert_range-SelectsRange current_scope wiretype_of id wire wire_range d_range last l r d ds
        packed unpacked os os' ys w e o hs ht hd hf hp hu ho ho' hr hl rows h hw total gets bounds =
      subst
        (SelectsRange ((row_major env yosys 0 ys * w + index_at env yosys o r) * e % u32_mod)
          (width_of env yosys (index_at env yosys o l) (index_at env yosys o r) e))
        (sym (
          assert_children-ranges (indices ys (w * e)) last (children id) _ gets
          ∙ ap (converted yosys wiretype_of id) hs
          ∙ ap
              (λ t.
                with_range yosys (fields wire).dimensions (first (children wire))
                  (skipped t (length (fields wire).dimensions) (size (children id)))
                  (attribute_children wire (codes "$synlig$packed_ranges"))
                  (attribute_children wire (codes "$synlig$unpacked_ranges"))
                  (get_ranges (children id)))
              ht
          ∙ ap₂
              (λ ds' range.
                with_range yosys ds' range (some 0)
                  (attribute_children wire (codes "$synlig$packed_ranges"))
                  (attribute_children wire (codes "$synlig$unpacked_ranges"))
                  (get_ranges (children id)))
              hd hf
          ∙ ap₂
              (λ p u.
                wire_access yosys (d ∷ ds) (size_of_wire wire_range) (some 0) p u
                  (get_ranges (children id)))
              hp hu
          ∙ if_true (leb 0 (length packed)) _ none (zero_leb (length packed))
          ∙ ap₂
              (λ a b.
                with_offsets yosys (size_of_wire wire_range) (unpacked ++ packed)
                  (both_offsets yosys a b) (get_ranges (children id)))
              ho (ap (offsets_from (d ∷ ds) 0) {x = length packed - 0} (omega arith) ∙ ho')
          ∙ ap₂
              (λ rs lows.
                access_range yosys (size_of_wire wire_range) rs lows (get_ranges (children id)))
              hr hl
          ∙ ap₂
              (λ total_size gets'.
                access_range yosys total_size (ranges_of ys ++ d_range ∷ []) (lows_of ys ++ o ∷ [])
                  gets')
              total gets))
        (access_range-SelectsRange ys w e o d_range last l r rows h hw
          (small_size wire_range _ total) bounds)
