-- ===== src/Wire/Access.antt =====
-- What the nodes of `convert_range` evaluate to, for an access whose ranges but the last have one
-- index.
use synlig.Common.{
  ℕ, zero, suc, ◌<◌, ◌≡◌, true, List, [], ◌∷◌, ◌++◌, Option, none, some, refl, sym, ap, ◌∙◌, arith,
}
use mathlib.Core.Path.{ap₂, subst, subst₂}
use synlig.Common.Int.{ℤ, pos, negsuc}
use synlig.Common.Word
use synlig.Common.Word.{add32, sub32, mul32, to_u32, u32_mod}
use synlig.Ast.{AstNode, children, ast_mul}
use synlig.Select.{binary, constant}
use synlig.Select.Access.{index_range}
use synlig.Select.Value
use synlig.Select.Value.{eval}
use synlig.Wire.{less_offset, low_end, add_range, add_ranges, range_bounds, on_bounds, single_size}
use synlig.Yosys.{Yosys}

-- A range of an access: the size of its element, the low end of its dimension, and its index.
abbrev pub Index : Type 0
Index = ℕ × ℤ × AstNode

unfoldable pub sizes_of : List Index → List ℕ
sizes_of [] = []
sizes_of ((s, o, n) ∷ xs) = s ∷ sizes_of xs

unfoldable pub offsets_of : List Index → List ℤ
offsets_of [] = []
offsets_of ((s, o, n) ∷ xs) = o ∷ offsets_of xs

unfoldable pub AllSmall : List Index → Type 0
AllSmall [] = Unit
AllSmall ((s, o, n) ∷ xs) = (s < u32_mod) × AllSmall xs

module _ (env : AstNode → ℕ) (yosys : Yosys) where
  -- An index, counted from the low end of its dimension.
  unfoldable pub index_at : ℤ → AstNode → ℕ
  index_at o n = sub32 (eval env n) (to_u32 o)

  pub eval-less_offset :
      (o : ℤ) (os : List ℤ) (n : AstNode) → eval env (less_offset yosys (o ∷ os) n) ≡ index_at o n
  unfolding less_offset index_at eval to_u32
  eval-less_offset (pos zero) os n = sym (Word.sub32-zero (eval env n) (Value.eval-lt env n))
  eval-less_offset (pos (suc k)) os n =
      ap (λ x. sub32 (eval env n) x)
        (Value.eval-constant env yosys (to_u32 (pos (suc k))) (Word.to_u32-lt (pos (suc k))))
  eval-less_offset (negsuc k) os n =
      ap (λ x. sub32 (eval env n) x)
        (Value.eval-constant env yosys (to_u32 (negsuc k)) (Word.to_u32-lt (negsuc k)))

  -- The low end so far.
  unfoldable pub low_of : Option (AstNode × AstNode) → ℕ
  low_of none = 0
  low_of (some (l, r)) = eval env r

  eval-scaled :
      (n : AstNode) (s : ℕ)
      → s < u32_mod
      → eval env (binary ast_mul n (constant yosys s)) ≡ mul32 (eval env n) s
  unfolding eval
  eval-scaled n s h = ap (λ x. mul32 (eval env n) x) (Value.eval-constant env yosys s h)

  eval-low_end :
      (result : Option (AstNode × AstNode)) (n : AstNode)
      → eval env (low_end yosys result n) ≡ add32 (low_of result) (eval env n)
  unfolding low_end eval low_of
  eval-low_end none n = sym (Word.zero-add32 (eval env n) (Value.eval-lt env n))
  eval-low_end (some (l, r)) n = refl

  -- From the low end, a range has the bits of its elements from `r` to `l`.
  unfoldable pub width_of : ℕ → ℕ → ℕ → ℕ
  width_of l r s = mul32 (add32 (sub32 l r) 1) s

  eval-low :
      (result : Option (AstNode × AstNode)) (left right : AstNode) (s : ℕ)
      → s < u32_mod
      → eval env (add_range yosys result left right s).1
        ≡ add32 (low_of result) (mul32 (eval env right) s)
  unfolding add_range
  eval-low result left right s h =
      eval-low_end result (binary ast_mul right (constant yosys s))
      ∙ ap (add32 (low_of result)) (eval-scaled right s h)

  eval-high :
      (result : Option (AstNode × AstNode)) (left right : AstNode) (s : ℕ)
      → s < u32_mod
      → eval env (add_range yosys result left right s).0
        ≡ add32
            (eval env (add_range yosys result left right s).1)
            (sub32 (width_of (eval env left) (eval env right) s) 1)
  unfolding add_range eval width_of
  eval-high result left right s h =
      let one = Value.eval-constant env yosys 1 (omega arith) in
      let l = eval env left in
      let r = eval env right in
      ap (add32 (eval env (add_range yosys result left right s).1)) (
        ap₂
          (λ x y.
            sub32
              (sub32 (mul32 (add32 l x) (eval env (constant yosys s)))
                (mul32 r (eval env (constant yosys s))))
              y)
          one one
        ∙ ap (λ x. sub32 (sub32 (mul32 (add32 l 1) x) (mul32 r x)) 1)
            (Value.eval-constant env yosys s h)
        ∙ ap (λ x. sub32 x 1)
            (sym (Word.mul32-sub32 (add32 l 1) r s (Word.add32-lt l 1) (Value.eval-lt env right))
              ∙ ap (λ x. mul32 x s)
                  (Word.sub32-add32_one l r (Value.eval-lt env left) (Value.eval-lt env right))))

  -- The position that indices add up to.
  unfoldable pub offset_after : ℕ → List Index → ℕ
  offset_after acc [] = acc
  offset_after acc ((s, o, n) ∷ xs) = offset_after (add32 acc (mul32 (index_at o n) s)) xs

  unfoldable pub access_ranges : List Index → AstNode → List AstNode
  access_ranges [] last = last ∷ []
  access_ranges ((s, o, n) ∷ xs) last = index_range n ∷ access_ranges xs last

  -- A pair of bounds has a low end and the width from there to its high end.
  unfoldable pub Spans : ℕ → ℕ → Option (Option (AstNode × AstNode)) → Type 0
  Spans low width (some (some (l, r))) =
      (eval env r ≡ low) × (eval env l ≡ add32 low (sub32 width 1))
  Spans low width _ = ⊥

  width_of-span :
      (r : Option (AstNode × AstNode)) (left right : AstNode) (s : ℕ)
      → s < u32_mod
      → Spans
          (add32 (low_of r) (mul32 (eval env right) s))
          (width_of (eval env left) (eval env right) s)
          (some (some (add_range yosys r left right s)))
  unfolding Spans
  width_of-span r left right s h =
      let low = eval-low r left right s h in
      (
        low,
        eval-high r left right s h
            ∙ ap (λ x. add32 x (sub32 (width_of (eval env left) (eval env right) s) 1)) low,
      )

  -- The ranges of an access add up to the bits of the last range, which may have two indices, at the
  -- position of the others.
  pub add_ranges-Spans :
      (all : List ℕ) (xs : List Index) (s : ℕ) (o : ℤ) (last l r : AstNode) (more : List ℕ)
      (others : List ℤ) (result : Option (AstNode × AstNode))
      → AllSmall xs
      → s < u32_mod
      → range_bounds true (children last) ≡ some (l, r)
      → Spans
          (add32 (offset_after (low_of result) xs) (mul32 (index_at o r) s))
          (width_of (index_at o l) (index_at o r) s)
          (add_ranges yosys all result
            (access_ranges xs last)
            (sizes_of xs ++ s ∷ more)
            (offsets_of xs ++ o ∷ others))
  unfolding add_ranges access_ranges offset_after sizes_of offsets_of AllSmall single_size
      range_bounds low_of
  add_ranges-Spans all [] s o last l r more others result small h e =
      subst
        (λ b.
          Spans (add32 (low_of result) (mul32 (index_at o r) s))
            (width_of (index_at o l) (index_at o r) s)
            (on_bounds b (λ left right. some (
              some (
                add_range yosys result (less_offset yosys (o ∷ others) left)
                  (less_offset yosys (o ∷ others) right) s)))))
        (sym e)
        (subst₂
          (λ x y. Spans (add32 (low_of result) (mul32 y s)) (width_of x y s) (
            some (
              some (
                add_range yosys result (less_offset yosys (o ∷ others) l)
                  (less_offset yosys (o ∷ others) r) s))))
          (eval-less_offset o others l) (eval-less_offset o others r)
          (width_of-span result _ _ s h))
  add_ranges-Spans all ((s', o', n) ∷ xs) s o last l r more others result (h', small) h e =
      let next = some (
        add_range yosys result (less_offset yosys (o' ∷ offsets_of xs ++ o ∷ others) n)
          (less_offset yosys (o' ∷ offsets_of xs ++ o ∷ others) n) s') in
      subst
        (λ v.
          Spans (add32 (offset_after v xs) (mul32 (index_at o r) s))
            (width_of (index_at o l) (index_at o r) s)
            (add_ranges yosys all next (access_ranges xs last) (sizes_of xs ++ s ∷ more)
              (offsets_of xs ++ o ∷ others)))
        (eval-low result _ _ s' h'
          ∙ ap (λ x. add32 (low_of result) (mul32 x s')) (eval-less_offset o' _ n))
        (add_ranges-Spans all xs s o last l r more others next small h e)
