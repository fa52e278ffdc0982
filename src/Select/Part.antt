-- ===== src/Select/Part.antt =====
-- `traverse_dimensions` where the last select has two indices.
use synlig.Common.{
  ℕ, ◌<◌, ◌≡◌, Bool, true, false, ◌&&◌, not, and_true_left, and_true_right, false_of_not, List, ltb,
  if◌then◌else◌, refl, sym, ap, ◌∙◌, if_elim, some, arith,
}
use mathlib.Core.Path.{subst, ap₂}
use synlig.Common.Word
use synlig.Common.Word.{add32, sub32, mul32, to_u32, u32_mod}
use synlig.Ast.{
  AstNode, Dimension, node, cons, nil, empty, new_fields, integer, ast_range, ast_add, ast_sub,
  ast_mul,
}
use synlig.Select.{
  Walk, constant_index, constant, binary, index_node, last_select, last_range, traverse_dimensions,
  is_constant,
}
use synlig.Select.Value
use synlig.Select.Value.{eval}
use synlig.Select.Position
use synlig.Select.Position.{offset_at, IsWalk, position, in_row}
use synlig.Select.Access
use synlig.Select.Access.{Ends, IsWidth, Selects, dimensions_of, ranges_of, any_variable}
use synlig.Yosys.{Yosys}

abbrev pub part_range : AstNode → AstNode → AstNode
part_range l r = node ast_range new_fields (cons l (cons r nil)) empty

-- The ends of a part select: the right index is the low end, but for a dimension that counts up.
abbrev pub low_end : Bool → ℕ → ℕ → ℕ
low_end swapped l r = if swapped then l else r

abbrev pub high_end : Bool → ℕ → ℕ → ℕ
high_end swapped l r = if swapped then r else l

abbrev pub least : ℕ → ℕ → ℕ
least a b = if ltb b a then b else a

abbrev pub greatest : ℕ → ℕ → ℕ
greatest a b = if ltb a b then b else a

module _ (env : AstNode → ℕ) (yosys : Yosys) where
  -- The ends of the selected part of dimension `d`: where all indices are constant, the lower and the
  -- higher one; else the order of the two counts.
  abbrev pub low_of : Bool → Dimension → AstNode → AstNode → ℕ
  low_of all_constant d l r =
      let left = constant_index d (eval env l) in
      let right = constant_index d (eval env r) in
      if all_constant then least left right else low_end d.range_swapped left right

  abbrev pub high_of : Bool → Dimension → AstNode → AstNode → ℕ
  high_of all_constant d l r =
      let left = constant_index d (eval env l) in
      let right = constant_index d (eval env r) in
      if all_constant then greatest left right else high_end d.range_swapped left right

  abbrev pub part_width : Bool → Dimension → AstNode → AstNode → ℕ
  part_width all_constant d l r =
      add32 (sub32 (high_of all_constant d l r) (low_of all_constant d l r)) 1

  low_of-lt : (c : Bool) (d : Dimension) (l r : AstNode) → low_of c d l r < u32_mod
  low_of-lt true d l r =
      if_elim (λ v. v < u32_mod) (ltb (constant_index d (eval env r)) _) _ _
        (λ _. Position.constant_index-lt d _) (λ _. Position.constant_index-lt d _)
  low_of-lt false d l r =
      if_elim (λ v. v < u32_mod) d.range_swapped _ _ (λ _. Position.constant_index-lt d _)
        (λ _. Position.constant_index-lt d _)

  eval-left :
      (d : Dimension) (l r : AstNode)
      → eval env (if d.range_swapped then index_node yosys d r else index_node yosys d l)
        ≡ high_of false d l r
  eval-left d l r =
      Value.eval_if env yosys d.range_swapped _ _ _ _ (Value.eval-index_node env yosys d r)
        (Value.eval-index_node env yosys d l)

  eval-right :
      (d : Dimension) (l r : AstNode)
      → eval env (if d.range_swapped then index_node yosys d l else index_node yosys d r)
        ≡ low_of false d l r
  eval-right d l r =
      Value.eval_if env yosys d.range_swapped _ _ _ _ (Value.eval-index_node env yosys d l)
        (Value.eval-index_node env yosys d r)

  variable_part :
      (w : Walk) (n : AstNode) (v : ℕ)
      → eval env n ≡ v
      → add32
          (eval env (binary ast_add w.right_node (binary ast_mul n (constant yosys 1))))
          w.right_offset
        ≡ add32 (offset_at env yosys w) (mul32 v 1)
  unfolding eval offset_at
  variable_part w n v h =
      Word.add32_right_comm _ _ _
      ∙ ap (λ x. add32 (offset_at env yosys w) (mul32 (eval env n) x))
          (Value.eval-constant env yosys 1 (omega arith))
      ∙ ap (λ x. add32 (offset_at env yosys w) (mul32 x 1)) h

  width_of :
      (left right : AstNode) (high low : ℕ)
      → eval env left ≡ high
      → eval env right ≡ low
      → eval env (
          binary ast_mul
            (constant yosys 1)
            (binary ast_add (constant yosys 1) (binary ast_sub left right)))
        ≡ add32 (sub32 high low) 1
  unfolding eval
  width_of left right high low hl hr =
      let one = Value.eval-constant env yosys 1 (omega arith) in
      ap (λ x. mul32 x (add32 x (sub32 (eval env left) (eval env right)))) one
      ∙ Word.mul32-one _ (Word.add32-lt _ _)
      ∙ Word.add32_comm _ _
      ∙ ap (λ x. add32 (sub32 x (eval env right)) 1) hl
      ∙ ap (λ x. add32 (sub32 high x) 1) hr

  constant_ends :
      (d : Dimension) (l r : AstNode)
      → is_constant l ≡ true
      → is_constant r ≡ true
      → (least (constant_index d (integer l)) (constant_index d (integer r)) ≡ low_of true d l r)
        × (greatest (constant_index d (integer l)) (constant_index d (integer r))
            ≡ high_of true d l r)
  constant_ends d l r hl hr =
      let el = Position.constant_index-eval env yosys d l hl in
      let er = Position.constant_index-eval env yosys d r hr in
      (ap₂ least el er, ap₂ greatest el er)

  -- Whether the last range of a walk is read as two constants.
  abbrev are_constants : AstNode → AstNode → Bool → Bool
  are_constants l r is_variable_indexed =
      (is_constant l && is_constant r) && not is_variable_indexed

  last_range-Ends :
      (xs : List (Dimension × AstNode)) (d : Dimension) (l r : AstNode) (w : Walk)
      → IsWalk env yosys w
      → offset_at env yosys w ≡ mul32 (position env yosys 0 xs) (mul32 1 (to_u32 d.range_width))
      → let c = are_constants l r w.is_variable_indexed in
        Ends env yosys
          (in_row env yosys xs d (low_of c d l r))
          (part_width c d l r)
          (some (last_range yosys d 1 l r w))
  unfolding Ends last_range IsWidth IsWalk offset_at
  last_range-Ends xs d l r w hw h =
      let c = are_constants l r w.is_variable_indexed in
      let low = low_of c d l r in
      let total = Position.last_round env yosys xs d low w (low_of-lt c d l r) h in
      if_elim (λ p. Ends env yosys (in_row env yosys xs d low) (part_width c d l r) (some p)) c _ _
        (λ b.
          let both = and_true_left (is_constant l && is_constant r) (not w.is_variable_indexed) b in
          let ends =
            constant_ends d l r (and_true_left (is_constant l) (is_constant r) both)
              (and_true_right (is_constant l) (is_constant r) both) in
          let low_end' = ends.0 ∙ ap (λ x. low_of x d l r) (sym b) in
          let high_end' = ends.1 ∙ ap (λ x. high_of x d l r) (sym b) in
          (
            (Word.add32-lt _ _, hw.1),
            sym (Word.add32_assoc (eval env w.right_node) w.right_offset _)
                ∙ ap (λ x. add32 (offset_at env yosys w) (mul32 x 1)) low_end'
                ∙ total,
            (
              false_of_not _ (and_true_right (is_constant l && is_constant r) _ b),
              Word.mul32-one _ (Word.add32-lt _ _)
                  ∙ ap₂ (λ x y. add32 (sub32 x y) 1) high_end' low_end',
            ),
          ))
        (λ b. (
          (hw.0, λ f. cc),
          variable_part w _ low (eval-right d l r ∙ ap (λ x. low_of x d l r) (sym b)) ∙ total,
          (
            refl,
            width_of _ _ _ _ (eval-left d l r ∙ ap (λ x. high_of x d l r) (sym b))
                (eval-right d l r ∙ ap (λ x. low_of x d l r) (sym b)),
          ),
        ))

  -- A select whose last range has two indices has the offset of its low end and the width from there to
  -- its high end, both in units of the substructure. Where all indices are constant, the two ends are the
  -- lower and the higher index, in whatever order they are written. Else the code takes the right one for
  -- the low end, but the left one for a dimension that counts up, even where that is the higher one.
  pub traverse_dimensions-Selects_part :
      (xs : List (Dimension × AstNode)) (d : Dimension) (l r : AstNode) (sub : ℕ)
      → sub < u32_mod
      → let c = (is_constant l && is_constant r) && not (any_variable false xs) in
        Selects env yosys
          (mul32 (in_row env yosys xs d (low_of c d l r)) sub)
          (mul32 (part_width c d l r) sub)
          (traverse_dimensions yosys (dimensions_of xs d) (ranges_of xs (part_range l r)) sub true)
  unfolding last_select
  traverse_dimensions-Selects_part xs d l r sub hs =
      let c = are_constants l r (any_variable false xs) in
      Access.traverse_dimensions-Ends env yosys xs d (part_range l r) true sub
        (in_row env yosys xs d (low_of c d l r)) (part_width c d l r) hs
        (λ w hw h v.
          subst
            (λ b.
              Ends env yosys (in_row env yosys xs d (low_of (are_constants l r b) d l r))
                (part_width (are_constants l r b) d l r) (some (last_range yosys d 1 l r w)))
            v (last_range-Ends xs d l r w hw h))
