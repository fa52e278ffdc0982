-- ===== src/Select/Position.antt =====
-- The loop of `traverse_dimensions` adds up the position of the selected element.
use synlig.Common.{
  ℕ, ◌<◌, ◌%◌, ◌≡◌, true, false, List, [], ◌∷◌, if◌then◌else◌, sym, ap, ◌∙◌, if_elim, arith,
}
use synlig.Common.Word
use synlig.Common.Word.{add32, sub32, mul32, to_u32, u32_mod}
use synlig.Ast.{AstNode, Dimension, integer, ast_add, ast_mul}
use synlig.Select.{
  is_constant, constant_index, Walk, step, suffix_sizes, binary, constant, index_node, flush,
}
use synlig.Select.Value
use synlig.Select.Value.{eval}
use synlig.Yosys.{Yosys}

pub constant_index-mod :
    (d : Dimension) (v : ℕ) → constant_index d (v % u32_mod) ≡ constant_index d v
unfolding constant_index
constant_index-mod d v =
    ap (λ o. if d.range_swapped then sub32 (sub32 (to_u32 d.range_width) o) 1 else o)
      (Word.sub32-mod_left v (to_u32 d.range_right) (Word.to_u32-lt d.range_right))

pub constant_index-lt : (d : Dimension) (v : ℕ) → constant_index d v < u32_mod
unfolding constant_index
constant_index-lt d v =
    if_elim (λ x. x < u32_mod) d.range_swapped _ _ (λ _. Word.sub32-lt _ _) (λ _. Word.sub32-lt _ _)

pub suffix_sizes-lt : (ds : List Dimension) → (suffix_sizes ds).1 < u32_mod
unfolding suffix_sizes
suffix_sizes-lt [] = omega arith
suffix_sizes-lt (d ∷ ds) = Word.mul32-lt (suffix_sizes ds).1 (to_u32 d.range_width)

module _ (env : AstNode → ℕ) (yosys : Yosys) where
  -- The offset so far, as a node and a number.
  unfoldable pub offset_at : Walk → ℕ
  offset_at w = add32 (eval env w.right_node) w.right_offset

  -- The node holds nothing until an index is variable.
  unfoldable pub IsWalk : Walk → Type 0
  IsWalk w =
      (w.right_offset < u32_mod) × (w.is_variable_indexed ≡ false → eval env w.right_node ≡ 0)

  pub constant_index-eval :
      (d : Dimension) (n : AstNode)
      → is_constant n ≡ true
      → constant_index d (integer n) ≡ constant_index d (eval env n)
  constant_index-eval d n h =
      sym (constant_index-mod d (integer n))
      ∙ ap (constant_index d) (sym (Value.eval-is_constant env n h))

  variable_round :
      (d : Dimension) (size : ℕ) (n : AstNode) (w : Walk)
      → size < u32_mod
      → IsWalk w
      → add32
          (eval env (
            binary ast_add
              (binary ast_mul (index_node yosys d n) (constant yosys size))
              (flush yosys w)))
          0
        ≡ add32 (offset_at w) (mul32 (constant_index d (eval env n)) size)
  unfolding offset_at IsWalk eval
  variable_round d size n w hs hw =
      Word.add32-zero _ (Word.add32-lt _ _)
      ∙ Word.add32_comm _ _
      ∙ ap (λ x. add32 x (eval env (binary ast_mul (index_node yosys d n) (constant yosys size))))
          (Value.eval-flush env yosys w hw.0)
      ∙ ap (λ x. add32 (offset_at w) x) (Value.eval_scaled env yosys d n size hs)

  pub constant_round :
      (d : Dimension) (size : ℕ) (n : AstNode) (w : Walk)
      → is_constant n ≡ true
      → add32
          (eval env w.right_node)
          (add32 w.right_offset (mul32 (constant_index d (integer n)) size))
        ≡ add32 (offset_at w) (mul32 (constant_index d (eval env n)) size)
  unfolding offset_at
  constant_round d size n w h =
      sym (Word.add32_assoc (eval env w.right_node) w.right_offset _)
      ∙ ap (λ x. add32 (offset_at w) (mul32 x size)) (constant_index-eval d n h)

  -- A round adds the index, scaled by the size of what one step of it spans.
  pub offset_at-step :
      (d : Dimension) (size : ℕ) (n : AstNode) (w : Walk)
      → size < u32_mod
      → IsWalk w
      → offset_at (step yosys d size n w)
        ≡ add32 (offset_at w) (mul32 (constant_index d (eval env n)) size)
  unfolding step offset_at
  offset_at-step d size n w hs hw =
      if_elim (λ v. offset_at v ≡ add32 (offset_at w) (mul32 (constant_index d (eval env n)) size))
        (is_constant n) _ _ (λ h. constant_round d size n w h)
        (λ _. variable_round d size n w hs hw)

  pub step-IsWalk :
      (d : Dimension) (size : ℕ) (n : AstNode) (w : Walk)
      → IsWalk w
      → IsWalk (step yosys d size n w)
  unfolding step IsWalk
  step-IsWalk d size n w hw =
      if_elim IsWalk (is_constant n) _ _ (λ _. (Word.add32-lt _ _, hw.1))
        (λ _. (omega arith, λ h. cc))

  -- The row-major position of an element: each dimension scales what stands before it by its width.
  unfoldable pub position : ℕ → List (Dimension × AstNode) → ℕ
  position acc [] = acc
  position acc ((d, n) ∷ xs) =
      position (add32 (mul32 acc (to_u32 d.range_width)) (constant_index d (eval env n))) xs

  pub advance :
      (d : Dimension) (size : ℕ) (n : AstNode) (w : Walk) (acc : ℕ)
      → size < u32_mod
      → IsWalk w
      → offset_at w ≡ mul32 acc (mul32 size (to_u32 d.range_width))
      → offset_at (step yosys d size n w)
        ≡ mul32 (add32 (mul32 acc (to_u32 d.range_width)) (constant_index d (eval env n))) size
  advance d size n w acc hs hw h =
      let v = constant_index d (eval env n) in
      let width = to_u32 d.range_width in
      offset_at-step d size n w hs hw
      ∙ ap (λ x. add32 x (mul32 v size)) (h ∙ ap (mul32 acc) (Word.mul32_comm size width))
      ∙ ap (λ x. add32 x (mul32 v size)) (sym (Word.mul32_assoc acc width size))
      ∙ sym (Word.mul32-add32 (mul32 acc width) v size)

  -- A position of the last dimension, whose elements are not divided.
  abbrev pub in_row : List (Dimension × AstNode) → Dimension → ℕ → ℕ
  in_row xs d v = add32 (mul32 (position 0 xs) (to_u32 d.range_width)) v

  pub last_round :
      (xs : List (Dimension × AstNode)) (d : Dimension) (v : ℕ) (w : Walk)
      → v < u32_mod
      → offset_at w ≡ mul32 (position 0 xs) (mul32 1 (to_u32 d.range_width))
      → add32 (offset_at w) (mul32 v 1) ≡ in_row xs d v
  last_round xs d v w hv h =
      ap (λ x. add32 (offset_at w) x) (Word.mul32_comm v 1 ∙ Word.mul32-one v hv)
      ∙ ap (λ x. add32 x v) h
      ∙ ap (λ x. add32 (mul32 (position 0 xs) x) v)
          (Word.mul32-one (to_u32 d.range_width) (Word.to_u32-lt d.range_width))
