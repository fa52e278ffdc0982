-- ===== src/Select/Value.antt =====
-- What the nodes of a select evaluate to, and where an element stands in row-major order.
use synlig.Common.{
  ℕ, ◌<◌, ◌%◌, ◌≡◌, Bool, true, false, ◌==◌, if◌then◌else◌, refl, sym, ap, ==_iff, if_elim, ◌∙◌,
  arith,
}
use mathlib.Core.Path.{subst}
use synlig.Common.Word
use synlig.Common.Word.{add32, sub32, mul32, to_u32, u32_mod}
use synlig.Common.Int.{pos, ◌-ℤ◌}
use synlig.Ast.{
  AstNode, Dimension, node, nil, cons, integer, type, ast_add, ast_sub, ast_mul, ast_constant,
}
use synlig.Select.{binary, is_constant, constant_index, constant, index_node, flush, Walk}
use synlig.Yosys.{Yosys}

module _ (env : AstNode → ℕ) where
  -- The value of an expression of 32 unsigned bits, where `env` gives the value of what is not one
  -- of the operators that a select uses.
  unfoldable pub eval : AstNode → ℕ
  eval (node ast_add f (cons a (cons b nil)) as') = add32 (eval a) (eval b)
  eval (node ast_sub f (cons a (cons b nil)) as') = sub32 (eval a) (eval b)
  eval (node ast_mul f (cons a (cons b nil)) as') = mul32 (eval a) (eval b)
  eval (node ast_constant f cs as') = f.integer % u32_mod
  eval n = env n % u32_mod

  pub eval-lt : (n : AstNode) → eval n < u32_mod
  unfolding eval
  eval-lt (node ast_add f (cons a (cons b nil)) as') = Word.add32-lt (eval a) (eval b)
  eval-lt (node ast_sub f (cons a (cons b nil)) as') = Word.sub32-lt (eval a) (eval b)
  eval-lt (node ast_mul f (cons a (cons b nil)) as') = Word.mul32-lt (eval a) (eval b)
  eval-lt (node ast_constant f cs as') = omega arith
  eval-lt n = omega arith

  pub eval-is_constant : (n : AstNode) → is_constant n ≡ true → eval n ≡ integer n % u32_mod
  unfolding eval is_constant
  eval-is_constant (node ast_constant f cs as') h = refl
  eval-is_constant _ h = cc

  eval-type : (n : AstNode) → type n ≡ ast_constant → eval n ≡ integer n % u32_mod
  unfolding eval
  eval-type (node t f cs as') h =
      subst (λ u. eval (node u f cs as') ≡ f.integer % u32_mod) (sym h) refl

  module _ (yosys : Yosys) where
    open yosys use {mkconst_int, mkconst_int_type, mkconst_int_integer}

    pub eval-constant : (v : ℕ) → v < u32_mod → eval (constant yosys v) ≡ v
    eval-constant v h =
        eval-type (constant yosys v) (mkconst_int_type v false 32)
        ∙ ap (λ x. x % u32_mod) (mkconst_int_integer v false 32 h)
        ∙ (omega arith)

    offset_node : Dimension → AstNode → AstNode
    offset_node d n = binary ast_sub n (constant yosys (to_u32 d.range_right))

    eval-offset_node :
        (d : Dimension) (n : AstNode)
        → eval (offset_node d n) ≡ sub32 (eval n) (to_u32 d.range_right)
    unfolding eval offset_node
    eval-offset_node d n =
        ap (λ x. sub32 (eval n) x)
          (eval-constant (to_u32 d.range_right) (Word.to_u32-lt d.range_right))

    eval-swapped_node :
        (d : Dimension) (n : AstNode)
        → eval (binary ast_sub (constant yosys (to_u32 (d.range_width -ℤ pos 1))) (offset_node d n))
          ≡ sub32 (sub32 (to_u32 d.range_width) (sub32 (eval n) (to_u32 d.range_right))) 1
    unfolding eval
    eval-swapped_node d n =
        let w = to_u32 d.range_width in
        let o = sub32 (eval n) (to_u32 d.range_right) in
        ap (λ x. sub32 x (eval (offset_node d n)))
          (eval-constant (to_u32 (d.range_width -ℤ pos 1))
            (Word.to_u32-lt (d.range_width -ℤ pos 1)))
        ∙ ap (λ x. sub32 (to_u32 (d.range_width -ℤ pos 1)) x) (eval-offset_node d n)
        ∙ ap (λ x. sub32 x o) (Word.to_u32_pred d.range_width)
        ∙ Word.sub32_right_comm w 1 o (Word.to_u32-lt d.range_width) (omega arith)
            (Word.sub32-lt (eval n) (to_u32 d.range_right))

    pub eval_if :
        (b : Bool) (m n : AstNode) (x y : ℕ)
        → eval m ≡ x
        → eval n ≡ y
        → eval (if b then m else n) ≡ (if b then x else y)
    eval_if true m n x y hx hy = hx
    eval_if false m n x y hx hy = hy

    -- The index as a node has the value of the index.
    pub eval-index_node :
        (d : Dimension) (n : AstNode) → eval (index_node yosys d n) ≡ constant_index d (eval n)
    unfolding index_node constant_index offset_node
    eval-index_node d n =
        eval_if d.range_swapped
          (binary ast_sub (constant yosys (to_u32 (d.range_width -ℤ pos 1))) (offset_node d n))
          (offset_node d n) _ _ (eval-swapped_node d n) (eval-offset_node d n)

    eval_add :
        (r : AstNode) (v : ℕ)
        → v < u32_mod
        → eval (binary ast_add r (constant yosys v)) ≡ add32 (eval r) v
    unfolding eval
    eval_add r v h = ap (λ x. add32 (eval r) x) (eval-constant v h)

    pub eval-flush :
        (w : Walk)
        → w.right_offset < u32_mod
        → eval (flush yosys w) ≡ add32 (eval w.right_node) w.right_offset
    unfolding flush
    eval-flush w h =
        let r = w.right_node in
        let v = w.right_offset in
        if_elim (λ n. eval n ≡ add32 (eval r) v) (v == 0) r (binary ast_add r (constant yosys v))
          (λ z.
            sym (Word.add32-zero (eval r) (eval-lt r))
            ∙ ap (λ x. add32 (eval r) x) (sym ((==_iff v 0).0 z)))
          (λ _. eval_add r v h)

    -- An index, scaled by the size of what one step of it spans.
    pub eval_scaled :
        (d : Dimension) (n : AstNode) (size : ℕ)
        → size < u32_mod
        → eval (binary ast_mul (index_node yosys d n) (constant yosys size))
          ≡ mul32 (constant_index d (eval n)) size
    unfolding eval
    eval_scaled d n size h =
        ap (λ x. mul32 (eval (index_node yosys d n)) x) (eval-constant size h)
        ∙ ap (λ x. mul32 x size) (eval-index_node d n)
