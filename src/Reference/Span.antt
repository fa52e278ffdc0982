-- ===== src/Reference/Span.antt =====
-- The bits that an indexed part select names.
use mathlib.Core.Path.{ap₂}
use synlig.Common.{
  ℕ, ◌+◌, ◌-◌, ◌%◌, ◌≤◌, ◌<◌, ◌≡◌, Bool, true, false, [], ◌∷◌, some, refl, ap, ◌∙◌, arith,
}
use synlig.Common.Modulo
use synlig.Common.Text.{Text}
use synlig.Ast.{AstNode, node, nil, cons, of_list, ast_range}
use synlig.Loop.{make_ast_node}
use synlig.Operation.Meaning.{value, operate_unary, modulus}
use synlig.Reference.{
  identifier, bounds, all_bounds, ascending_range, descending_range, indexed_of, flatten, last_of,
  plain_node, process_indexed_part_select,
}
use synlig.Statement.Loops.{all_present}
use synlig.Vpi.{Vpi, visit_one_to_one, vpi_width_expr, vpi_base_expr}
use synlig.Yosys.{Yosys}

plus_zero : (x m : ℕ) → x < m → (x + 0) % m ≡ x
plus_zero x m h = ap (λ k. k % m) (omega arith) ∙ Modulo.mod_less x m h

-- The bits of `[b +: w]` and of `[b -: w]`, and when they are numbers of the word.
unfoldable pub Fits : ℕ → Bool → ℕ → ℕ → Type 0
Fits m true b w = b + w ≤ m
Fits m false b w = w ≤ b + 1

unfoldable pub high_bit : Bool → ℕ → ℕ → ℕ
high_bit true b w = b + w - 1
high_bit false b w = b

unfoldable pub low_bit : Bool → ℕ → ℕ → ℕ
low_bit true b w = b
low_bit false b w = b + 1 - w

module _ (width : ℕ) (env : AstNode → ℕ) where
  -- A node selects the bits from `low` to `high` of a name.
  unfoldable pub SelectsBits : ℕ → ℕ → AstNode → Type 0
  SelectsBits high low (node t f (cons (node ast_range g (cons l (cons r nil)) bs) nil) as') =
      (value width env l ≡ high) × (value width env r ≡ low)
  SelectsBits high low _ = ⊥

  module _ (yosys : Yosys) (obj_name : Text) where
    open yosys use {mkconst_int}

    bounds-SelectsBits :
        (is_pos : Bool) (b w : AstNode)
        → value width env (mkconst_int 1 false 32) ≡ 1
        → value width env (mkconst_int 0 false 32) ≡ 0
        → value width env b < modulus width
        → 1 ≤ value width env w
        → value width env w < modulus width
        → Fits (modulus width) is_pos (value width env b) (value width env w)
        → SelectsBits
            (high_bit is_pos (value width env b) (value width env w))
            (low_bit is_pos (value width env b) (value width env w))
            (identifier yosys obj_name
              (plain_node ast_range (of_list (bounds yosys obj_name is_pos b w)) ∷ []))
    unfolding SelectsBits bounds ascending_range descending_range value operate_unary make_ast_node
        Fits high_bit low_bit
    bounds-SelectsBits true b w one zero hb hw1 hw le =
        let m = modulus width in
        let x = value width env b in
        let y = value width env w in
        (
          ap (λ k. ((x + y) % m + m - k) % m) one
              ∙ Modulo.mod_take (x + y) 1 m (omega arith) (omega arith) le,
          ap (λ k. (x + k) % m) zero ∙ plus_zero x m hb,
        )
    bounds-SelectsBits false b w one zero hb hw1 hw le =
        let m = modulus width in
        let x = value width env b in
        let y = value width env w in
        (
          ap (λ k. (x + k) % m) zero ∙ plus_zero x m hb,
          ap (λ k. ((x + k) % m + m - y) % m) one
              ∙ Modulo.mod_take (x + 1) y m hw1 le (omega arith),
        )

    bounds-one :
        (is_pos : Bool) (b w : AstNode)
        → all_bounds yosys obj_name is_pos (b ∷ []) w ≡ bounds yosys obj_name is_pos b w
    unfolding all_bounds bounds ascending_range descending_range
    bounds-one true b w = refl
    bounds-one false b w = refl

    -- `[base +: width]` selects the bits from `base` to `base + width - 1`, if these are numbers of
    -- the word, and `[base -: width]` those from `base + 1 - width` to `base`, if the first is not
    -- below zero; the width must not be zero. The constants must have their values in `env`.
    pub process_indexed_part_select-SelectsBits :
        {Handle : Type 0} (vpi : Vpi Handle) (is_pos : Handle → Bool) (h : Handle) (b w : AstNode)
        → visit_one_to_one vpi (vpi_width_expr ∷ []) h ≡ some w ∷ []
        → visit_one_to_one vpi (vpi_base_expr ∷ []) h ≡ some b ∷ []
        → value width env (mkconst_int 1 false 32) ≡ 1
        → value width env (mkconst_int 0 false 32) ≡ 0
        → value width env b < modulus width
        → 1 ≤ value width env w
        → value width env w < modulus width
        → Fits (modulus width) (is_pos h) (value width env b) (value width env w)
        → (n : AstNode) × ((process_indexed_part_select yosys obj_name vpi is_pos h ≡ some n)
            × SelectsBits
                (high_bit (is_pos h) (value width env b) (value width env w))
                (low_bit (is_pos h) (value width env b) (value width env w))
                n)
    unfolding process_indexed_part_select indexed_of flatten last_of all_present
    process_indexed_part_select-SelectsBits vpi is_pos h b w ew eb one zero hb hw1 hw fits = (
      identifier yosys obj_name
          (plain_node ast_range (of_list (bounds yosys obj_name (is_pos h) b w)) ∷ []),
      (
        ap₂
              (λ ws bs.
                indexed_of yosys obj_name (is_pos h) (flatten yosys obj_name (all_present ws))
                  (all_present bs))
              ew eb
            ∙ ap (λ ns. some (identifier yosys obj_name (plain_node ast_range (of_list ns) ∷ [])))
                (bounds-one (is_pos h) b w),
        bounds-SelectsBits (is_pos h) b w one zero hb hw1 hw fits,
      ),
    )
