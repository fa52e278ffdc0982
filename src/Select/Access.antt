-- ===== src/Select/Access.antt =====
-- `traverse_dimensions` selects the element at its row-major position, on the constant and on the
-- variable path.
use synlig.Common.{
  ℕ, suc, ==_iff, ◌<◌, ◌≡◌, Bool, true, false, ◌&&◌, not, and_true_left, and_true_right,
  false_of_not, List, [], ◌∷◌, Option, none, some, ◌==◌, length, refl, sym, ap, ◌∙◌, if_elim,
  if_true, if_false, if◌then◌else◌, arith,
}
use mathlib.Core.Path.{subst}
use synlig.Common.Word
use synlig.Common.Word.{add32, sub32, mul32, to_u32, u32_mod}
use synlig.Ast.{
  AstNode, Dimension, node, cons, nil, empty, new_fields, children, ast_add, ast_mul, ast_range,
}
use synlig.Select.{
  Walk, Width, width_value, width_node, Selection, suffix_sizes, constant_index, constant,
  last_select, last_index, finish, flush, walk, traverse_dimensions, start, binary, index_node,
  is_constant, step,
}
use synlig.Select.Value
use synlig.Select.Value.{eval}
use synlig.Select.Position
use synlig.Select.Position.{offset_at, IsWalk, position, in_row}
use synlig.Yosys.{Yosys}

-- A select with one index.
abbrev pub index_range : AstNode → AstNode
index_range n = node ast_range new_fields (cons n nil) empty

-- The dimensions and the selects, of which all but the last have one index.
unfoldable pub dimensions_of : List (Dimension × AstNode) → Dimension → List Dimension
dimensions_of [] d = d ∷ []
dimensions_of ((e, n) ∷ xs) d = e ∷ dimensions_of xs d

unfoldable pub ranges_of : List (Dimension × AstNode) → AstNode → List AstNode
ranges_of [] r = r ∷ []
ranges_of ((e, n) ∷ xs) r = index_range n ∷ ranges_of xs r

-- Whether an index is variable, or one before them was.
unfoldable pub any_variable : Bool → List (Dimension × AstNode) → Bool
any_variable seen [] = seen
any_variable seen ((d, n) ∷ xs) = any_variable (if is_constant n then seen else true) xs

length-ranges_of :
    (xs : List (Dimension × AstNode)) (d : Dimension) (r : AstNode)
    → length (dimensions_of xs d) ≡ length (ranges_of xs r)
unfolding dimensions_of ranges_of
length-ranges_of [] d r = refl
length-ranges_of ((e, n) ∷ xs) d r = ap suc (length-ranges_of xs d r)

module _ (env : AstNode → ℕ) (yosys : Yosys) where
  -- The offset and the width that a selection evaluates to.
  unfoldable pub Selects : ℕ → ℕ → Option Selection → Type 0
  Selects offset width none = ⊥
  Selects offset width (some (a, b)) = (eval env a ≡ offset) × (eval env b ≡ width)

  unfoldable pub IsWidth : Bool → Width → ℕ → Type 0
  IsWidth b (width_value v) width = (b ≡ false) × (v ≡ width)
  IsWidth b (width_node n) width = (b ≡ true) × (eval env n ≡ width)

  -- What the loop leaves, before it is scaled by the size of the substructure.
  unfoldable pub Ends : ℕ → ℕ → Option (Walk × Width) → Type 0
  Ends offset width none = ⊥
  Ends offset width (some (w, v)) =
      IsWalk env yosys w × (offset_at env yosys w ≡ offset) × IsWidth w.is_variable_indexed v width

  step-is_variable_indexed :
      (d : Dimension) (size : ℕ) (n : AstNode) (w : Walk) (seen : Bool)
      → w.is_variable_indexed ≡ seen
      → Walk.is_variable_indexed (step yosys d size n w) ≡ (if is_constant n then seen else true)
  unfolding step
  step-is_variable_indexed d size n w seen h =
      if_elim (λ v. Walk.is_variable_indexed v ≡ (if is_constant n then seen else true))
        (is_constant n) _ _ (λ c. h ∙ sym (if_true _ _ _ c)) (λ c. sym (if_false _ _ _ c))

  module _ (P : Option (Walk × Width) → Type 0) (d : Dimension) (r : AstNode) (access : Bool) where
    walk-induction :
        (xs : List (Dimension × AstNode)) (acc : ℕ) (seen : Bool)
        → ((w : Walk)
            → IsWalk env yosys w
            → offset_at env yosys w
              ≡ mul32 (position env yosys acc xs) (mul32 1 (to_u32 d.range_width))
            → w.is_variable_indexed ≡ any_variable seen xs
            → P (last_select yosys d 1 (children r) access w))
        → (w : Walk) → IsWalk env yosys w
        → offset_at env yosys w ≡ mul32 acc (suffix_sizes (dimensions_of xs d)).1
        → w.is_variable_indexed ≡ seen
        → P (
            walk yosys
              (dimensions_of xs d)
              (suffix_sizes (dimensions_of xs d)).0
              (ranges_of xs r)
              access
              w)
    unfolding walk suffix_sizes dimensions_of ranges_of position any_variable
    walk-induction [] acc seen done w hw h v = done w hw h v
    walk-induction ((e, n) ∷ []) acc seen done w hw h v =
        walk-induction [] _ _ done _ (Position.step-IsWalk env yosys e _ n w hw)
          (Position.advance env yosys e _ n w acc (Position.suffix_sizes-lt (d ∷ [])) hw h)
          (step-is_variable_indexed e _ n w seen v)
    walk-induction ((e, n) ∷ (e', n') ∷ xs) acc seen done w hw h v =
        walk-induction ((e', n') ∷ xs) _ _ done _ (Position.step-IsWalk env yosys e _ n w hw)
          (Position.advance env yosys e _ n w acc
            (Position.suffix_sizes-lt (dimensions_of ((e', n') ∷ xs) d)) hw h)
          (step-is_variable_indexed e _ n w seen v)

  constant_offset :
      (w : Walk) (offset : ℕ)
      → IsWalk env yosys w
      → w.is_variable_indexed ≡ false
      → offset_at env yosys w ≡ offset
      → w.right_offset ≡ offset
  unfolding IsWalk offset_at
  constant_offset w offset hw z h =
      sym (Word.add32-zero w.right_offset hw.0)
      ∙ Word.add32_comm w.right_offset 0
      ∙ ap (λ x. add32 x w.right_offset) (sym (hw.1 z))
      ∙ h

  finish-Selects :
      (sub offset width : ℕ) (w : Walk) (v : Width)
      → Ends offset width (some (w, v))
      → sub < u32_mod
      → Selects (mul32 offset sub) (mul32 width sub) (finish yosys sub (some (w, v)))
  unfolding Ends Selects IsWidth finish eval IsWalk offset_at
  finish-Selects sub offset width w (width_value v) (hw, h, (z, hv)) hs =
      if_elim (Selects (mul32 offset sub) (mul32 width sub)) w.is_variable_indexed none _ (λ t. cc)
        (λ f. (
          Value.eval-constant env yosys _ (Word.mul32-lt w.right_offset sub)
              ∙ ap (λ x. mul32 x sub) (constant_offset w offset hw f h),
          Value.eval-constant env yosys _ (Word.mul32-lt v sub) ∙ ap (λ x. mul32 x sub) hv,
        ))
  finish-Selects sub offset width w (width_node n) (hw, h, (z, hv)) hs =
      if_elim (Selects (mul32 offset sub) (mul32 width sub)) w.is_variable_indexed _ none
        (λ t. (
          ap (λ x. mul32 (eval env (flush yosys w)) x) (Value.eval-constant env yosys sub hs)
              ∙ ap (λ x. mul32 x sub) (Value.eval-flush env yosys w hw.0 ∙ h),
          ap (λ x. mul32 (eval env n) x) (Value.eval-constant env yosys sub hs)
              ∙ ap (λ x. mul32 x sub) hv,
        ))
        (λ f. cc)

  start-IsWalk : IsWalk env yosys (start yosys)
  unfolding IsWalk
  start-IsWalk = (omega arith, λ h. Value.eval-constant env yosys 0 (omega arith))

  offset_at-start : (n : ℕ) → offset_at env yosys (start yosys) ≡ mul32 0 n
  unfolding offset_at
  offset_at-start n =
      ap (λ x. add32 x 0) (Value.eval-constant env yosys 0 (omega arith))
      ∙ Word.add32-zero 0 (omega arith)
      ∙ sym (Word.mul32-zero n)

  finish_option-Selects :
      (sub offset width : ℕ) (o : Option (Walk × Width))
      → Ends offset width o
      → sub < u32_mod
      → Selects (mul32 offset sub) (mul32 width sub) (finish yosys sub o)
  unfolding Ends
  finish_option-Selects sub offset width none h hs = elim h [ ]
  finish_option-Selects sub offset width (some (w, v)) h hs =
      finish-Selects sub offset width w v h hs

  traverse_dimensions-walk :
      (xs : List (Dimension × AstNode)) (d : Dimension) (r : AstNode) (access : Bool) (sub : ℕ)
      → traverse_dimensions yosys (dimensions_of xs d) (ranges_of xs r) sub access
        ≡ finish yosys sub (
            walk yosys
              (dimensions_of xs d)
              (suffix_sizes (dimensions_of xs d)).0
              (ranges_of xs r)
              access
              (start yosys))
  unfolding traverse_dimensions dimensions_of ranges_of
  traverse_dimensions-walk [] d r access sub = refl
  traverse_dimensions-walk ((e, n) ∷ xs) d r access sub =
      let same = (==_iff _ _).1 (length-ranges_of ((e, n) ∷ xs) d r) in
      if_elim
        (λ o.
          o
          ≡ finish yosys sub (
              walk yosys (e ∷ dimensions_of xs d) (suffix_sizes (e ∷ dimensions_of xs d)).0
                (ranges_of ((e, n) ∷ xs) r) access (start yosys)))
        (length (e ∷ dimensions_of xs d) == length (ranges_of ((e, n) ∷ xs) r)) _ none (λ t. refl)
        (λ f. cc)

  -- Where the last select ends well on every walk, the selection is as described.
  pub traverse_dimensions-Ends :
      (xs : List (Dimension × AstNode)) (d : Dimension) (r : AstNode) (access : Bool)
      → (sub offset width : ℕ) → sub < u32_mod
      → ((w : Walk)
          → IsWalk env yosys w
          → offset_at env yosys w ≡ mul32 (position env yosys 0 xs) (mul32 1 (to_u32 d.range_width))
          → w.is_variable_indexed ≡ any_variable false xs
          → Ends offset width (last_select yosys d 1 (children r) access w))
      → Selects
          (mul32 offset sub)
          (mul32 width sub)
          (traverse_dimensions yosys (dimensions_of xs d) (ranges_of xs r) sub access)
  traverse_dimensions-Ends xs d r access sub offset width hs done =
      subst (Selects (mul32 offset sub) (mul32 width sub))
        (sym (traverse_dimensions-walk xs d r access sub))
        (finish_option-Selects sub offset width _
          (walk-induction (Ends offset width) d r access xs 0 false done (start yosys) start-IsWalk
            (offset_at-start _) refl)
          hs)

  variable_end :
      (d : Dimension) (n : AstNode) (w : Walk)
      → w.right_offset < u32_mod
      → add32
          (eval env (
            binary ast_add
              (flush yosys w)
              (binary ast_mul (index_node yosys d n) (constant yosys 1))))
          0
        ≡ add32 (offset_at env yosys w) (mul32 (constant_index d (eval env n)) 1)
  unfolding eval offset_at
  variable_end d n w hw =
      Word.add32-zero _ (Word.add32-lt _ _)
      ∙ ap (λ x. add32 x (eval env (binary ast_mul (index_node yosys d n) (constant yosys 1))))
          (Value.eval-flush env yosys w hw)
      ∙ ap (λ x. add32 (offset_at env yosys w) x) (Value.eval_scaled env yosys d n 1 (omega arith))

  last_index-Ends :
      (xs : List (Dimension × AstNode)) (d : Dimension) (n : AstNode) (w : Walk)
      → IsWalk env yosys w
      → offset_at env yosys w ≡ mul32 (position env yosys 0 xs) (mul32 1 (to_u32 d.range_width))
      → Ends
          (in_row env yosys xs d (constant_index d (eval env n)))
          1
          (some (last_index yosys d 1 n w))
  unfolding Ends last_index IsWidth IsWalk offset_at
  last_index-Ends xs d n w hw h =
      let v = constant_index d (eval env n) in
      let total = Position.last_round env yosys xs d v w (Position.constant_index-lt d _) h in
      if_elim (λ p. Ends (in_row env yosys xs d v) 1 (some p))
        (is_constant n && not w.is_variable_indexed) _ _
        (λ b. (
          (Word.add32-lt _ _, hw.1),
          Position.constant_round env yosys d 1 n w
                (and_true_left (is_constant n) (not w.is_variable_indexed) b)
              ∙ total,
          (false_of_not _ (and_true_right (is_constant n) _ b), refl),
        ))
        (λ b. (
          (omega arith, λ f. cc),
          variable_end d n w (hw.0) ∙ total,
          (refl, Value.eval-constant env yosys 1 (omega arith)),
        ))

  -- A select with one index per dimension has the offset of its element, which is the element's
  -- row-major position times the size of the substructure, and the width of the substructure; a
  -- constant index and an index that is an expression give the same. `env` gives the values.
  pub traverse_dimensions-Selects :
      (xs : List (Dimension × AstNode)) (d : Dimension) (n : AstNode) (access : Bool) (sub : ℕ)
      → sub < u32_mod
      → Selects
          (mul32 (in_row env yosys xs d (constant_index d (eval env n))) sub)
          sub
          (traverse_dimensions yosys (dimensions_of xs d) (ranges_of xs (index_range n)) sub access)
  unfolding last_select
  traverse_dimensions-Selects xs d n access sub hs =
      let offset = in_row env yosys xs d (constant_index d (eval env n)) in
      subst
        (λ width. Selects (mul32 offset sub) width (
          traverse_dimensions yosys (dimensions_of xs d) (ranges_of xs (index_range n)) sub access))
        (Word.mul32-one sub hs)
        (traverse_dimensions-Ends xs d (index_range n) access sub offset 1 hs
          (λ w hw h v. last_index-Ends xs d n w hw h))
