-- ===== src/Dot/Position.antt =====
-- The bits that an access through dots selects.
use synlig.Common.{
  ℕ, ◌<◌, ◌≡◌, Bool, true, false, List, [], ◌∷◌, Option, none, some, ltb, if_false, refl, sym, ap,
  ◌∙◌, arith,
}
use mathlib.Core.Path.{ap₂, subst}
use synlig.Common.Word
use synlig.Common.Word.{add32, sub32, mul32, to_u32, u32_mod}
use synlig.Ast.{AstNode, node, nil, cons, fields, ast_range}
use synlig.Dot.{
  Select, member_offset, member_select, advance, on_selection, select_members, dot_range,
  on_selects, struct_of, convert_in, convert_dot, search_struct_access_with_dots,
}
use synlig.Select.{Selection, constant}
use synlig.Select.Value
use synlig.Select.Value.{eval}
use synlig.Yosys.{Yosys}

telescope :
    (r a b o p l : ℕ)
    → r < u32_mod
    → a < u32_mod
    → b < u32_mod
    → o < u32_mod
    → p < u32_mod
    → l < u32_mod
    → add32 (add32 (add32 (add32 r a) (sub32 o p)) b) (sub32 l o)
      ≡ add32 (add32 r (add32 a b)) (sub32 l p)
unfolding add32 sub32
telescope r a b o p l hr ha hb ho hp hl = omega arith

module _ (env : AstNode → ℕ) (yosys : Yosys) where
  -- The offset of an element in its member.
  unfoldable pub element_offset : Option Selection → ℕ
  element_offset none = 0
  element_offset (some (offset_node, width_node)) = eval env offset_node

  unfoldable pub element_width : Option Selection → ℕ
  element_width none = 0
  element_width (some (offset_node, width_node)) = eval env width_node

  -- The sum of the offsets that the selects have in their members, and the offset of the last member in
  -- the struct, with the width of the last select.
  unfoldable pub element_offsets : Bool → List Select → ℕ
  element_offsets is_first [] = 0
  element_offsets is_first (s ∷ []) = element_offset (member_select yosys is_first true s)
  element_offsets is_first (s ∷ t ∷ selects) =
      add32 (element_offset (member_select yosys is_first false s))
        (element_offsets false (t ∷ selects))

  unfoldable pub last_offset : List Select → ℕ
  last_offset [] = 0
  last_offset ((m, rs) ∷ []) = member_offset m
  last_offset (s ∷ t ∷ selects) = last_offset (t ∷ selects)

  unfoldable pub last_width : Bool → List Select → ℕ
  last_width is_first [] = 0
  last_width is_first (s ∷ []) = element_width (member_select yosys is_first true s)
  last_width is_first (s ∷ t ∷ selects) = last_width false (t ∷ selects)

  -- There is a select.
  unfoldable pub IsMade : Option Selection → Type 0
  IsMade none = ⊥
  IsMade (some o) = Unit

  -- Each member can be selected from, and none lies before the one that it follows.
  unfoldable pub IsPath : Bool → ℕ → List Select → Type 0
  IsPath is_first previous [] = ⊥
  IsPath is_first previous ((m, rs) ∷ []) =
      IsMade (member_select yosys is_first true (m, rs)) × (ltb (member_offset m) previous ≡ false)
  IsPath is_first previous ((m, rs) ∷ s ∷ selects) =
      IsMade (member_select yosys is_first false (m, rs))
      × (ltb (member_offset m) previous ≡ false)
      × IsPath false (member_offset m) (s ∷ selects)

  -- An offset and a width have given values.
  unfoldable pub HasValues : ℕ → ℕ → Option Selection → Type 0
  HasValues low width none = ⊥
  HasValues low width (some (right, w)) = (eval env right ≡ low) × (eval env w ≡ width)

  advance-HasValues :
      (previous offset : ℕ) (right : AstNode) (o : Option Selection)
      → IsMade o
      → ltb offset previous ≡ false
      → HasValues
          (add32 (add32 (eval env right) (element_offset o)) (sub32 offset previous))
          (element_width o)
          (advance yosys previous offset right o)
  unfolding HasValues advance element_offset element_width eval IsMade
  advance-HasValues previous offset right none made h = made
  advance-HasValues previous offset right (some (a, w)) made h =
      subst
        (HasValues (add32 (add32 (eval env right) (eval env a)) (sub32 offset previous))
          (eval env w))
        (sym (if_false (ltb offset previous) none _ h))
        (
          ap (add32 (add32 (eval env right) (eval env a))) (
              Value.eval-constant env yosys (sub32 offset previous)
                (Word.sub32-lt offset previous)),
          refl,
        )

  on_selection-HasValues :
      (low width first_low : ℕ) (o : Option Selection) (w : ℕ) (next : AstNode → Option Selection)
      → HasValues first_low w o
      → ((n : AstNode) → eval env n ≡ first_low → HasValues low width (next n))
      → HasValues low width (on_selection yosys o next)
  unfolding HasValues
  on_selection-HasValues low width first_low none w next h f = h
  on_selection-HasValues low width first_low (some (n, m)) w next h f = f n h.0

  element_offset-lt : (o : Option Selection) → element_offset o < u32_mod
  unfolding element_offset
  element_offset-lt none = omega arith
  element_offset-lt (some (a, w)) = Value.eval-lt env a

  element_offsets-lt :
      (is_first : Bool) (selects : List Select) → element_offsets is_first selects < u32_mod
  unfolding element_offsets
  element_offsets-lt is_first [] = omega arith
  element_offsets-lt is_first (s ∷ []) = element_offset-lt (member_select yosys is_first true s)
  element_offsets-lt is_first (s ∷ t ∷ selects) =
      Word.add32-lt (element_offset (member_select yosys is_first false s))
        (element_offsets false (t ∷ selects))

  member_offset-lt : (m : AstNode) → member_offset m < u32_mod
  unfolding member_offset
  member_offset-lt m = Word.to_u32-lt (fields m).range_right

  last_offset-lt : (selects : List Select) → last_offset selects < u32_mod
  unfolding last_offset
  last_offset-lt [] = omega arith
  last_offset-lt ((m, rs) ∷ []) = member_offset-lt m
  last_offset-lt (s ∷ t ∷ selects) = last_offset-lt (t ∷ selects)

  select_members-HasValues :
      (is_first : Bool) (previous : ℕ) (right : AstNode) (selects : List Select)
      → previous < u32_mod
      → IsPath is_first previous selects
      → HasValues
          (add32
            (add32 (eval env right) (element_offsets is_first selects))
            (sub32 (last_offset selects) previous))
          (last_width is_first selects)
          (select_members yosys is_first previous right selects)
  unfolding select_members element_offsets last_offset last_width HasValues IsPath
  select_members-HasValues is_first previous right [] h path = path
  select_members-HasValues is_first previous right ((m, rs) ∷ []) h (made, order) =
      advance-HasValues previous (member_offset m) right _ made order
  select_members-HasValues is_first previous right ((m, rs) ∷ s ∷ selects) h (made, order, path) =
      let here = member_select yosys is_first false (m, rs) in
      let rest = element_offsets false (s ∷ selects) in
      let o = member_offset m in
      let last = last_offset (s ∷ selects) in
      on_selection-HasValues _ _ _ _ _ _ (advance-HasValues previous o right here made order)
        (λ n e.
          subst
            (λ low.
              HasValues low (last_width false (s ∷ selects))
                (select_members yosys false o n (s ∷ selects)))
            (ap (λ x. add32 (add32 x rest) (sub32 last o)) e
              ∙ telescope (eval env right) (element_offset here) rest o previous last
                  (Value.eval-lt env right) (element_offset-lt here)
                  (element_offsets-lt false (s ∷ selects)) (member_offset-lt m) h
                  (last_offset-lt (s ∷ selects)))
            (select_members-HasValues false o n (s ∷ selects) (member_offset-lt m) path))

  -- A range has the bits of a given width from a given low end on.
  unfoldable pub IsRange : ℕ → ℕ → Option AstNode → Type 0
  IsRange low width (some (node ast_range f (cons l (cons r nil)) as')) =
      (eval env r ≡ low) × (eval env l ≡ sub32 (add32 low width) 1)
  IsRange low width _ = ⊥

  dot_range-IsRange :
      (low width : ℕ) (o : Option Selection)
      → HasValues low width o
      → IsRange low width (dot_range yosys o)
  unfolding IsRange HasValues dot_range eval
  dot_range-IsRange low width none h = h
  dot_range-IsRange low width (some (right, w)) h =
      (h.0, ap₂ sub32 (ap₂ add32 h.0 h.1) (Value.eval-constant env yosys 1 (omega arith)))

  first_offsets :
      (selects : List Select)
      → add32
          (add32 (eval env (constant yosys 0)) (element_offsets true selects))
          (sub32 (last_offset selects) 0)
        ≡ add32 (element_offsets true selects) (last_offset selects)
  first_offsets selects =
      ap₂ add32
        (ap (λ x. add32 x (element_offsets true selects))
            (Value.eval-constant env yosys 0 (omega arith))
          ∙ Word.zero-add32 (element_offsets true selects) (element_offsets-lt true selects))
        (Word.sub32-zero (last_offset selects) (last_offset-lt selects))

  -- An access through dots, each of whose members can be selected from and lies not before the one
  -- that it is in, becomes a range, which starts at the offset of the last member, wherever the
  -- members on the way lie, plus the offsets that the selects have in their members, and has the
  -- width of the last select.
  pub convert_dot-IsRange :
      (simplified : AstNode → AstNode) (wiretype_of : AstNode → Option AstNode)
      (wire n dot struct_node : AstNode) (selects : List Select)
      → struct_of yosys wiretype_of wire ≡ some struct_node
      → search_struct_access_with_dots n (simplified wire) (simplified struct_node) dot
        ≡ some selects
      → IsPath true 0 selects
      → IsRange
          (add32 (element_offsets true selects) (last_offset selects))
          (last_width true selects)
          (convert_dot yosys simplified wiretype_of wire n dot)
  unfolding convert_dot convert_in on_selects
  convert_dot-IsRange simplified wiretype_of wire n dot struct_node selects hs found path =
      subst
        (IsRange (add32 (element_offsets true selects) (last_offset selects))
          (last_width true selects))
        (sym (ap (convert_in yosys simplified wire n dot) hs ∙ ap (on_selects yosys) found))
        (subst
          (λ low.
            IsRange low (last_width true selects)
              (dot_range yosys (select_members yosys true 0 (constant yosys 0) selects)))
          (first_offsets selects)
          (dot_range-IsRange _ _ _
            (select_members-HasValues true 0 (constant yosys 0) selects (omega arith) path)))
