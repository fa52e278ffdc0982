-- ===== src/Struct/Offset.antt =====
-- The width that `make_packed_struct_local` of src/frontends/systemverilog/uhdm_ast.cc reads off a
-- struct that is laid out.
use synlig.Common.{
  Bool, true, false, List, some, ◌≡◌, ◌≢◌, refl, ap, ◌∙◌, arith, if◌then◌else◌, if_false,
}
use mathlib.Core.Path.{subst}
use synlig.Common.Text.{Text}
use synlig.Common.Int.{ℤ, pos, ◌+ℤ◌, ◌-ℤ◌, ltb_ℤ, int_laws, pos_part, neg_part}
use synlig.Common.Checked.{gives, gives_steps, fails}
use synlig.Ast.{AstNode, AstNodeType, Attributes, Fields, Nodes, node, nil, children}
use synlig.Struct.{
  Result, member, struct, is_union, max_offset, first_max_offset, get_max_offset_struct,
  simplify_struct, struct_dimensions, layout_members,
}
use synlig.Struct.Tiling.{
  Tiles, no_members, next_item, next_struct, no_alternatives, or_item, or_struct, sized,
  simplify_struct-Tiles,
}

pred_nonneg : (w : ℤ) → ltb_ℤ (pos 0) w ≡ true → ltb_ℤ (w -ℤ pos 1) (pos 0) ≡ false
unfolding ◌-ℤ◌
pred_nonneg w h = ground arith

top_bit : (base o v w : ℤ) → base ≡ pos 0 → w ≡ o +ℤ v → base +ℤ o +ℤ v -ℤ pos 1 ≡ w -ℤ pos 1
top_bit base o v w z e =
    omega (int_laws, ap pos_part z, ap neg_part z, ap pos_part e, ap neg_part e)

top_bit_union : (base w : ℤ) → base ≡ pos 0 → base +ℤ w -ℤ pos 1 ≡ w -ℤ pos 1
top_bit_union base w z = omega (int_laws, ap pos_part z, ap neg_part z)

-- A member that ends at the top bit of a width from bit 0 on.
max_offset-placed :
    (t : AstNodeType) (f : Fields) (cs : Nodes) (as' : Attributes) (w : ℤ)
    → f.range_left ≡ w -ℤ pos 1
    → ltb_ℤ (pos 0) w ≡ true
    → max_offset (node t f cs as') ≡ some (w -ℤ pos 1)
unfolding max_offset
max_offset-placed t f cs as' w e h =
    ap (λ v. if ltb_ℤ v (pos 0) then first_max_offset cs else some v) e
    ∙ if_false _ _ _ (pred_nonneg w h)

first_max_offset-Tiles :
    {in_union : Bool} {base w : ℤ} {ms : Nodes}
    → Tiles in_union base w ms
    → base ≡ pos 0
    → ms ≢ nil
    → ltb_ℤ (pos 0) w ≡ true
    → first_max_offset ms ≡ some (w -ℤ pos 1)
unfolding max_offset
first_max_offset-Tiles no_members z n h = absurd (n refl)
first_max_offset-Tiles no_alternatives z n h = absurd (n refl)
first_max_offset-Tiles {base} {w}
      (next_item width {offset = offset} {t = t} {f = f} {cs = cs} {as' = as'} r k p e) z n h =
    max_offset-placed t f cs as' w (p.1 ∙ top_bit base offset width w z e) h
first_max_offset-Tiles {base} {w}
      (next_struct inner {offset = offset} {t = t} {f = f} {cs = cs} {as' = as'} r k tiles p e) z n
      h =
    max_offset-placed t f cs as' w (p.1 ∙ top_bit base offset _ w z e) h
first_max_offset-Tiles {base} {w} (or_item {t = t} {f = f} {cs = cs} {as' = as'} r k p) z n h =
    max_offset-placed t f cs as' w (p.1 ∙ top_bit_union base w z) h
first_max_offset-Tiles {base} {w}
      (or_struct inner {t = t} {f = f} {cs = cs} {as' = as'} r k tiles p d) z n h =
    max_offset-placed t f cs as' w (p.1 ∙ top_bit_union base w z) h

gives_node :
    {m n : AstNode} {w w' : ℤ} {links links' : List Text}
    → ◌≡◌ {A = Result (AstNode × ℤ × List Text)} (gives (m, w, links)) (gives (n, w', links'))
    → m ≡ n
gives_node {n = n} e = ap node_of e
  where
    node_of : Result (AstNode × ℤ × List Text) → AstNode
    node_of (gives (m, v, ks)) = m
    node_of (fails x) = n

simplify_struct-node :
    (simplify : AstNode → AstNode) (linked : Text → Bool) (t : AstNodeType) (f : Fields)
    (cs : Nodes) (as' : Attributes) (base : ℤ) {n : AstNode} {width : ℤ} {links : List Text}
    → simplify_struct simplify linked (node t f cs as') base ≡ gives (n, width, links)
    → (f' : Fields) × (ms : Nodes) × (f'.range_left ≡ f.range_left) × (node t f' ms as' ≡ n)
unfolding simplify_struct
simplify_struct-node simplify linked t f cs as' base {n} e =
    let (dims, _, e₁) = gives_steps (struct_dimensions simplify f cs) _ e in
    let (l, e₂, e₃) = gives_steps (layout_members simplify linked (is_union t) base cs) _ e₁ in
    (record f { dimensions = dims }, l.members, refl, gives_node e₃)

-- After `simplify_struct` of a struct or union that has no range of its own yet, at offset 0,
-- `get_max_offset_struct` gives its highest bit, the returned width less one, where the struct has
-- a member, its width is positive, and no member gets an empty range.
pub get_max_offset_struct-simplify_struct :
    (simplify : AstNode → AstNode) (linked : Text → Bool) (t : AstNodeType) (f : Fields)
    (cs : Nodes) (as' : Attributes) {n : AstNode} {width : ℤ} {links : List Text}
    → member t ≡ struct
    → ltb_ℤ f.range_left (pos 0) ≡ true
    → simplify_struct simplify linked (node t f cs as') (pos 0) ≡ gives (n, width, links)
    → sized (children n) ≡ true
    → children n ≢ nil
    → ltb_ℤ (pos 0) width ≡ true
    → get_max_offset_struct n ≡ some (width -ℤ pos 1)
unfolding get_max_offset_struct max_offset
get_max_offset_struct-simplify_struct simplify linked t f cs as' {n} {width} k neg e h ne wide =
    let (f', ms, same, shape) = simplify_struct-node simplify linked t f cs as' (pos 0) e in
    let below =
      first_max_offset-Tiles (simplify_struct-Tiles simplify linked t f cs as' (pos 0) e h) refl ne
        wide in
    let neg' : ltb_ℤ f'.range_left (pos 0) ≡ true = ap (λ v. ltb_ℤ v (pos 0)) same ∙ neg in
    subst (λ m. get_max_offset_struct m ≡ some (width -ℤ pos 1)) shape
      (rw (k, get_max_offset_struct)
        (rw (neg', max_offset) (ap (λ m. first_max_offset (children m)) shape ∙ below)))
