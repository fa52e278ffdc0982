-- ===== src/Struct/Tiling.antt =====
-- The layout that `simplify_struct` of src/frontends/systemverilog/uhdm_ast.cc makes, against a
-- description of packed layouts that does not mention it.
use synlig.Common.{
  Bool, true, false, ◌&&◌, ◌⊎◌, inl, inr, List, [], ◌≡◌, refl, sym, ap, ◌∙◌, arith, if◌then◌else◌,
  and_true_left, and_true_right,
}
use mathlib.Core.Path.{subst, subst₂, ap₂}
use synlig.Common.Text.{Text}
use synlig.Common.Int.{ℤ, pos, negsuc, ◌+ℤ◌, ◌-ℤ◌, ltb_ℤ, ltb_ℤ→lt, int_laws, pos_part, neg_part}
use synlig.Common.Checked.{gives, fails, gives_steps}
use synlig.Ast.{
  AstNode, AstNodeType, Attributes, Dimension, Fields, Nodes, node, nil, cons, children,
}
use synlig.Struct.{
  Result, Member, range, struct, item, other, member, is_union, Layout, placed, add_member,
  result_width, layout_round, layout_members, dimensions_width, item_width, struct_dimensions,
  simplify_struct,
}

-- The place of a member: from bit `at`, `width` bits.
abbrev pub IsPlaced : Fields → ℤ → ℤ → Type 0
IsPlaced f at width =
    (f.range_right ≡ at) × (f.range_left ≡ at +ℤ width -ℤ pos 1) × (f.range_valid ≡ true)

-- Members that fill `width` bits from bit `base`: in a struct one beside the other, the last member
-- in the lowest bits, in a union each the whole. An embedded struct or union fills as many bits as
-- its members, times its dimensions.
pub data Tiles : Bool → ℤ → ℤ → Nodes → Type 0 where
  no_members : {base : ℤ} → Tiles false base (pos 0) nil
  next_item :
      (width : ℤ) {base offset w : ℤ} {t : AstNodeType} {f : Fields} {cs rest : Nodes}
      {as' : Attributes}
      → Tiles false base offset rest
      → member t ≡ item
      → IsPlaced f (base +ℤ offset) width
      → w ≡ offset +ℤ width
      → Tiles false base w (cons (node t f cs as') rest)
  next_struct :
      (inner : ℤ) {base offset w : ℤ} {t : AstNodeType} {f : Fields} {cs rest : Nodes}
      {as' : Attributes}
      → Tiles false base offset rest
      → member t ≡ struct
      → Tiles (is_union t) (base +ℤ offset) inner cs
      → IsPlaced f (base +ℤ offset) (dimensions_width inner f.dimensions)
      → w ≡ offset +ℤ dimensions_width inner f.dimensions
      → Tiles false base w (cons (node t f cs as') rest)
  no_alternatives : {base w : ℤ} → Tiles true base w nil
  or_item :
      {base w : ℤ} {t : AstNodeType} {f : Fields} {cs rest : Nodes} {as' : Attributes}
      → Tiles true base w rest
      → member t ≡ item
      → IsPlaced f base w
      → Tiles true base w (cons (node t f cs as') rest)
  or_struct :
      (inner : ℤ) {base w : ℤ} {t : AstNodeType} {f : Fields} {cs rest : Nodes} {as' : Attributes}
      → Tiles true base w rest
      → member t ≡ struct
      → Tiles (is_union t) base inner cs
      → IsPlaced f base w
      → w ≡ dimensions_width inner f.dimensions
      → Tiles true base w (cons (node t f cs as') rest)

abbrev pub sized_inside : Member → Bool → Bool
sized_inside struct b = b
sized_inside _ b = true

-- No member, nor a member of an embedded struct, has an empty range.
unfoldable pub sized : Nodes → Bool
sized nil = true
sized (cons (node t f cs as') rest) =
    ltb_ℤ f.range_right (f.range_left +ℤ pos 1)
    && (sized_inside (member t) (sized cs) && sized rest)

sized_rest : (m : AstNode) (rest : Nodes) → sized (cons m rest) ≡ true → sized rest ≡ true
unfolding sized
sized_rest (node t f cs as') rest h =
    and_true_right (sized_inside (member t) (sized cs)) _ (and_true_right _ _ h)

sized_head :
    (t : AstNodeType) (f : Fields) (cs : Nodes) (as' : Attributes) (rest : Nodes)
    → sized (cons (node t f cs as') rest) ≡ true
    → ltb_ℤ f.range_right (f.range_left +ℤ pos 1) ≡ true
unfolding sized
sized_head t f cs as' rest h = and_true_left _ _ h

sized_children :
    (t : AstNodeType) (f : Fields) (cs : Nodes) (as' : Attributes) (rest : Nodes)
    → member t ≡ struct
    → sized (cons (node t f cs as') rest) ≡ true
    → sized cs ≡ true
unfolding sized
sized_children t f cs as' rest e h =
    subst (λ k. sized_inside k (sized cs) ≡ true) e
      (and_true_left (sized_inside (member t) (sized cs)) _ (and_true_right _ _ h))

-- What `add_member` adds to a struct, and to a union.
add_to_struct :
    (m : AstNode) (width : ℤ) (links : List Text) (l : Layout) {l' : Layout}
    → add_member false m width links l ≡ gives l'
    → (l'.members ≡ cons m l.members) × (l'.offset ≡ l.offset +ℤ width)
unfolding add_member
add_to_struct m width links l e = ground arith

add_to_union :
    (m : AstNode) (width : ℤ) (links : List Text) (l : Layout) {l' : Layout}
    → add_member true m width links l ≡ gives l'
    → (l'.members ≡ cons m l.members)
      × (l'.offset ≡ l.offset)
      × (l'.packed_width ≡ width)
      × ((l.packed_width ≡ negsuc 0) ⊎ (l.packed_width ≡ width))
unfolding add_member
add_to_union m width links l e = ground arith

not_empty :
    (f : Fields) (base : ℤ)
    → IsPlaced f base (negsuc 0)
    → ltb_ℤ f.range_right (f.range_left +ℤ pos 1) ≡ true
    → ⊥
not_empty f base (r, e, v) h = omega (
  int_laws,
  ltb_ℤ→lt f.range_right (f.range_left +ℤ pos 1) h,
  ap pos_part r,
  ap neg_part r,
  ap pos_part e,
  ap neg_part e,
)

-- A union whose width is not yet known has no member yet.
reindex :
    {base w : ℤ} (w' : ℤ) {ms : Nodes}
    → w ≡ negsuc 0
    → Tiles true base w ms
    → sized ms ≡ true
    → Tiles true base w' ms
reindex w' e no_alternatives h = no_alternatives
reindex {base} w' e (or_item {f = f} {cs = cs} {as' = as'} r k p) h =
    absurd (not_empty f base (subst (IsPlaced f base) e p) (sized_head _ f cs as' _ h))
reindex {base} w' e (or_struct inner {f = f} {cs = cs} {as' = as'} r k t p d) h =
    absurd (not_empty f base (subst (IsPlaced f base) e p) (sized_head _ f cs as' _ h))

-- The layout behind a union's member has the width of that member.
behind :
    {base : ℤ} (l : Layout) (width : ℤ)
    → (l.packed_width ≡ negsuc 0) ⊎ (l.packed_width ≡ width)
    → Tiles true base l.packed_width l.members
    → sized l.members ≡ true
    → Tiles true base width l.members
behind l width (inl e) ih h = reindex width e ih h
behind {base} l width (inr e) ih h = subst (λ w. Tiles true base w l.members) e ih

+ℤ_zero : (a : ℤ) → a +ℤ pos 0 ≡ a
+ℤ_zero a = omega int_laws

gives_parts :
    {t : AstNodeType} {f : Fields} {ms : Nodes} {as' : Attributes} {n : AstNode} {w w' : ℤ}
    {links links' : List Text}
    → ◌≡◌ {A = Result (AstNode × ℤ × List Text)}
        (gives (node t f ms as', w, links))
        (gives (n, w', links'))
    → (ms ≡ children n) × (w ≡ w')
gives_parts {n = n} {w' = w'} e = (ap children_of e, ap width_of e)
  where
    children_of : Result (AstNode × ℤ × List Text) → Nodes
    children_of (gives (m, v, ks)) = children m
    children_of (fails x) = children n

    width_of : Result (AstNode × ℤ × List Text) → ℤ
    width_of (gives (m, v, ks)) = v
    width_of (fails x) = w'

module _ (simplify : AstNode → AstNode) (linked : Text → Bool) where
  -- What holds of each call: in a union the offset stays, and the members tile.
  abbrev Lays : Bool → ℤ → Layout → Type 0
  Lays in_union base l =
      (in_union ≡ true → l.offset ≡ pos 0)
      × (sized l.members ≡ true → Tiles in_union base (result_width in_union l) l.members)

  add_member-Lays :
      (in_union : Bool) (base width : ℤ) (t : AstNodeType) (f : Fields) (cs : Nodes)
      (as' : Attributes) (links : List Text) (l : Layout) {l' : Layout}
      → add_member in_union (node t f cs as') width links l ≡ gives l'
      → Lays in_union base l
      → ((w : ℤ) (rest : Nodes)
          → in_union ≡ true
          → width ≡ w
          → sized (cons (node t f cs as') rest) ≡ true
          → Tiles true base w rest
          → Tiles true base w (cons (node t f cs as') rest))
      → ((w offset : ℤ) (rest : Nodes)
          → in_union ≡ false
          → offset ≡ l.offset
          → w ≡ offset +ℤ width
          → sized (cons (node t f cs as') rest) ≡ true
          → Tiles false base offset rest
          → Tiles false base w (cons (node t f cs as') rest))
      → Lays in_union base l'
  add_member-Lays true base width t f cs as' links l {l'} e (zero_offset, ih) over beside =
      let (ms, same, now, before) = add_to_union (node t f cs as') width links l e in
      (
        λ h. same ∙ zero_offset h,
        λ h.
            let h' = subst (λ m. sized m ≡ true) ms h in
            let fine = sized_rest (node t f cs as') l.members h' in
            subst (λ m. Tiles true base l'.packed_width m) (sym ms)
              (over l'.packed_width l.members refl (sym now) h' (
                subst (λ w. Tiles true base w l.members) (sym now)
                  (behind l width before (ih fine) fine))),
      )
  add_member-Lays false base width t f cs as' links l {l'} e (zero_offset, ih) over beside =
      let (ms, grown) = add_to_struct (node t f cs as') width links l e in
      (
        λ h. absurd (cc h),
        λ h.
            let h' = subst (λ m. sized m ≡ true) ms h in
            let fine = sized_rest (node t f cs as') l.members h' in
            subst (λ m. Tiles false base l'.offset m) (sym ms)
              (beside l'.offset l.offset l.members refl refl grown h' (ih fine)),
      )

  placed-IsPlaced : (f : Fields) (at width w : ℤ) → width ≡ w → IsPlaced (placed f at width) at w
  placed-IsPlaced f at width w e = (refl, ap (λ v. at +ℤ v -ℤ pos 1) e, refl)

  gives-injective : {l l' : Layout} → ◌≡◌ {A = Result Layout} (gives l) (gives l') → l ≡ l'
  gives-injective e = cc

  empty-Lays :
      (in_union : Bool) (base : ℤ)
      → Lays in_union base
          (record { members = nil; offset = pos 0; packed_width = negsuc 0; links = [] })
  empty-Lays true base = (λ h. refl, λ h. no_alternatives)
  empty-Lays false base = (λ h. refl, λ h. no_members)

  item-Lays :
      (in_union : Bool) (base : ℤ) (t : AstNodeType) (f : Fields) (cs : Nodes) (as' : Attributes)
      (width : ℤ) (l : Layout) {l' : Layout}
      → member t ≡ item
      → add_member in_union
          (node t (placed f (if in_union then base else base +ℤ l.offset) width) cs as')
          width
          l.links
          l
        ≡ gives l'
      → Lays in_union base l
      → Lays in_union base l'
  item-Lays true base t f cs as' width l k e ih =
      add_member-Lays true base width t _ cs as' l.links l e ih
        (λ w rest _ eq h r. or_item r k (placed-IsPlaced f base width w eq))
        (λ w offset rest no_union. absurd (cc no_union))
  item-Lays false base t f cs as' width l k e ih =
      add_member-Lays false base width t _ cs as' l.links l e ih
        (λ w rest is_union. absurd (cc is_union))
        (λ w offset rest _ at grown h r.
          next_item width r k
            (subst (λ o. IsPlaced (placed f (base +ℤ l.offset) width) (base +ℤ o) width) (sym at)
              (refl, refl, refl))
            grown)

  struct-Lays :
      (in_union : Bool) (base : ℤ) (t : AstNodeType) (f : Fields) (i : Layout) (as' : Attributes)
      (dims : List Dimension) (links : List Text) (l : Layout) {l' : Layout}
      → member t ≡ struct
      → (let width = dimensions_width (result_width (is_union t) i) dims in
          add_member in_union
            (node t
              (placed (record f { dimensions = dims }) (base +ℤ l.offset) width)
              i.members
              as')
            width
            links
            l
          ≡ gives l')
      → Lays in_union base l
      → Lays (is_union t) (base +ℤ l.offset) i
      → Lays in_union base l'
  struct-Lays true base t f i as' dims links l k e ih deep =
      let same : base +ℤ l.offset ≡ base = ap (λ o. base +ℤ o) (ih.0 refl) ∙ +ℤ_zero base in
      let inner = result_width (is_union t) i in
      add_member-Lays true base (dimensions_width inner dims) t _ i.members as' links l e ih
        (λ w rest _ eq h r.
          or_struct inner r k
            (subst (λ at. Tiles (is_union t) at inner i.members) same
              (deep.1 (sized_children t _ i.members as' rest k h)))
            (same, ap₂ (λ at v. at +ℤ v -ℤ pos 1) same eq, refl) (sym eq))
        (λ w offset rest no_union. absurd (cc no_union))
  struct-Lays false base t f i as' dims links l k e ih deep =
      let inner = result_width (is_union t) i in
      add_member-Lays false base (dimensions_width inner dims) t _ i.members as' links l e ih
        (λ w rest is_union. absurd (cc is_union))
        (λ w offset rest _ at grown h r.
          next_struct inner r k
            (subst (λ o. Tiles (is_union t) (base +ℤ o) inner i.members) (sym at)
              (deep.1 (sized_children t _ i.members as' rest k h)))
            (subst
              (λ o.
                IsPlaced
                  (placed (record f { dimensions = dims }) (base +ℤ l.offset)
                    (dimensions_width inner dims))
                  (base +ℤ o) (dimensions_width inner dims))
              (sym at) (refl, refl, refl))
            grown)

  round-Lays :
      (k : Member) (in_union : Bool) (base : ℤ) (t : AstNodeType) (f : Fields) (cs : Nodes)
      (as' : Attributes) (inner : ℤ → Result Layout) (l : Layout) {l' : Layout}
      → member t ≡ k
      → layout_round simplify linked k in_union base t f cs as' inner l ≡ gives l'
      → Lays in_union base l
      → ((at : ℤ) (i : Layout) → inner at ≡ gives i → Lays (is_union t) at i)
      → Lays in_union base l'
  round-Lays range in_union base t f cs as' inner l k e ih deep =
      subst (Lays in_union base) (gives-injective e) ih
  round-Lays item in_union base t f cs as' inner l k e ih deep =
      let ((width, cs'), _, e') = gives_steps (item_width f cs) _ e in
      item-Lays in_union base t f cs' as' width l k e' ih
  round-Lays struct in_union base t f cs as' inner l k e ih deep =
      let (dims, _, e₁) = gives_steps (struct_dimensions simplify f cs) _ e in
      let (i, e₂, e₃) = gives_steps (inner (base +ℤ l.offset)) _ e₁ in
      struct-Lays in_union base t f i as' dims _ l k e₃ ih (deep (base +ℤ l.offset) i e₂)
  round-Lays other in_union base t f cs as' inner l k e ih deep = absurd (cc e)

  layout_members-Lays :
      (in_union : Bool) (base : ℤ) (cs : Nodes) {l : Layout}
      → layout_members simplify linked in_union base cs ≡ gives l
      → Lays in_union base l
  unfolding layout_members
  layout_members-Lays in_union base nil e =
      subst (Lays in_union base) (gives-injective e) (empty-Lays in_union base)
  layout_members-Lays in_union base (cons (node t f cs as') rest) e =
      let (l, e₁, e₂) = gives_steps (layout_members simplify linked in_union base rest) _ e in
      round-Lays (member t) in_union base t f cs as' _ l refl e₂
        (layout_members-Lays in_union base rest e₁)
        (λ at i e'. layout_members-Lays (is_union t) at cs e')

  -- `simplify_struct` of a struct or union at offset `base`: where it succeeds and no member gets an
  -- empty range, the members of the result fill the returned width from bit `base` on, those of a
  -- struct side by side with the last one lowest, those of a union each the whole, and so do the
  -- members of each embedded struct or union within its range, before its dimensions multiply it.
  pub simplify_struct-Tiles :
      (t : AstNodeType) (f : Fields) (cs : Nodes) (as' : Attributes) (base : ℤ) {n : AstNode}
      {width : ℤ} {links : List Text}
      → simplify_struct simplify linked (node t f cs as') base ≡ gives (n, width, links)
      → sized (children n) ≡ true
      → Tiles (is_union t) base width (children n)
  unfolding simplify_struct
  simplify_struct-Tiles t f cs as' base {n} {width} e h =
      let (dims, _, e₁) = gives_steps (struct_dimensions simplify f cs) _ e in
      let (l, e₂, e₃) = gives_steps (layout_members simplify linked (is_union t) base cs) _ e₁ in
      let same : (l.members ≡ children n) × (result_width (is_union t) l ≡ width) =
        gives_parts e₃ in
      subst₂ (λ ms w. Tiles (is_union t) base w ms) same.0 same.1
        ((layout_members-Lays (is_union t) base cs e₂).1
          (subst (λ ms. sized ms ≡ true) (sym same.0) h))
