-- ===== src/Struct/Success.antt =====
-- Where `simplify_struct` succeeds.
use mathlib.Core.Path.{subst}
use synlig.Common.{
  Bool, true, false, not, ◌&&◌, ◌≡◌, if◌then◌else◌, refl, sym, if_elim, and_true_left,
  and_true_right, false_of_not,
}
use synlig.Common.Int.{ℤ, pos, ◌+ℤ◌, ltb_ℤ}
use synlig.Common.Text.{Text}
use synlig.Common.Checked.{gives, ◌>>=◌}
use synlig.Ast.{AstNode, AstNodeType, Fields, Nodes, Attributes, node, nil, cons, fields, is_range}
use synlig.Struct.Removal.{ranges_last, all_ranges-removed_tail}
use synlig.Struct.{
  Result, Member, range, struct, item, other, Layout, member, is_union, item_width,
  range_width_local, all_ranges, removed_tail, struct_dimensions, add_member, layout_round,
  layout_members, simplify_struct,
}

-- A member without a range, or with a valid one.
unfoldable pub is_sized : Nodes → Bool
is_sized nil = true
is_sized (cons c cs) = if is_range c then (fields c).range_valid else true

unfoldable pub layable_member : Member → Bool → Nodes → Bool → Bool
layable_member range in_union cs inner = true
layable_member struct in_union cs inner = ranges_last cs && (not in_union && inner)
layable_member item in_union cs inner = is_sized cs
layable_member other in_union cs inner = false

-- Members whose ranges stand last and are constant, with no union among them.
unfoldable pub layable : Nodes → Bool
layable nil = true
layable (cons (node t f cs as') rest) =
    layable_member (member t) (is_union t) cs (layable cs) && layable rest

unfoldable pub Succeeds : {A : Type 0} → Result A → Type 0
Succeeds {A} r = (a : A) × (r ≡ gives a)

bind-Succeeds :
    {A B : Type 0} (r : Result A) (k : A → Result B)
    → Succeeds r
    → ((a : A) → Succeeds (k a))
    → Succeeds (r >>= k)
unfolding Succeeds
bind-Succeeds r k (a, e) g = subst (λ x. Succeeds (x >>= k)) (sym e) (g a)

range_width_local-Succeeds :
    (c : AstNode) → (fields c).range_valid ≡ true → Succeeds (range_width_local c)
unfolding Succeeds range_width_local
range_width_local-Succeeds (node t f cs as') h =
    if_elim Succeeds f.range_valid _ _ (λ _. (_, refl)) (λ n. cc)

item_width-Succeeds : (f : Fields) (cs : Nodes) → is_sized cs ≡ true → Succeeds (item_width f cs)
unfolding item_width is_sized Succeeds
item_width-Succeeds f nil h =
    if_elim Succeeds (ltb_ℤ f.range_left (pos 0)) _ _ (λ _. (_, refl)) (λ _. (_, refl))
item_width-Succeeds f (cons c cs) h =
    if_elim Succeeds (is_range c) _ _
      (λ z.
        bind-Succeeds (range_width_local c) _
          (range_width_local-Succeeds c
            (subst (λ b. (if b then (fields c).range_valid else true) ≡ true) z h))
          (λ w. (_, refl)))
      (λ _. if_elim Succeeds (ltb_ℤ f.range_left (pos 0)) _ _ (λ _. (_, refl)) (λ _. (_, refl)))

struct_dimensions-Succeeds :
    (simplify : AstNode → AstNode) (f : Fields) (cs : Nodes)
    → ranges_last cs ≡ true
    → Succeeds (struct_dimensions simplify f cs)
unfolding struct_dimensions Succeeds
struct_dimensions-Succeeds simplify f cs h =
    let same = all_ranges-removed_tail cs in
    if_elim Succeeds (all_ranges (removed_tail cs)) _ _ (λ _. (_, refl)) (λ n. cc)

module _ (simplify : AstNode → AstNode) (linked : Text → Bool) where
  layout_round-Succeeds :
      (k : Member) (t : AstNodeType) (f : Fields) (cs : Nodes) (as' : Attributes) (base : ℤ)
      (inner : ℤ → Result Layout) (inside : Bool) (l : Layout)
      → layable_member k (is_union t) cs inside ≡ true
      → (is_union t ≡ false → inside ≡ true → (at : ℤ) → Succeeds (inner at))
      → Succeeds (layout_round simplify linked k false base t f cs as' inner l)
  unfolding layable_member Succeeds add_member
  layout_round-Succeeds range t f cs as' base inner inside l h i = (l, refl)
  layout_round-Succeeds struct t f cs as' base inner inside l h i =
      let rest = and_true_right (ranges_last cs) _ h in
      let plain = false_of_not (is_union t) (and_true_left (not (is_union t)) inside rest) in
      bind-Succeeds (struct_dimensions simplify f cs) _
        (struct_dimensions-Succeeds simplify f cs (and_true_left _ (not (is_union t) && inside) h))
        (λ dims.
          bind-Succeeds (inner (base +ℤ l.offset)) _
            (i plain (and_true_right (not (is_union t)) inside rest) (base +ℤ l.offset))
            (λ j. (_, refl)))
  layout_round-Succeeds item t f cs as' base inner inside l h i =
      bind-Succeeds (item_width f cs) _ (item_width-Succeeds f cs h) (λ w. (_, refl))
  layout_round-Succeeds other t f cs as' base inner inside l h i = cc

  layout_members-Succeeds :
      (ns : Nodes) (base : ℤ)
      → layable ns ≡ true
      → Succeeds (layout_members simplify linked false base ns)
  unfolding layable layout_members Succeeds
  layout_members-Succeeds nil base h = (_, refl)
  layout_members-Succeeds (cons (node t f cs as') rest) base h =
      let own = layable_member (member t) (is_union t) cs (layable cs) in
      bind-Succeeds (layout_members simplify linked false base rest) _
        (layout_members-Succeeds rest base (and_true_right own (layable rest) h))
        (λ l.
          layout_round-Succeeds (member t) t f cs as' base
            (λ at. layout_members simplify linked (is_union t) at cs) (layable cs) l
            (and_true_left own (layable rest) h)
            (λ plain inside at.
              subst (λ u. Succeeds (layout_members simplify linked u at cs)) (sym plain)
                (layout_members-Succeeds cs at inside)))

  -- `simplify_struct` succeeds on a struct that embeds no union and has only structs, members and
  -- ranges for children, whose ranges stand behind them, and whose members have constant ranges; and
  -- so do the embedded structs.
  pub simplify_struct-Succeeds :
      (t : AstNodeType) (f : Fields) (cs : Nodes) (as' : Attributes) (base : ℤ)
      → is_union t ≡ false
      → ranges_last cs ≡ true
      → layable cs ≡ true
      → Succeeds (simplify_struct simplify linked (node t f cs as') base)
  unfolding simplify_struct Succeeds
  simplify_struct-Succeeds t f cs as' base u h k =
      bind-Succeeds (struct_dimensions simplify f cs) _ (struct_dimensions-Succeeds simplify f cs h)
        (λ dims.
          bind-Succeeds (layout_members simplify linked (is_union t) base cs) _
            (subst (λ b. Succeeds (layout_members simplify linked b base cs)) (sym u)
              (layout_members-Succeeds cs base k))
            (λ l. (_, refl)))
