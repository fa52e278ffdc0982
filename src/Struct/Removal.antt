-- ===== src/Struct/Removal.antt =====
-- The range children of a struct, which `simplify_struct` of
-- src/frontends/systemverilog/uhdm_ast.cc reads behind the end that `std::remove_if` returns.
use synlig.Common.{
  ℕ, zero, suc, ◌≤◌, Bool, true, ◌≡◌, refl, ap, sym, ◌++◌, arith, if◌then◌else◌, Bool-cases, inl,
  inr,
}
use synlig.Common.Checked.{gives, fails}
use synlig.Ast.{AstNode, Fields, Nodes, nil, cons, is_range}
use synlig.Struct.{
  use_after_free, all_ranges, count_kept, drop_nodes, removed_tail, range_dimensions,
  struct_dimensions,
}

-- The range children.
abbrev pub ranges_of : Nodes → Nodes
ranges_of nil = nil
ranges_of (cons n ns) = if is_range n then cons n (ranges_of ns) else ranges_of ns

-- Behind a range child there are only range children.
abbrev pub ranges_last : Nodes → Bool
ranges_last nil = true
ranges_last (cons n ns) = if is_range n then all_ranges ns else ranges_last ns

count_kept-le : (k : ℕ) (ns : Nodes) → all_ranges (drop_nodes k ns) ≡ true → count_kept ns ≤ k
count_kept-le k nil h = omega arith
count_kept-le zero (cons n ns) h = ground (arith, count_kept-le zero ns)
count_kept-le (suc k) (cons n ns) h = ground (arith, count_kept-le k ns h)

count_kept-all_ranges : (ns : Nodes) → all_ranges ns ≡ true → count_kept ns ≡ 0
count_kept-all_ranges ns h = omega (arith, count_kept-le 0 ns h)

all_ranges-count_kept : (ns : Nodes) → count_kept ns ≡ 0 → all_ranges ns ≡ true
all_ranges-count_kept nil h = refl
all_ranges-count_kept (cons n ns) h = ground (arith, all_ranges-count_kept ns)

ranges_of-all_ranges : (ns : Nodes) → all_ranges ns ≡ true → ranges_of ns ≡ ns
ranges_of-all_ranges nil h = refl
ranges_of-all_ranges (cons n ns) h = ground (arith, ranges_of-all_ranges ns)

removed_tail-range :
    (k : ℕ) (n : AstNode) (ns : Nodes)
    → count_kept ns ≡ k
    → is_range n ≡ true
    → all_ranges (drop_nodes k (cons n ns)) ≡ all_ranges ns
removed_tail-range zero n ns e h = ground arith
removed_tail-range (suc k) n ns e h = elim (Bool-cases (all_ranges (drop_nodes k ns))) [
  | inl yes_tail ↦ absurd (omega (arith, count_kept-le k ns yes_tail))
  | inr no_tail ↦ elim (Bool-cases (all_ranges ns)) [
    | inl all ↦ absurd (omega (arith, count_kept-all_ranges ns all))
    | inr not_all ↦ cc
  ]
]

pub all_ranges-removed_tail : (cs : Nodes) → all_ranges (removed_tail cs) ≡ ranges_last cs
unfolding removed_tail
all_ranges-removed_tail nil = refl
all_ranges-removed_tail (cons n ns) = elim (Bool-cases (is_range n)) [
  | inl e ↦ rw e (removed_tail-range (count_kept ns) n ns refl e)
  | inr e ↦ rw e (all_ranges-removed_tail ns)
]

removed_tail-ranges_last : (cs : Nodes) → ranges_last cs ≡ true → removed_tail cs ≡ ranges_of cs
unfolding removed_tail
removed_tail-ranges_last nil h = refl
removed_tail-ranges_last (cons n ns) h = elim (Bool-cases (is_range n)) [
  | inl e ↦
      let all : all_ranges ns ≡ true = ground arith in
      rw (e, count_kept-all_ranges ns all) (ap (cons n) (sym (ranges_of-all_ranges ns all)))
  | inr e ↦ rw e (removed_tail-ranges_last ns (ground arith))
]

-- `simplify_struct` takes the range children of a struct for its dimensions, in their order, where
-- no other child stands behind one of them; else it deletes a member and reads it again.
pub struct_dimensions_lem :
    (simplify : AstNode → AstNode) (f : Fields) (cs : Nodes)
    → struct_dimensions simplify f cs ≡ (
        if ranges_last cs
        then gives (f.dimensions ++ range_dimensions simplify (ranges_of cs))
        else fails use_after_free)
unfolding struct_dimensions
struct_dimensions_lem simplify f cs = elim (Bool-cases (ranges_last cs)) [
  | inl e ↦ rw (all_ranges-removed_tail cs, e, removed_tail-ranges_last cs e)
  | inr e ↦ rw (all_ranges-removed_tail cs, e)
]
