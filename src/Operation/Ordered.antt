-- ===== src/Operation/Ordered.antt =====
-- The values of a parameter's pattern stand in the order of the members.
use synlig.Common.{
  ℕ, suc, ◌≤◌, ◌<◌, ◌≡◌, Bool, true, false, List, [], ◌∷◌, ◌++◌, Option, none, some, ltb, ◌==◌,
  ==_iff, if◌then◌else◌, refl, sym, ap, ◌∙◌, if_elim, if_false, arith,
}
use mathlib.Core.Path.{subst}
use synlig.Common.Text.{Text}
use synlig.Common.Checked.{gives, fails, ◌>>=◌}
use synlig.Ast.{AstNode, children, type}
use synlig.Operation.Pattern.{
  Result, insert_child, order_operands, is_assignment, key_of, position_of, second,
}

-- The keys ascend, from a bound on.
unfoldable pub IsAscending : ℕ → List (ℕ × AstNode) → Type 0
IsAscending b [] = Unit
IsAscending b ((k, n) ∷ rest) = (b ≤ k) × IsAscending (suc k) rest

unfoldable pub lookup_child : ℕ → List (ℕ × AstNode) → Option AstNode
lookup_child k [] = none
lookup_child k ((j, n) ∷ rest) = if k == j then some n else lookup_child k rest

abbrev pub or_else : Option AstNode → Option AstNode → Option AstNode
or_else none o = o
or_else (some n) o = some n

before : (k j : ℕ) → ltb k j ≡ true → suc k ≤ j
before k j h = ground arith

behind : (k j : ℕ) → (k == j) ≡ false → ltb k j ≡ false → suc j ≤ k
behind k j h h' = ground arith

or_else-none : (o : Option AstNode) → or_else o none ≡ o
or_else-none none = refl
or_else-none (some n) = refl

insert_child-IsAscending :
    (b k : ℕ) (n : AstNode) (m : List (ℕ × AstNode))
    → b ≤ k
    → IsAscending b m
    → IsAscending b (insert_child k n m)
unfolding IsAscending insert_child
insert_child-IsAscending b k n [] h a = (h, tt)
insert_child-IsAscending b k n ((j, m) ∷ rest) h (le, a) =
    if_elim (IsAscending b) (k == j) _ _ (λ _. (le, a))
      (λ ne.
        if_elim (IsAscending b) (ltb k j) _ _ (λ lt. (h, (before k j lt, a)))
          (λ ge. (le, insert_child-IsAscending (suc j) k n rest (behind k j ne ge) a)))

-- Below its bound there is nothing.
lookup_child_below :
    (b k : ℕ) (m : List (ℕ × AstNode)) → k < b → IsAscending b m → lookup_child k m ≡ none
unfolding IsAscending lookup_child
lookup_child_below b k [] h a = refl
lookup_child_below b k ((j, n) ∷ rest) h (le, a) =
    if_elim (λ o. o ≡ none) (k == j) _ _ (λ z. let same = (==_iff k j).0 z in absurd (omega arith))
      (λ _. lookup_child_below (suc j) k rest (omega arith) a)

distinct : (k j : ℕ) → k < j → (k == j) ≡ false
distinct k j h = ground arith

earlier :
    (b c : Bool) (n m : AstNode) (o : Option AstNode)
    → (b ≡ true → (c ≡ false) × (o ≡ none))
    → (if b then some n else if c then some m else o)
      ≡ or_else (if c then some m else o) (if b then some n else none)
earlier true true n m o h = let no = (h refl).0 in cc
earlier true false n m o h = ap (λ x. or_else x (some n)) (sym (h refl).1)
earlier false true n m o h = refl
earlier false false n m o h = sym (or_else-none o)

later :
    (c : Bool) (m : AstNode) (o o' new : Option AstNode)
    → o' ≡ or_else o new
    → (if c then some m else o') ≡ or_else (if c then some m else o) new
later true m o o' new h = refl
later false m o o' new h = h

lookup_child-insert_child :
    (b k j : ℕ) (n : AstNode) (m : List (ℕ × AstNode))
    → IsAscending b m
    → lookup_child j (insert_child k n m)
      ≡ or_else (lookup_child j m) (if j == k then some n else none)
unfolding lookup_child insert_child IsAscending
lookup_child-insert_child b k j n [] a = refl
lookup_child-insert_child b k j n ((i, m) ∷ rest) (le, a) =
    let found = if j == i then some m else lookup_child j rest in
    let new = if j == k then some n else none in
    if_elim (λ l. lookup_child j l ≡ or_else found new) (k == i) _ _
      (λ z.
        if_elim (λ o. o ≡ or_else o new) (j == i) _ _ (λ _. refl)
          (λ ne.
            sym (or_else-none _)
            ∙ ap (or_else (lookup_child j rest))
                (sym (if_false _ _ _ (ap (λ x. j == x) ((==_iff k i).0 z) ∙ ne)))))
      (λ ne.
        if_elim (λ l. lookup_child j l ≡ or_else found new) (ltb k i) _ _
          (λ lt. earlier (j == k) (j == i) n m (lookup_child j rest) (λ z.
            let same = (==_iff j k).0 z in
            let below = before k i lt in
            (distinct j i (omega arith), lookup_child_below (suc i) j rest (omega arith) a)))
          (λ ge.
            later (j == i) m (lookup_child j rest) _ new
              (lookup_child-insert_child (suc i) k j n rest a)))

-- The value for the member at a position: that of the first assignment whose name stands there.
unfoldable pub first_at : AstNode → ℕ → List AstNode → Option AstNode
first_at param_type j [] = none
first_at param_type j (n ∷ ns) =
    let rest = first_at param_type j ns in
    if is_assignment (type n)
    then elim (key_of (children n)) [
      | fails e ↦ rest
      | gives key ↦
          if j == position_of key (children param_type)
          then elim (second (children n)) [ fails e ↦ rest | gives v ↦ some v ]
          else rest
    ]
    else rest

or_else_assoc : (a b c : Option AstNode) → or_else (or_else a b) c ≡ or_else a (or_else b c)
or_else_assoc none b c = refl
or_else_assoc (some n) b c = refl

or_else_if :
    (b : Bool) (v : AstNode) (o : Option AstNode)
    → or_else (if b then some v else none) o ≡ (if b then some v else o)
or_else_if true v o = refl
or_else_if false v o = refl

abbrev ordered_of : Result (List AstNode × List (ℕ × AstNode)) → List (ℕ × AstNode)
ordered_of (fails e) = []
ordered_of (gives (others, ordered)) = ordered

module _ (t : AstNode) (others : List AstNode) (ordered : List (ℕ × AstNode)) where
  -- The map ascends, and has what `m` has and then what the operands give.
  abbrev Holds : List (ℕ × AstNode) → (ℕ → Option AstNode) → Type 0
  Holds m first =
      IsAscending 0 ordered
      × ((j : ℕ) → lookup_child j ordered ≡ or_else (lookup_child j m) (first j))

  order_round :
      (n : AstNode) (ns pushed : List AstNode) (m : List (ℕ × AstNode))
      → ((p : List AstNode) (l : List (ℕ × AstNode))
          → IsAscending 0 l
          → order_operands (some t) ns p l ≡ gives (others, ordered)
          → Holds l (λ j. first_at t j ns))
      → IsAscending 0 m
      → (b : Bool) (key : Result Text) (value : Result AstNode)
      → (if b
          then (key >>= λ k. value >>= λ v.
              order_operands (some t) ns pushed (insert_child (position_of k (children t)) v m))
          else order_operands (some t) ns (pushed ++ n ∷ []) m)
        ≡ gives (others, ordered)
      → Holds m (λ j.
        if b
        then elim key [
          | fails e ↦ first_at t j ns
          | gives k ↦
              if j == position_of k (children t)
              then elim value [ fails e ↦ first_at t j ns | gives v ↦ some v ]
              else first_at t j ns
        ]
        else first_at t j ns)
  order_round n ns pushed m next a false key value e = next _ m a e
  order_round n ns pushed m next a true (gives k) (gives v) e =
      let p = position_of k (children t) in
      let (up, same) =
        next pushed (insert_child p v m) (insert_child-IsAscending 0 p v m (omega arith) a) e in
      (
        up,
        λ j.
            same j
            ∙ ap (λ o. or_else o (first_at t j ns)) (lookup_child-insert_child 0 p j v m a)
            ∙ or_else_assoc (lookup_child j m) _ (first_at t j ns)
            ∙ ap (or_else (lookup_child j m)) (or_else_if (j == p) v (first_at t j ns)),
      )
  order_round n ns pushed m next a true (gives k) (fails x) e = cc
  order_round n ns pushed m next a true (fails x) value e = cc

  order_operands_from :
      (ns pushed : List AstNode) (m : List (ℕ × AstNode))
      → IsAscending 0 m
      → order_operands (some t) ns pushed m ≡ gives (others, ordered)
      → Holds m (λ j. first_at t j ns)
  unfolding order_operands first_at
  order_operands_from [] pushed m a e =
      subst (λ l. Holds l (λ j. none)) (sym (ap ordered_of e))
        (subst (IsAscending 0) (ap ordered_of e) a, λ j. sym (or_else-none _))
  order_operands_from (n ∷ ns) pushed m a e =
      order_round n ns pushed m (order_operands_from ns) a (is_assignment (type n))
        (key_of (children n)) (second (children n)) e

  -- The values that a pattern assigns to the members of a parameter of type `t` stand in the order
  -- of the members, one for each member that is named, and that of the first assignment where a
  -- member is named twice.
  pub order_operands_lem :
      (ns : List AstNode)
      → order_operands (some t) ns [] [] ≡ gives (others, ordered)
      → IsAscending 0 ordered × ((j : ℕ) → lookup_child j ordered ≡ first_at t j ns)
  unfolding IsAscending lookup_child
  order_operands_lem ns e = order_operands_from ns [] [] tt e
