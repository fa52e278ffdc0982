-- ===== src/Hierarchy/Tidy.antt =====
-- src/frontends/systemverilog/uhdm_ast.cc, `add_or_replace_child`: the names of the children stay
-- different, and there is one initial.
use mathlib.Core.Path.{subst}
use synlig.Common.{
  Bool, true, false, ◌&&◌, ◌||◌, not, List, [], ◌∷◌, ◌++◌, Option, none, some, if◌then◌else◌, ◌≡◌,
  refl, sym, ap, ◌∙◌, if_elim, arith, or_false_left, or_false_right, false_of_not,
}
use synlig.Common.Text.{Text, codes, text_eq, text_eq→eq}
use synlig.Ast.{
  AstNode, AstNodeType, Attributes, Nodes, Fields, node, nil, cons, type, str, attributes, ◌++ₙ◌,
}
use synlig.Attributes.{lookup}
use synlig.Hierarchy.{
  is_unnamed, is_initial, has_str, replace_first, merged, keep_direction, keep_sign, keep_children,
  keep_ranges, keep_value_sign, kept_range, with_attribute, join_first, join_initial, with_children,
  put_front, put_behind, before_always, add_initial, add_or_replace_child, has_initial,
  is_ast_always, is_parameter,
}

-- What tells children apart: the name, and whether it is an initial without a name.
abbrev pub Key : Type 0
Key = Text × Bool

abbrev pub key : AstNode → Key
key n = (str n, is_unnamed (str n) && is_initial (type n))

abbrev pub keys : Nodes → List Key
keys nil = []
keys (cons n ns) = key n ∷ keys ns

-- Two children of one name, or two initials without a name.
abbrev pub clash : Key → Key → Bool
clash (s, b) (s', b') = (not (is_unnamed s) && text_eq s s') || (b && b')

abbrev pub clashes : Key → List Key → Bool
clashes k [] = false
clashes k (k' ∷ ks) = clash k k' || clashes k ks

abbrev pub AreTidy : List Key → Type 0
AreTidy [] = Unit
AreTidy (k ∷ ks) = (clashes k ks ≡ false) × AreTidy ks

abbrev pub IsTidy : Nodes → Type 0
IsTidy ns = AreTidy (keys ns)

module _ (old : Fields) where
  str-keep_direction : (n : AstNode) → str (keep_direction old n) ≡ str n
  unfolding keep_direction
  str-keep_direction (node t f cs as') =
      if_elim (λ n. str n ≡ f.str) (old.is_input || old.is_output) _ (node t f cs as') (λ e. refl)
        (λ e. refl)

  str-keep_sign : (n : AstNode) → str (keep_sign old n) ≡ str n
  unfolding keep_sign
  str-keep_sign (node t f cs as') = refl

str-keep_children : (old : Nodes) (n : AstNode) → str (keep_children old n) ≡ str n
unfolding keep_children
str-keep_children old (node t f nil as') = refl
str-keep_children old (node t f (cons c cs) as') = refl

str-with_attribute :
    (k : Text) (v : Option AstNode) (n : AstNode) → str (with_attribute k v n) ≡ str n
str-with_attribute k none n = refl
str-with_attribute k (some v) (node t f cs as') = refl

str-keep_ranges : (k : Text) (old : Attributes) (n : AstNode) → str (keep_ranges k old n) ≡ str n
unfolding keep_ranges
str-keep_ranges k old n =
    str-with_attribute k (kept_range (lookup old k) (lookup (attributes n) k)) n

str-keep_value_sign :
    (old : AstNodeType) (os : Nodes) (n : AstNode) → str (keep_value_sign old os n) ≡ str n
unfolding keep_value_sign
str-keep_value_sign old nil n = refl
str-keep_value_sign old (cons o os) (node t f nil as') = refl
str-keep_value_sign old (cons o os) (node t f (cons c cs) as') =
    if_elim (λ n. str n ≡ f.str) (is_parameter old) _ (node t f (cons c cs) as') (λ e. refl)
      (λ e. refl)

str-merged : (old child : AstNode) → str (merged old child) ≡ str child
unfolding merged
str-merged (node t f cs as') child =
    str-keep_value_sign t cs _
    ∙ str-keep_ranges (codes "$synlig$unpacked_ranges") as' _
    ∙ str-keep_ranges (codes "$synlig$packed_ranges") as' _
    ∙ str-keep_children cs _
    ∙ str-keep_sign f _
    ∙ str-keep_direction f child

named_key : (n : AstNode) → is_unnamed (str n) ≡ false → key n ≡ (str n, false)
named_key n h = rw h refl

key-merged :
    (old child : AstNode)
    → is_unnamed (str child) ≡ false
    → text_eq (str old) (str child) ≡ true
    → key (merged old child) ≡ key old
key-merged old child h e =
    let same = text_eq→eq (str old) (str child) e in
    named_key (merged old child) (ap is_unnamed (str-merged old child) ∙ h)
    ∙ ap (λ s. (s, false)) (str-merged old child ∙ sym same)
    ∙ sym (named_key old (ap is_unnamed same ∙ h))

keys-replace_first :
    (child : AstNode) (ns : Nodes)
    → is_unnamed (str child) ≡ false
    → keys (replace_first child ns) ≡ keys ns
unfolding replace_first
keys-replace_first child nil h = refl
keys-replace_first child (cons n ns) h =
    if_elim (λ ms. keys ms ≡ key n ∷ keys ns) (text_eq (str n) (str child)) _ _
      (λ e. ap (λ k. k ∷ keys ns) (key-merged n child h e))
      (λ e. ap (◌∷◌ (key n)) (keys-replace_first child ns h))

keys-append : (ns : Nodes) (n : AstNode) → keys (ns ++ₙ cons n nil) ≡ keys ns ++ (key n ∷ [])
keys-append nil n = refl
keys-append (cons m ns) n = ap (◌∷◌ (key m)) (keys-append ns n)

-- What holds of the result, if there is one.
abbrev pub HoldsOf : {A : Type 0} → (A → Type 0) → Option A → Type 0
HoldsOf P none = Unit
HoldsOf P (some a) = P a

key-with_children :
    (n : AstNode) (cs : Option Nodes) → HoldsOf (λ m. key m ≡ key n) (with_children n cs)
key-with_children n none = tt
key-with_children (node t f old as') (some cs) = refl

keys-put_front :
    (n : AstNode) (o : Option AstNode) (ns : Nodes)
    → HoldsOf (λ m. key m ≡ key n) o
    → HoldsOf (λ ms. keys ms ≡ key n ∷ keys ns) (put_front o ns)
keys-put_front n none ns h = tt
keys-put_front n (some m) ns h = ap (λ k. k ∷ keys ns) h

keys-put_behind :
    (n : AstNode) (o : Option Nodes) (ks : List Key)
    → HoldsOf (λ ms. keys ms ≡ ks) o
    → HoldsOf (λ ms. keys ms ≡ key n ∷ ks) (put_behind n o)
keys-put_behind n none ks h = tt
keys-put_behind n (some ms) ks h = ap (◌∷◌ (key n)) h

keys-join_first :
    (child : AstNode) (ns : Nodes) → HoldsOf (λ ms. keys ms ≡ keys ns) (join_first child ns)
unfolding join_first join_initial
keys-join_first child nil = tt
keys-join_first child (cons n ns) =
    if_elim (HoldsOf (λ ms. keys ms ≡ key n ∷ keys ns)) (is_initial (type n)) _ _
      (λ e. keys-put_front n (join_initial n child) ns (key-with_children n _))
      (λ e. keys-put_behind n (join_first child ns) (keys ns) (keys-join_first child ns))

clashes-append :
    (k : Key) (ks : List Key) (k' : Key)
    → clashes k ks ≡ false
    → clash k k' ≡ false
    → clashes k (ks ++ (k' ∷ [])) ≡ false
clashes-append k [] k' h h' = ground arith
clashes-append k (l ∷ ks) k' h h' =
    ground (arith, clashes-append k ks k' (or_false_right (clash k l) (clashes k ks) h) h')

-- No child clashes with the new one.
abbrev AreFree : List Key → Key → Type 0
AreFree [] k' = Unit
AreFree (k ∷ ks) k' = (clash k k' ≡ false) × AreFree ks k'

append-AreTidy : (ks : List Key) (k' : Key) → AreTidy ks → AreFree ks k' → AreTidy (ks ++ (k' ∷ []))
append-AreTidy [] k' h f = (refl, tt)
append-AreTidy (k ∷ ks) k' (h, hs) (f, fs) =
    (clashes-append k ks k' h f, append-AreTidy ks k' hs fs)

text_eq-nil : (s : Text) → text_eq s [] ≡ is_unnamed s
text_eq-nil [] = refl
text_eq-nil (c ∷ s) = refl

-- A child without a name that is no initial clashes with none.
plain-AreFree : (ks : List Key) → AreFree ks ([], false)
plain-AreFree [] = tt
plain-AreFree ((s, b) ∷ ks) = (ground (arith, text_eq-nil s), plain-AreFree ks)

named-AreFree :
    (name : Text) (ns : Nodes)
    → is_unnamed name ≡ false
    → has_str name ns ≡ false
    → AreFree (keys ns) (name, false)
named-AreFree name nil u h = tt
named-AreFree name (cons n ns) u h = (
  ground (arith, or_false_left (text_eq (str n) name) (has_str name ns) h),
  named-AreFree name ns u (or_false_right _ _ h),
)

initial-AreFree : (ns : Nodes) → has_initial ns ≡ false → AreFree (keys ns) ([], true)
unfolding has_initial
initial-AreFree nil h = tt
initial-AreFree (cons n ns) h = (
  ground (arith, text_eq-nil (str n), or_false_left (is_initial (type n)) (has_initial ns) h),
  initial-AreFree ns (or_false_right _ _ h),
)

before_always-clashes :
    (k : Key) (child : AstNode) (ns : Nodes)
    → clashes k (keys ns) ≡ false
    → clash k (key child) ≡ false
    → clashes k (keys (before_always child ns)) ≡ false
unfolding before_always
before_always-clashes k child nil h f = ground arith
before_always-clashes k child (cons n ns) h f =
    if_elim (λ ms. clashes k (keys ms) ≡ false) (is_ast_always (type n)) _ _ (λ e. ground arith)
      (λ e.
        ground (arith, before_always-clashes k child ns (or_false_right (clash k (key n)) _ h) f))

rest_initial : (n : AstNode) (ns : Nodes) → has_initial (cons n ns) ≡ false → has_initial ns ≡ false
unfolding has_initial
rest_initial n ns h = or_false_right (is_initial (type n)) (has_initial ns) h

initial-clashes : (ns : Nodes) → has_initial ns ≡ false → clashes ([], true) (keys ns) ≡ false
unfolding has_initial
initial-clashes nil h = refl
initial-clashes (cons n ns) h = ground (
  arith,
  or_false_left (is_initial (type n)) (has_initial ns) h,
  initial-clashes ns (or_false_right (is_initial (type n)) (has_initial ns) h),
)

pub before_always-IsTidy :
    (child : AstNode) (ns : Nodes)
    → key child ≡ ([], true)
    → has_initial ns ≡ false
    → IsTidy ns
    → IsTidy (before_always child ns)
unfolding before_always
before_always-IsTidy child nil e i h = (refl, tt)
before_always-IsTidy child (cons n ns) e i (h, hs) =
    let (free, others) = initial-AreFree (cons n ns) i in
    if_elim IsTidy (is_ast_always (type n)) _ _
      (λ a. (ap (λ k. clashes k (keys (cons n ns))) e ∙ initial-clashes (cons n ns) i, (h, hs)))
      (λ a. (
        before_always-clashes (key n) child ns h (ap (clash (key n)) e ∙ free),
        before_always-IsTidy child ns e (rest_initial n ns i) hs,
      ))

add_initial-IsTidy :
    (child : AstNode) (ns : Nodes)
    → key child ≡ ([], true)
    → IsTidy ns
    → HoldsOf IsTidy (add_initial child ns)
unfolding add_initial
add_initial-IsTidy child ns e h =
    if_elim (HoldsOf IsTidy) (has_initial ns) (join_first child ns) _
      (λ i. kept (join_first child ns) (keys-join_first child ns))
      (λ i. before_always-IsTidy child ns e i h)
  where
    kept : (o : Option Nodes) → HoldsOf (λ ms. keys ms ≡ keys ns) o → HoldsOf IsTidy o
    kept none k = tt
    kept (some ms) k = subst AreTidy (sym k) h

true_of_not : (a : Bool) → not a ≡ false → a ≡ true
true_of_not a h = ground (arith, h)

named-IsTidy :
    (ns : Nodes) (child : AstNode)
    → is_unnamed (str child) ≡ false
    → IsTidy ns
    → IsTidy (if has_str (str child) ns then replace_first child ns else ns ++ₙ cons child nil)
named-IsTidy ns child u h =
    if_elim IsTidy (has_str (str child) ns) _ _
      (λ e. subst AreTidy (sym (keys-replace_first child ns u)) h)
      (λ e.
        subst AreTidy
          (sym (keys-append ns child ∙ ap (λ k. keys ns ++ (k ∷ [])) (named_key child u)))
          (append-AreTidy (keys ns) (str child, false) h (named-AreFree (str child) ns u e)))

unnamed_eq : (s : Text) → is_unnamed s ≡ true → s ≡ []
unnamed_eq [] h = refl
unnamed_eq (c ∷ s) h = cc

unnamed_key :
    (n : AstNode) (b : Bool) → is_unnamed (str n) ≡ true → is_initial (type n) ≡ b → key n ≡ ([], b)
unnamed_key n b u i = rw (u, i) (ap (λ s. (s, b)) (unnamed_eq (str n) u))

plain-IsTidy :
    (ns : Nodes) (child : AstNode)
    → key child ≡ ([], false)
    → IsTidy ns
    → IsTidy (ns ++ₙ cons child nil)
plain-IsTidy ns child e h =
    subst AreTidy (sym (keys-append ns child ∙ ap (λ k. keys ns ++ (k ∷ [])) e))
      (append-AreTidy (keys ns) ([], false) h (plain-AreFree (keys ns)))

pub result-IsTidy :
    (ns : Nodes) (child : AstNode) → IsTidy ns → HoldsOf IsTidy (add_or_replace_child ns child)
unfolding add_or_replace_child
result-IsTidy ns child h =
    if_elim (HoldsOf IsTidy) (not (is_unnamed (str child))) _ _
      (λ u. named-IsTidy ns child (false_of_not _ u) h)
      (λ u.
        let unnamed = true_of_not (is_unnamed (str child)) u in
        if_elim (HoldsOf IsTidy) (is_initial (type child)) (add_initial child ns) _
          (λ i. add_initial-IsTidy child ns (unnamed_key child true unnamed i) h)
          (λ i. plain-IsTidy ns child (unnamed_key child false unnamed i) h))

-- If the children of a node have different names, where they have one, and at most one of those without a
-- name is an initial, the same holds when a child has been added, if no assertion fails.
pub add_or_replace_child-IsTidy :
    (ns : Nodes) (child : AstNode) {ms : Nodes}
    → IsTidy ns
    → add_or_replace_child ns child ≡ some ms
    → IsTidy ms
add_or_replace_child-IsTidy ns child h e = subst (HoldsOf IsTidy) e (result-IsTidy ns child h)
