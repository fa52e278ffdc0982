-- ===== src/Force/Kept.antt =====
-- src/frontends/systemverilog/uhdm_ast.cc, `check_memories`: what is known of a memory that
-- `$readmemh` fills.
use synlig.Common.{
  ℕ, ◌≡◌, refl, ap, ◌∙◌, true, false, List, [], ◌∷◌, ◌++◌, Option, none, some, if_elim, if_false,
  ◌≢◌, Bool-cases, inl, inr, arith,
}
use synlig.Common.Checked.{Checked, fails, gives, ◌>>=◌}
use synlig.Common.Text.{Text, codes, text_eq, text_eq→eq}
use synlig.Ast.{AstNode, Nodes, node, nil, cons, str, children, empty}
use synlig.Force.{
  Maps, Memories, find_memory, add_force_convert_attribute, force_unset, access, declare,
  insert_new, is_whole_access, is_memory_wire, readmem, memory_name, visit, visit_typed,
  visit_identifier, is_wire, is_identifier, inner_scope, is_function, enclosing, check_node,
  check_children, forced_value, Error,
}

find-add_same :
    (name : Text) (val : ℕ) (memories : Memories) {attr : Option ℕ}
    → find_memory name memories ≡ some attr
    → find_memory name (add_force_convert_attribute name val memories) ≡ some (some val)
unfolding find_memory add_force_convert_attribute
find-add_same name val [] h = cc
find-add_same name val ((third, attr) ∷ memories) h = grind (arith, find-add_same name val memories)

text_eq_same : (s t u : Text) → text_eq s t ≡ true → text_eq s u ≡ text_eq t u
text_eq_same s t u h = ap (λ x. text_eq x u) (text_eq→eq s t h)

find-add_other :
    (name other : Text) (val : ℕ) (memories : Memories)
    → text_eq other name ≡ false
    → find_memory name (add_force_convert_attribute other val memories) ≡ find_memory name memories
unfolding find_memory add_force_convert_attribute
find-add_other name other val [] h = refl
find-add_other name other val ((third, attr) ∷ memories) h =
    grind (arith, find-add_other name other val memories h, text_eq_same third other name)

-- The memory of the name is one that `$readmemh` fills.
abbrev pub IsFilled : Text → Memories → Type 0
IsFilled name memories = find_memory name memories ≡ some (some 0)

read-IsFilled :
    (name other : Text) (memories : Memories)
    → IsFilled name memories
    → IsFilled name (add_force_convert_attribute other 0 memories)
read-IsFilled name other memories h = elim (Bool-cases (text_eq other name)) [
  | inl same ↦
      ap (λ k. find_memory name (add_force_convert_attribute k 0 memories))
        (text_eq→eq other name same)
      ∙ find-add_same name 0 memories h
  | inr differ ↦ find-add_other name other 0 memories differ ∙ h
]

different :
    (name other : Text) (memories : Memories)
    → IsFilled name memories
    → find_memory other memories ≢ some (some 0)
    → text_eq other name ≡ false
different name other memories h k = elim (Bool-cases (text_eq other name)) [
  | inl same ↦ absurd (k (ap (λ x. find_memory x memories) (text_eq→eq other name same) ∙ h))
  | inr differ ↦ differ
]

force-IsFilled :
    (name other : Text) (memories : Memories) (found : Option (Option ℕ))
    → find_memory other memories ≡ found
    → IsFilled name memories
    → IsFilled name (force_unset other found memories)
force-IsFilled name other memories none e h = h
force-IsFilled name other memories (some (some v)) e h = h
force-IsFilled name other memories (some none) e h =
    find-add_other name other 1 memories (different name other memories h (λ k. cc)) ∙ h

access-IsFilled :
    (name : Text) (cs : Nodes) (found : Option Text) (memories : Memories)
    → IsFilled name memories
    → IsFilled name (access cs found memories)
unfolding access
access-IsFilled name cs none memories h = h
access-IsFilled name cs (some full) memories h =
    if_elim (IsFilled name) (is_whole_access cs) _ memories
      (λ e. force-IsFilled name full memories (find_memory full memories) refl h) (λ e. h)

-- What holds of the state that a step gives.
abbrev pub Gives : {A : Type 0} → (A → Type 0) → Checked Error A → Type 0
Gives P (fails e) = Unit
Gives P (gives a) = P a

chain-Gives :
    {A B : Type 0} (P : A → Type 0) (Q : B → Type 0) (c : Checked Error A)
    (next : A → Checked Error B)
    → Gives P c
    → ((a : A) → P a → Gives Q (next a))
    → Gives Q (c >>= next)
chain-Gives P Q (fails e) next h k = tt
chain-Gives P Q (gives a) next h k = k a h

any-Gives : {A : Type 0} (c : Checked Error A) → Gives (λ a. Unit) c
any-Gives (fails e) = tt
any-Gives (gives a) = tt

insert-IsFilled :
    (name other : Text) (attr : Option ℕ) (memories : Memories) (found : Option (Option ℕ))
    → find_memory other memories ≡ found
    → IsFilled name memories
    → Gives (IsFilled name) (insert_new other attr memories found)
unfolding find_memory
insert-IsFilled name other attr memories (some old) e h = tt
insert-IsFilled name other attr memories none e h =
    if_false (text_eq other name) _ _ (different name other memories h (λ k. cc)) ∙ h

declare-IsFilled :
    (name scope : Text) (n : AstNode) (memories : Memories)
    → IsFilled name memories
    → Gives (IsFilled name) (declare scope n memories)
unfolding declare
declare-IsFilled name scope n memories h =
    if_elim (Gives (IsFilled name)) (is_memory_wire n) _ (gives memories)
      (λ e. insert-IsFilled name _ (forced_value n) memories _ refl h) (λ e. h)

readmem-IsFilled :
    (name scope : Text) (found : Option Text) (memories : Memories)
    → IsFilled name memories
    → Gives (IsFilled name) (readmem scope found memories)
unfolding readmem
readmem-IsFilled name scope none memories h = tt
readmem-IsFilled name scope (some other) memories h =
    read-IsFilled name (scope ++ (46 ∷ other)) memories h

visit_identifier-IsFilled :
    (name scope : Text) (n : AstNode) (memories : Memories)
    → IsFilled name memories
    → Gives (IsFilled name) (visit_identifier scope n memories)
unfolding visit_identifier
visit_identifier-IsFilled name scope n memories h =
    chain-Gives (λ found. Unit) (IsFilled name) (enclosing scope (str n) memories) _
      (any-Gives (enclosing scope (str n) memories))
      (λ found u. access-IsFilled name (children n) found memories h)

visit-IsFilled :
    (name scope : Text) (n : AstNode) (memories : Memories)
    → IsFilled name memories
    → Gives (IsFilled name) (visit scope n memories)
unfolding visit visit_typed
visit-IsFilled name scope n memories h =
    chain-Gives (IsFilled name) (IsFilled name) _ _
      (if_elim (Gives (IsFilled name)) (text_eq (str n) (codes "\\$readmemh")) _ (gives memories)
        (λ e. readmem-IsFilled name scope (memory_name (children n)) memories h) (λ e. h))
      (λ memories' h'.
        if_elim (Gives (IsFilled name)) (is_wire n) _ _
          (λ e. declare-IsFilled name scope n memories' h')
          (λ e.
            if_elim (Gives (IsFilled name)) (is_identifier n) _ (gives memories')
              (λ e. visit_identifier-IsFilled name scope n memories' h') (λ e. h')))

abbrev pub HasFilled : Text → Maps → Type 0
HasFilled name (memories, closed) = IsFilled name memories

mutual
  unfolding check_node

  check_node-HasFilled :
      (name scope : Text) (n : AstNode) (maps : Maps)
      → HasFilled name maps
      → Gives (HasFilled name) (check_node scope n maps)
  check_node-HasFilled name scope (node t f cs as') maps h =
      chain-Gives (HasFilled name) (HasFilled name)
        (check_children (inner_scope scope (node t f nil empty)) cs maps) _
        (check_children-HasFilled name (inner_scope scope (node t f nil empty)) cs maps h)
        (λ (memories, closed) h'.
          chain-Gives (IsFilled name) (HasFilled name) (visit scope (node t f cs as') memories) _
            (visit-IsFilled name scope (node t f cs as') memories h') (λ memories' h''. h''))

  check_children-HasFilled :
      (name scope : Text) (ns : Nodes) (maps : Maps)
      → HasFilled name maps
      → Gives (HasFilled name) (check_children scope ns maps)
  check_children-HasFilled name scope nil maps h = h
  check_children-HasFilled name scope (cons n ns) (memories, closed) h =
      if_elim (Gives (HasFilled name)) (is_function n) _ _
        (λ e.
          chain-Gives (λ m. Unit) (HasFilled name) (check_node scope n ([], closed)) _
            (any-Gives (check_node scope n ([], closed)))
            (λ (inner, closed') u.
              check_children-HasFilled name scope ns (memories, inner ∷ closed') h))
        (λ e.
          chain-Gives (HasFilled name) (HasFilled name) (check_node scope n (memories, closed)) _
            (check_node-HasFilled name scope n (memories, closed) h)
            (λ maps' h'. check_children-HasFilled name scope ns maps' h'))

-- A memory whose attribute `$readmemh` has set to 0 still has it at 0 when the rest of a design has been
-- checked, if no error ends the check: no access forces the memory to be converted.
pub check_children-filled :
    (name scope : Text) (ns : Nodes) (memories : Memories) (closed : List Memories)
    → IsFilled name memories
    → Gives (HasFilled name) (check_children scope ns (memories, closed))
check_children-filled name scope ns memories closed h =
    check_children-HasFilled name scope ns (memories, closed) h
