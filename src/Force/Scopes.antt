-- ===== src/Force/Scopes.antt =====
-- src/frontends/systemverilog/uhdm_ast.cc, `check_memories`: the walk over the scopes ends at the
-- nearest scope that declares the memory.
use mathlib.Core.List.{append_assoc}
use synlig.Common.{
  ℕ, zero, suc, ◌≤◌, ◌<◌, ◌≡◌, refl, sym, ap, ◌∙◌, Bool, true, false, List, [], ◌∷◌, ◌++◌, Option,
  none, some, ◌==◌, length, take, length-take, arith, Option-cases, inl, inr,
}
use synlig.Common.Checked.{Checked, gives}
use synlig.Common.Text.{Text}
use synlig.Force.{
  Memories, find_memory, shifted_or, last_dot, or_start, found_or, walk, enclosing, Error,
}

some_inj : {a b : ℕ} → some a ≡ some b → a ≡ b
some_inj h = ground (arith, h)

not_below : {n : ℕ} → n < 0 → ⊥
not_below h = omega arith

-- The scopes from the inner one on; the text of a scope has a dot before each name.
abbrev pub scope_text : List Text → Text
scope_text [] = []
scope_text (inner ∷ outer) = scope_text outer ++ (46 ∷ inner)

abbrev pub HasNoDot : Text → Type 0
HasNoDot name = last_dot name ≡ none

abbrev pub HaveNoDot : List Text → Type 0
HaveNoDot [] = Unit
HaveNoDot (name ∷ names) = HasNoDot name × HaveNoDot names

abbrev pub or_else : Option (Option ℕ) → Text → Option Text → Option Text
or_else none full rest = rest
or_else (some attr) full rest = some full

-- The nearest scope that declares the name.
abbrev pub nearest : List Text → Text → Memories → Option Text
nearest [] name memories = or_else (find_memory (46 ∷ name) memories) (46 ∷ name) none
nearest (inner ∷ outer) name memories =
    let full = scope_text (inner ∷ outer) ++ (46 ∷ name) in
    or_else (find_memory full memories) full (nearest outer name memories)

take-append : (s t : Text) → take (length s) (s ++ t) ≡ s
take-append [] t = refl
take-append (c ∷ s) t = ap (◌∷◌ c) (take-append s t)

last_dot-cons : (name : Text) → HasNoDot name → last_dot (46 ∷ name) ≡ some 0
unfolding last_dot shifted_or
last_dot-cons name h = rw h refl

last_dot-append : (s name : Text) → HasNoDot name → last_dot (s ++ (46 ∷ name)) ≡ some (length s)
unfolding last_dot shifted_or
last_dot-append [] name h = last_dot-cons name h
last_dot-append (c ∷ s) name h = rw (last_dot-append s name h) refl

-- The round outside a scope reads the scope around it.
outside :
    (outer inner : Text)
    → HasNoDot inner
    → or_start (last_dot (outer ++ (46 ∷ inner))) ≡ length outer
unfolding or_start
outside outer inner h = rw (last_dot-append outer inner h) refl

length-suc : (outer inner : Text) → (n : ℕ) × (length (outer ++ (46 ∷ inner)) ≡ suc n)
length-suc [] inner = (length inner, refl)
length-suc (c ∷ outer) inner = (length (outer ++ (46 ∷ inner)), refl)

length-outer : (outer inner : Text) → length outer < length (outer ++ (46 ∷ inner))
length-outer [] inner = omega arith
length-outer (c ∷ outer) inner = omega (arith, length-outer outer inner)

module _ (name : Text) (memories : Memories) where
  -- A round of a scope that is not empty.
  walk_round :
      (steps : ℕ) (scope : Text) {before : ℕ}
      → length scope ≡ suc before
      → walk (suc steps) name memories scope (length scope)
        ≡ found_or (scope ++ (46 ∷ name)) (find_memory (scope ++ (46 ∷ name)) memories) (
            walk steps name memories
              (take (or_start (last_dot scope)) (scope ++ (46 ∷ name)))
              (or_start (last_dot scope)))
  unfolding walk found_or
  walk_round steps scope {before} h =
      let whole = ap (λ n. take n (scope ++ (46 ∷ name))) (sym h) ∙ take-append scope (46 ∷ name) in
      ap (walk (suc steps) name memories scope) h ∙ rw (walk, whole) refl

  take-outer :
      (outer inner : Text) → take (length outer) ((outer ++ (46 ∷ inner)) ++ (46 ∷ name)) ≡ outer
  take-outer outer inner =
      ap (take (length outer)) (append_assoc outer (46 ∷ inner) (46 ∷ name))
      ∙ take-append outer ((46 ∷ inner) ++ (46 ∷ name))

  found_or-gives :
      (full : Text) (found : Option (Option ℕ)) (rest : Option Text)
      → found_or full found (gives rest) ≡ gives (or_else found full rest)
  unfolding found_or
  found_or-gives full none rest = refl
  found_or-gives full (some attr) rest = refl

  walk-nearest :
      (steps : ℕ) (scopes : List Text)
      → length (scope_text scopes) < steps
      → HaveNoDot scopes
      → walk steps name memories (scope_text scopes) (length (scope_text scopes))
        ≡ gives (nearest scopes name memories)
  unfolding walk
  walk-nearest zero scopes h d = absurd (not_below h)
  walk-nearest (suc steps) [] h d =
      found_or-gives (46 ∷ name) (find_memory (46 ∷ name) memories) none
  walk-nearest (suc steps) (inner ∷ outer) h (di, d) =
      let text = scope_text outer in
      let (before, e) = length-suc text inner in
      let full = (text ++ (46 ∷ inner)) ++ (46 ∷ name) in
      walk_round steps (text ++ (46 ∷ inner)) e
      ∙ rw (outside text inner di, take-outer text inner)
          (ap (found_or full (find_memory full memories))
              (walk-nearest steps outer (omega (arith, e, h, length-outer text inner)) d)
            ∙ found_or-gives full (find_memory full memories) (nearest outer name memories))

-- The walk from a scope whose names have no dot ends, and finds the memory of the nearest scope around
-- the access that declares one of the name, if any does.
pub enclosing-nearest :
    (scopes : List Text) (name : Text) (memories : Memories)
    → HaveNoDot scopes
    → enclosing (scope_text scopes) name memories ≡ gives (nearest scopes name memories)
unfolding enclosing
enclosing-nearest scopes name memories d =
    walk-nearest name memories (suc (length (scope_text scopes))) scopes (omega arith) d

shifted_or_bound :
    (here : Bool) (o : Option ℕ) (n : ℕ) {i : ℕ}
    → ((j : ℕ) → o ≡ some j → j < n)
    → shifted_or here o ≡ some i
    → i < suc n
unfolding shifted_or
shifted_or_bound here (some j) n h e = omega (arith, h j refl, some_inj e)
shifted_or_bound true none n h e = omega (arith, some_inj e)
shifted_or_bound false none n h e = cc

last_dot_bound : (s : Text) {i : ℕ} → last_dot s ≡ some i → i < length s
unfolding last_dot
last_dot_bound [] h = cc
last_dot_bound (c ∷ s) h =
    shifted_or_bound (c == 46) (last_dot s) (length s) (λ j. last_dot_bound s) h

length-take_bound : (n : ℕ) (s : Text) → length (take n s) ≤ n
length-take_bound n s = omega (arith, length-take n s)

or_start_bound : (n : ℕ) (s : Text) → or_start (last_dot (take (suc n) s)) ≤ n
unfolding or_start
or_start_bound n s = elim (Option-cases (last_dot (take (suc n) s))) [
  | inl e ↦ rw e (omega arith)
  | inr (i, e) ↦
      rw e (omega (arith, last_dot_bound (take (suc n) s) e, length-take_bound (suc n) s))
]

found_or_ends :
    (full : Text) (o : Option (Option ℕ)) (next : Checked Error (Option Text))
    → (found : Option Text) × (next ≡ gives found)
    → (found : Option Text) × (found_or full o next ≡ gives found)
unfolding found_or
found_or_ends full none next h = h
found_or_ends full (some attr) next h = (some full, refl)

walk_ends :
    (steps : ℕ) (name : Text) (memories : Memories) (full_id : Text) (scope_end_pos : ℕ)
    → scope_end_pos < steps
    → (found : Option Text) × (walk steps name memories full_id scope_end_pos ≡ gives found)
unfolding walk
walk_ends zero name memories full_id end h = absurd (not_below h)
walk_ends (suc steps) name memories full_id zero h =
    found_or_ends (full_id ++ (46 ∷ name)) _ (gives none) (none, refl)
walk_ends (suc steps) name memories full_id (suc before) h =
    let full = full_id ++ (46 ∷ name) in
    found_or_ends full _ _
      (walk_ends steps name memories _ _ (omega (arith, h, or_start_bound before full)))

-- The walk over the scopes ends within one round more than the scope has bytes, whichever bytes these
-- are and whatever is declared.
pub enclosing_ends :
    (scope name : Text) (memories : Memories)
    → (found : Option Text) × (enclosing scope name memories ≡ gives found)
unfolding enclosing
enclosing_ends scope name memories =
    walk_ends (suc (length scope)) name memories scope (length scope) (omega arith)
