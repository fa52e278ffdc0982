-- ===== src/Frontend/Defines/Removal.antt =====
-- src/frontends/systemverilog/uhdm_surelog_ast_frontend.cc: how `SystemVerilogDefines::remove` ends, and
-- what each call of the command leaves.
use synlig.Common.{
  ℕ, zero, suc, ◌<◌, ◌≡◌, refl, sym, ap, ◌∙◌, Bool, true, false, List, [], ◌∷◌, ◌++◌, Option, none,
  some, if◌then◌else◌, if_elim, length, take, drop, get_elem?, arith, inl, inr, Option-cases,
  Bool-cases, if_false,
}
use synlig.Common.Text.{Text, codes, text_eq, text_eq→eq}
use synlig.Frontend.Defines.{
  Outcome, ends, Result, done, extra_argument, throws, undefined, never, substr_2, name_of,
  value_of, find, erase_at, remove_loop, remove, dump, starts_with, reset, after_remove,
  after_reset, after_dump, execute_alone, execute_loop, execute, up_to, after, next_index,
}

-- Every define is an option `-D…`.
abbrev pub is_define : Text → Bool
is_define define = starts_with (codes "-D") define

abbrev pub AreDefines : List Text → Type 0
AreDefines [] = Unit
AreDefines (define ∷ defines) = (is_define define ≡ true) × AreDefines defines

-- The defines without those of the name.
abbrev pub without : Text → List Text → List Text
without name [] = []
without name (define ∷ defines) =
    let rest = without name defines in
    elim (name_of define) [
      | none ↦ define ∷ rest
      | some nm ↦ if text_eq name nm then rest else define ∷ rest
    ]

substr_2_define :
    (define : Text) → is_define define ≡ true → (s : Text) × (substr_2 define ≡ some s)
unfolding substr_2 starts_with
substr_2_define [] h = cc
substr_2_define (a ∷ []) h = ground arith
substr_2_define (a ∷ b ∷ s) h = (s, refl)

name_of_define :
    (define : Text) → is_define define ≡ true → (nm : Text) × (name_of define ≡ some nm)
unfolding name_of
name_of_define define h =
    let (s, e) = substr_2_define define h in (up_to (find 61 s) s, rw (name_of, e) refl)

value_of_define :
    (define : Text) → is_define define ≡ true → (value : Text) × (value_of define ≡ some value)
unfolding value_of
value_of_define define h =
    let (s, e) = substr_2_define define h in (after (find 61 s) s, rw (value_of, e) refl)

get_elem?_at :
    (front : List Text) (x : Text) (rest : List Text)
    → get_elem? (front ++ (x ∷ rest)) (length front) ≡ some x
get_elem?_at [] x rest = refl
get_elem?_at (y ∷ front) x rest = get_elem?_at front x rest

get_elem?_end : (front : List Text) → get_elem? (front ++ []) (length front) ≡ none
get_elem?_end [] = refl
get_elem?_end (y ∷ front) = get_elem?_end front

erase_at_lem :
    (front : List Text) (x : Text) (rest : List Text)
    → erase_at (length front) (front ++ (x ∷ rest)) ≡ front ++ rest
unfolding erase_at
erase_at_lem [] x rest = refl
erase_at_lem (y ∷ front) x rest = ap (◌∷◌ y) (erase_at_lem front x rest)

move_over :
    (front : List Text) (x : Text) (rest : List Text)
    → (front ++ (x ∷ [])) ++ rest ≡ front ++ (x ∷ rest)
move_over [] x rest = refl
move_over (y ∷ front) x rest = ap (◌∷◌ y) (move_over front x rest)

length_over : (front : List Text) (x : Text) → length (front ++ (x ∷ [])) ≡ suc (length front)
length_over [] x = refl
length_over (y ∷ front) x = ap suc (length_over front x)

ends_if :
    (front : List Text) (b : Bool) (x y : Outcome) (u v : List Text)
    → x ≡ ends (front ++ u)
    → y ≡ ends (front ++ v)
    → (if b then x else y) ≡ ends (front ++ (if b then u else v))
ends_if front true x y u v hx hy = hx
ends_if front false x y u v hx hy = hy

without_cons :
    (name define : Text) (defines : List Text) {nm : Text}
    → name_of define ≡ some nm
    → without name (define ∷ defines)
      ≡ (if text_eq name nm then without name defines else define ∷ without name defines)
without_cons name define defines named = rw (without, named) refl

not_below : {n : ℕ} → n < 0 → ⊥
not_below h = omega arith

remove_loop-without :
    (steps : ℕ) (name : Text) (front rest : List Text)
    → length rest < steps
    → AreDefines rest
    → remove_loop steps name (length front) (front ++ rest) ≡ ends (front ++ without name rest)
unfolding remove_loop
remove_loop-without zero name front rest h d = absurd (not_below h)
remove_loop-without (suc steps) name front [] h d = rw (remove_loop, get_elem?_end front) refl
remove_loop-without (suc steps) name front (x ∷ rest) h (dx, d) =
    let (nm, named) = name_of_define x dx in
    rw (remove_loop, get_elem?_at front x rest, named, without_cons name x rest named)
      ((ends_if front (text_eq name nm) _ _ (without name rest) (x ∷ without name rest)
        (rw (erase_at_lem front x rest)
          (remove_loop-without steps name front rest (omega (arith, h)) d))
        (rw (sym (move_over front x rest), sym (length_over front x))
          (remove_loop-without steps name (front ++ (x ∷ [])) rest (omega (arith, h)) d
            ∙ ap ends (move_over front x (without name rest))))))

-- The loop of `remove` ends within one step more than there are defines, throws nothing, and leaves the
-- other defines in their order, when each of them is an option `-D…`.
pub remove-without :
    (name : Text) (defines : List Text)
    → AreDefines defines
    → remove name defines ≡ ends (without name defines)
unfolding remove
remove-without name defines d =
    remove_loop-without (suc (length defines)) name [] defines (omega arith) d

without-AreDefines :
    (name : Text) (defines : List Text) → AreDefines defines → AreDefines (without name defines)
without-AreDefines name [] d = tt
without-AreDefines name (x ∷ rest) (dx, d) =
    let (nm, named) = name_of_define x dx in
    rw (without_cons name x rest named) (
      if_elim AreDefines (text_eq name nm) (without name rest) (x ∷ without name rest)
        (λ e. without-AreDefines name rest d) (λ e. (dx, without-AreDefines name rest d)))

append-AreDefines :
    (defines : List Text) (define : Text)
    → AreDefines defines
    → is_define define ≡ true
    → AreDefines (defines ++ (define ∷ []))
append-AreDefines [] define d dx = (dx, tt)
append-AreDefines (x ∷ rest) define (d0, d) dx = (d0, append-AreDefines rest define d dx)

-- No exception, no loop that runs on, and options `-D…` alone in the list.
abbrev pub IsKept : Result → Type 0
IsKept (done defines log) = AreDefines defines
IsKept (extra_argument argidx defines log) = AreDefines defines
IsKept throws = ⊥
IsKept undefined = Unit
IsKept never = ⊥

dump-some : (defines : List Text) → AreDefines defines → (lines : _) × (dump defines ≡ some lines)
unfolding dump
dump-some [] d = ([], refl)
dump-some (x ∷ rest) (dx, d) =
    let (name, named) = name_of_define x dx in
    let (value, valued) = value_of_define x dx in
    let (lines, dumped) = dump-some rest d in
    ((name, value) ∷ lines, rw (named, valued, dumped) refl)

after_reset-IsKept :
    (next : List Text → Result) (defines : List Text)
    → ((ds : List Text) → AreDefines ds → IsKept (next ds))
    → AreDefines defines
    → IsKept (after_reset next (reset defines))
unfolding after_reset reset
after_reset-IsKept next [] h d = tt
after_reset-IsKept next (x ∷ rest) h (dx, d) = h (x ∷ []) (dx, tt)

alone-IsKept :
    (arg : Text) (next : List Text → List (Text × Text) → Result) (argidx : ℕ) (defines : List Text)
    (log : List (Text × Text))
    → ((ds : List Text) (l : List (Text × Text)) → AreDefines ds → IsKept (next ds l))
    → AreDefines defines
    → IsKept (execute_alone arg next argidx defines log)
unfolding execute_alone after_remove after_dump
alone-IsKept arg next argidx defines log h d =
    if_elim IsKept (starts_with (codes "-D") arg) _ _
      (λ e. h _ _ (append-AreDefines defines arg d e))
      (λ e.
        if_elim IsKept (starts_with (codes "-U") arg) _ _
          (λ e. rw (remove-without (drop 2 arg) defines d) (h _ _ (without-AreDefines _ defines d)))
          (λ e.
            if_elim IsKept (text_eq arg (codes "-reset")) _ _
              (λ e. after_reset-IsKept (λ ds. next ds log) defines (λ ds k. h ds log k) d)
              (λ e.
                if_elim IsKept (text_eq arg (codes "-list")) _ _
                  (λ e. let (lines, dumped) = dump-some defines d in rw dumped (h _ _ d))
                  (λ e. d))))

made_define : (value : Text) → is_define (codes "-D" ++ value) ≡ true
unfolding starts_with
made_define value = refl

loop-IsKept :
    (args : List Text) (argidx : ℕ) (defines : List Text) (log : List (Text × Text))
    → AreDefines defines
    → IsKept (execute_loop args argidx defines log)
unfolding execute_loop after_remove
loop-IsKept [] argidx defines log d = d
loop-IsKept (arg ∷ []) argidx defines log d =
    alone-IsKept arg (execute_loop [] (suc argidx)) argidx defines log (λ ds l k. k) d
loop-IsKept (arg ∷ value ∷ args) argidx defines log d =
    if_elim IsKept (text_eq arg (codes "-D")) _ _
      (λ e. loop-IsKept args _ _ log (append-AreDefines defines _ d (made_define value)))
      (λ e.
        if_elim IsKept (text_eq arg (codes "-U")) _ _
          (λ e.
            rw (remove-without value defines d)
              (loop-IsKept args _ _ log (without-AreDefines value defines d)))
          (λ e.
            alone-IsKept arg (execute_loop (value ∷ args) (suc argidx)) argidx defines log
              (λ ds l k. loop-IsKept (value ∷ args) (suc argidx) ds l k) d))

-- A call of the command on defines that are options `-D…` throws nothing and does not run on, and it
-- leaves such options alone, also when it stops at an argument that it does not understand; `-reset` on
-- an empty list has no defined behaviour.
pub execute-IsKept : (args defines : List Text) → AreDefines defines → IsKept (execute args defines)
unfolding execute
execute-IsKept [] defines d = d
execute-IsKept (command ∷ args) defines d = loop-IsKept args 1 defines [] d

next_index-some : (o : Option ℕ) {i : ℕ} → next_index o ≡ some (suc i) → o ≡ some i
next_index-some none h = cc
next_index-some (some j) h = grind arith

find-take : (c i : ℕ) (s : Text) → find c s ≡ some i → find c (take i s) ≡ none
unfolding find
find-take c i [] h = cc
find-take c zero (d ∷ s) h = refl
find-take c (suc i) (d ∷ s) h = grind (arith, next_index-some (find c s), find-take c i s)

find-up_to : (c : ℕ) (s : Text) → find c (up_to (find c s) s) ≡ none
find-up_to c s = elim (Option-cases (find c s)) [
  | inl absent ↦ rw absent absent
  | inr (i, at) ↦ rw at (find-take c i s at)
]

text_eq_absent :
    (c : ℕ) (s t : Text) {i : ℕ} → find c s ≡ some i → find c t ≡ none → text_eq s t ≡ false
text_eq_absent c s t h k = elim (Bool-cases (text_eq s t)) [
  | inl e ↦ let same = ap (find c) (text_eq→eq s t e) in cc
  | inr e ↦ e
]

name_absent : (define : Text) {nm : Text} → name_of define ≡ some nm → find 61 nm ≡ none
unfolding name_of substr_2
name_absent [] h = cc
name_absent (a ∷ []) h = cc
name_absent (a ∷ b ∷ s) h = ground (arith, find-up_to 61 s)

without_value :
    (name : Text) (defines : List Text) {i : ℕ}
    → find 61 name ≡ some i
    → AreDefines defines
    → without name defines ≡ defines
without_value name [] h d = refl
without_value name (x ∷ rest) h (dx, d) =
    let (nm, named) = name_of_define x dx in
    without_cons name x rest named
    ∙ if_false (text_eq name nm) _ _ (text_eq_absent 61 name nm h (name_absent x named))
    ∙ ap (◌∷◌ x) (without_value name rest h d)

-- `-U` with a value, as in `-UA=1`, removes no define, since no name of a define has a `=`.
pub remove_value :
    (name : Text) (defines : List Text) {i : ℕ}
    → find 61 name ≡ some i
    → AreDefines defines
    → remove name defines ≡ ends defines
remove_value name defines h d =
    remove-without name defines d ∙ ap ends (without_value name defines h d)
