-- ===== src/Frontend/Defines/Listing.antt =====
-- src/frontends/systemverilog/uhdm_surelog_ast_frontend.cc: what `SystemVerilogDefines::dump` prints.
use synlig.Common.{
  ℕ, suc, ◌≡◌, refl, sym, ap, List, [], ◌∷◌, ◌++◌, Option, none, some, length, take, drop, arith,
}
use synlig.Common.Text.{Text, codes}
use synlig.Frontend.Defines.{
  find, next_index, substr_2, name_of, value_of, push_line, dump, done, execute, execute_loop,
  execute_alone, starts_with, after_dump,
}

next_index-none : (o : Option ℕ) → next_index o ≡ none → o ≡ none
next_index-none none h = refl
next_index-none (some i) h = cc

find-append :
    (c : ℕ) (name value : Text)
    → find c name ≡ none
    → find c (name ++ (c ∷ value)) ≡ some (length name)
unfolding find
find-append c [] value h = ground arith
find-append c (d ∷ name) value h =
    grind (arith, next_index-none (find c name), find-append c name value)

take-append : (name rest : Text) → take (length name) (name ++ rest) ≡ name
take-append [] rest = refl
take-append (c ∷ name) rest = ap (◌∷◌ c) (take-append name rest)

drop-append :
    (name : Text) (c : ℕ) (rest : Text) → drop (suc (length name)) (name ++ (c ∷ rest)) ≡ rest
drop-append [] c rest = refl
drop-append (d ∷ name) c rest = drop-append name c rest

name_of_given :
    (name value : Text)
    → find 61 name ≡ none
    → name_of (codes "-D" ++ (name ++ (61 ∷ value))) ≡ some name
unfolding name_of substr_2
name_of_given name value h =
    rw (find-append 61 name value h) (ap some (take-append name (61 ∷ value)))

value_of_given :
    (name value : Text)
    → find 61 name ≡ none
    → value_of (codes "-D" ++ (name ++ (61 ∷ value))) ≡ some value
unfolding value_of substr_2
value_of_given name value h = rw (find-append 61 name value h) (ap some (drop-append name 61 value))

push_line_parts :
    (n v : Option Text) (r : Option (List (Text × Text))) {lines : List (Text × Text)}
    → push_line n v r ≡ some lines
    → (name value : Text) × (ls : List (Text × Text)) × (n ≡ some name)
      × (v ≡ some value)
      × (r ≡ some ls)
      × (lines ≡ (name, value) ∷ ls)
push_line_parts none v r h = cc
push_line_parts (some n) none r h = cc
push_line_parts (some n) (some v) none h = cc
push_line_parts (some n) (some v) (some r) h = (n, v, r, refl, refl, refl, cc)

dump-append :
    (defines : List Text) (define : Text) {lines : List (Text × Text)} {name value : Text}
    → dump defines ≡ some lines
    → name_of define ≡ some name
    → value_of define ≡ some value
    → dump (defines ++ (define ∷ [])) ≡ some (lines ++ ((name, value) ∷ []))
unfolding dump
dump-append [] define h n v = rw (n, v) cc
dump-append (x ∷ rest) define {lines} {name} {value} h n v =
    let (nm, vl, ls, hn, hv, hr, e) = push_line_parts (name_of x) (value_of x) (dump rest) h in
    rw (dump, hn, hv, dump-append rest define hr n v)
      (ap (λ k. some (k ++ ((name, value) ∷ []))) (sym e))

-- `-D name=value` and then `-list` on the defines: the lines are those of `-list` before, and one more
-- with the name and the value, when the name has no `=`.
pub execute_list :
    (command name value : Text) (defines : List Text) {lines : List (Text × Text)}
    → find 61 name ≡ none
    → dump defines ≡ some lines
    → execute (command ∷ (codes "-D" ∷ ((name ++ (61 ∷ value)) ∷ (codes "-list" ∷ [])))) defines
      ≡ done
          (defines ++ ((codes "-D" ++ (name ++ (61 ∷ value))) ∷ []))
          (lines ++ ((name, value) ∷ []))
unfolding execute execute_loop execute_alone starts_with after_dump
execute_list command name value defines h l =
    rw
      (dump-append defines (codes "-D" ++ (name ++ (61 ∷ value))) l (name_of_given name value h)
        (value_of_given name value h))
      refl
