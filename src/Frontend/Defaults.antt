-- ===== src/Frontend/Defaults.antt =====
-- src/frontends/systemverilog/uhdm_surelog_ast_frontend.cc, `SystemVerilogDefaults`: the default options
-- of the reader and the stack that keeps earlier ones.
use synlig.Common.{
  ℕ, zero, suc, ◌≡◌, refl, ap, ◌∙◌, List, [], ◌∷◌, ◌++◌, Option, none, some, if◌then◌else◌, drop,
  Option-cases, inl, inr, arith,
}
use synlig.Common.Checked.{Checked, fails, gives, ◌>>=◌, chain_parts, gives_steps}
use synlig.Common.Text.{Text, codes, text_eq}

-- `cmd_error`: which argument is reported, and why.
pub data Error : Type 0 where
  missing_argument : Error
  extra_argument : Error

-- The back of the stack of the code is the head of the list.
pub record Defaults : Type 0 where
  pub systemverilog_defaults : List Text
  pub systemverilog_defaults_stack : List (List Text)

abbrev pub Invocation : Type 0
Invocation = List Text

-- `-pop` with these saved options.
unfoldable pub pop : List (List Text) → Defaults → Defaults
pop [] s = record s { systemverilog_defaults = [] }
pop (back ∷ below) s = record {
  systemverilog_defaults = back;
  systemverilog_defaults_stack = below;
}

-- The options that take no argument; another word does nothing.
unfoldable pub change : Text → Defaults → Defaults
change word s =
    if text_eq word (codes "-clear")
    then record s { systemverilog_defaults = [] }
    else if text_eq word (codes "-push")
    then record s {
      systemverilog_defaults_stack = s.systemverilog_defaults ∷ s.systemverilog_defaults_stack;
    }
    else if text_eq word (codes "-pop")
    then pop s.systemverilog_defaults_stack s
    else s

unfoldable pub change_alone : Text → List Text → Defaults → Checked Error Defaults
change_alone word [] s = gives (change word s)
change_alone word (extra ∷ more) s = fails extra_argument

-- The first argument is the name of the command.
unfoldable pub execute : Invocation → Defaults → Checked Error Defaults
execute [] s = fails missing_argument
execute (command ∷ []) s = fails missing_argument
execute (command ∷ word ∷ more) s =
    if text_eq word (codes "-add")
    then gives (record s { systemverilog_defaults = s.systemverilog_defaults ++ more })
    else change_alone word more s

-- The commands of a script; an error ends it.
unfoldable pub run : List Invocation → Defaults → Checked Error Defaults
run [] s = gives s
run (args ∷ script) s = execute args s >>= (λ s'. run script s')

-- How many of the saved options are left of those that the script saved itself; none when it takes
-- one that it did not save.
unfoldable pub one_less : ℕ → Option ℕ
one_less zero = none
one_less (suc n) = some n

unfoldable pub level_after : Text → ℕ → Option ℕ
level_after word n =
    if text_eq word (codes "-clear")
    then some n
    else if text_eq word (codes "-push")
    then some (suc n)
    else if text_eq word (codes "-pop")
    then one_less n
    else some n

unfoldable pub level_of : Invocation → ℕ → Option ℕ
level_of [] n = some n
level_of (command ∷ []) n = some n
level_of (command ∷ word ∷ more) n =
    if text_eq word (codes "-add") then some n else level_after word n

unfoldable pub level : List Invocation → ℕ → Option ℕ
level [] n = some n
level (args ∷ script) n = elim (level_of args n) [ none ↦ none | some m ↦ level script m ]

drop-nil : (n : ℕ) → drop {A = List Text} n [] ≡ []
drop-nil zero = refl
drop-nil (suc n) = refl

pop_keeps :
    (n : ℕ) {m : ℕ} (saved : List (List Text)) (s : Defaults)
    → one_less n ≡ some m
    → s.systemverilog_defaults_stack ≡ saved
    → drop m (pop saved s).systemverilog_defaults_stack ≡ drop n saved
unfolding one_less pop
pop_keeps zero saved s h e = cc
pop_keeps (suc n) {m} [] s h e = ap (drop m) e ∙ drop-nil m
pop_keeps (suc n) (back ∷ below) s h e = cc

change_keeps :
    (word : Text) (n : ℕ) {m : ℕ} (s : Defaults)
    → level_after word n ≡ some m
    → drop m (change word s).systemverilog_defaults_stack ≡ drop n s.systemverilog_defaults_stack
unfolding change level_after
change_keeps word n s h = grind (arith, pop_keeps)

execute_keeps :
    (args : Invocation) (n : ℕ) {m : ℕ} (s : Defaults) {s' : Defaults}
    → level_of args n ≡ some m
    → execute args s ≡ gives s'
    → drop m s'.systemverilog_defaults_stack ≡ drop n s.systemverilog_defaults_stack
unfolding level_of execute change_alone
execute_keeps [] n s h e = cc
execute_keeps (command ∷ []) n s h e = cc
execute_keeps (command ∷ word ∷ []) n s h e = grind (arith, change_keeps word n s)
execute_keeps (command ∷ word ∷ extra ∷ more) n s h e = ground arith

run_keeps :
    (script : List Invocation) (n : ℕ) {m : ℕ} (s : Defaults) {s' : Defaults}
    → level script n ≡ some m
    → run script s ≡ gives s'
    → drop m s'.systemverilog_defaults_stack ≡ drop n s.systemverilog_defaults_stack
unfolding level run
run_keeps [] n s h e = ground arith
run_keeps (args ∷ script) n s h e =
    let (s1, e1, e2) = gives_steps (execute args s) (λ s1. run script s1) e in
    elim (Option-cases (level_of args n)) [
      | inl none_left ↦ grind (arith, none_left)
      | inr (k, left) ↦
          run_keeps script k s1 (grind (arith, left)) e2 ∙ execute_keeps args n s left e1
    ]

-- `systemverilog_defaults -push`, a script, `systemverilog_defaults -pop`.
abbrev pub protected : Text → List Invocation → List Invocation
protected command script =
    (command ∷ codes "-push" ∷ []) ∷ (script ++ ((command ∷ codes "-pop" ∷ []) ∷ []))

run-append :
    (first second : List Invocation) (s : Defaults)
    → run (first ++ second) s ≡ (run first s >>= (λ s'. run second s'))
unfolding run
run-append [] second s = refl
run-append (args ∷ first) second s =
    chain_parts (execute args s) (λ s'. run (first ++ second) s') (λ s'. run first s')
      (λ s'. run second s') (run-append first second)

abbrev pub pushed : Defaults → Defaults
pushed s = record s {
  systemverilog_defaults_stack = s.systemverilog_defaults ∷ s.systemverilog_defaults_stack;
}

pop_restores :
    (saved : List (List Text)) (s t : Defaults)
    → saved ≡ s.systemverilog_defaults ∷ s.systemverilog_defaults_stack
    → pop saved t ≡ s
unfolding pop
pop_restores saved s t h = ap (λ l. pop l t) h

-- A script that takes back as many saved options as it saves, at no point more, and that ends without an
-- error, leaves no trace between `-push` and `-pop`: the options and the saved ones are those from before.
pub run-protected :
    (command : Text) (script : List Invocation) (s : Defaults) {t : Defaults}
    → level script 0 ≡ some 0
    → run script (pushed s) ≡ gives t
    → run (protected command script) s ≡ gives s
unfolding run execute change_alone change
run-protected command script s {t} h e =
    run-append script ((command ∷ codes "-pop" ∷ []) ∷ []) (pushed s)
    ∙ ap (λ c. c >>= (λ t. run ((command ∷ codes "-pop" ∷ []) ∷ []) t)) e
    ∙ ap gives (pop_restores t.systemverilog_defaults_stack s t (run_keeps script 0 (pushed s) h e))
