-- ===== src/Frontend/Defines.antt =====
-- src/frontends/systemverilog/uhdm_surelog_ast_frontend.cc, `SystemVerilogDefines`: the list of the
-- preprocessor defines, each an option `-Dname` or `-Dname=value`.
pub mod Removal
pub mod Listing
use synlig.Common.{
  ℕ, zero, suc, Bool, true, false, List, [], ◌∷◌, ◌++◌, Option, none, some, if◌then◌else◌, ◌==◌,
  length, take, drop, get_elem?,
}
use synlig.Common.Text.{Text, codes, text_eq}

abbrev pub next_index : Option ℕ → Option ℕ
next_index none = none
next_index (some i) = some (suc i)

-- `string::find` of one byte.
unfoldable pub find : ℕ → Text → Option ℕ
find c [] = none
find c (d ∷ s) = let rest = find c s in if c == d then some 0 else next_index rest

abbrev pub up_to : Option ℕ → Text → Text
up_to none s = s
up_to (some i) s = take i s

abbrev pub after : Option ℕ → Text → Text
after none s = []
after (some i) s = drop (suc i) s

-- `substr(2)`, which throws `std::out_of_range` on a text of fewer than two bytes.
unfoldable pub substr_2 : Text → Option Text
substr_2 [] = none
substr_2 (a ∷ []) = none
substr_2 (a ∷ b ∷ s) = some s

-- The name that a define is for: up to the first `=` after `-D`.
unfoldable pub name_of : Text → Option Text
name_of define = elim (substr_2 define) [ none ↦ none | some s ↦ some (up_to (find 61 s) s) ]

unfoldable pub value_of : Text → Option Text
value_of define = elim (substr_2 define) [ none ↦ none | some s ↦ some (after (find 61 s) s) ]

-- How a loop over the defines ends.
pub data Outcome : Type 0 where
  ends : List Text → Outcome
  -- The exception of `substr`.
  out_of_range : Outcome
  -- The loop has not ended when the steps are used up.
  unfinished : Outcome

unfoldable pub erase_at : ℕ → List Text → List Text
erase_at n [] = []
erase_at zero (x ∷ xs) = xs
erase_at (suc n) (x ∷ xs) = x ∷ erase_at n xs

-- The loop of `remove`: after `erase`, `it` is at the next define.
unfoldable pub remove_loop : ℕ → Text → ℕ → List Text → Outcome
remove_loop zero name it defines = unfinished
remove_loop (suc steps) name it defines = elim (get_elem? defines it) [
  | none ↦ ends defines
  | some define ↦ elim (name_of define) [
    | none ↦ out_of_range
    | some nm ↦
        let erased = remove_loop steps name it (erase_at it defines) in
        let kept = remove_loop steps name (suc it) defines in
        if text_eq name nm then erased else kept
  ]
]

-- The loop takes one step for each define, and one to see the end.
unfoldable pub remove : Text → List Text → Outcome
remove name defines = remove_loop (suc (length defines)) name 0 defines

-- The lines "`define name value" of `dump`.
abbrev pub push_line :
    Option Text → Option Text → Option (List (Text × Text)) → Option (List (Text × Text))
push_line none value rest = none
push_line (some name) none rest = none
push_line (some name) (some value) none = none
push_line (some name) (some value) (some lines) = some ((name, value) ∷ lines)

unfoldable pub dump : List Text → Option (List (Text × Text))
dump [] = some []
dump (define ∷ defines) = push_line (name_of define) (value_of define) (dump defines)

-- How a call of the command ends: with the defines, and with the lines that were printed.
pub data Result : Type 0 where
  done : List Text → List (Text × Text) → Result
  -- `cmd_error` at the argument that is not understood
  extra_argument : ℕ → List Text → List (Text × Text) → Result
  throws : Result
  -- `begin() + 1` of a list without an element
  undefined : Result
  never : Result

unfoldable pub starts_with : Text → Text → Bool
starts_with [] s = true
starts_with (c ∷ p) [] = false
starts_with (c ∷ p) (d ∷ s) = let rest = starts_with p s in if c == d then rest else false

-- `-reset` keeps the first define.
unfoldable pub reset : List Text → Option (List Text)
reset [] = none
reset (define ∷ defines) = some (define ∷ [])

-- What an option does, followed by what comes after it.
unfoldable pub after_remove : (List Text → Result) → Outcome → Result
after_remove next (ends defines) = next defines
after_remove next out_of_range = throws
after_remove next unfinished = never

unfoldable pub after_reset : (List Text → Result) → Option (List Text) → Result
after_reset next none = undefined
after_reset next (some defines) = next defines

unfoldable pub after_dump :
    (List (Text × Text) → Result) → List (Text × Text) → Option (List (Text × Text)) → Result
after_dump next log none = throws
after_dump next log (some lines) = next (log ++ lines)

-- An option that takes no further argument; `next` goes on with the arguments after it.
unfoldable pub execute_alone :
    Text → (List Text → List (Text × Text) → Result) → ℕ → List Text → List (Text × Text) → Result
execute_alone arg next argidx defines log =
    if starts_with (codes "-D") arg
    then next (defines ++ (arg ∷ [])) log
    else if starts_with (codes "-U") arg
    then after_remove (λ ds. next ds log) (remove (drop 2 arg) defines)
    else if text_eq arg (codes "-reset")
    then after_reset (λ ds. next ds log) (reset defines)
    else if text_eq arg (codes "-list")
    then after_dump (λ l. next defines l) log (dump defines)
    else extra_argument argidx defines log

-- The arguments from `argidx` on.
unfoldable pub execute_loop : List Text → ℕ → List Text → List (Text × Text) → Result
execute_loop [] argidx defines log = done defines log
execute_loop (arg ∷ []) argidx defines log =
    execute_alone arg (execute_loop [] (suc argidx)) argidx defines log
execute_loop (arg ∷ value ∷ args) argidx defines log =
    let one = execute_alone arg (execute_loop (value ∷ args) (suc argidx)) argidx defines log in
    let define =
      execute_loop args (suc (suc argidx)) (defines ++ ((codes "-D" ++ value) ∷ [])) log in
    let undefine =
      after_remove (λ ds. execute_loop args (suc (suc argidx)) ds log) (remove value defines) in
    if text_eq arg (codes "-D") then define else if text_eq arg (codes "-U") then undefine else one

-- The first argument is the name of the command.
unfoldable pub execute : List Text → List Text → Result
execute [] defines = extra_argument 1 defines []
execute (command ∷ args) defines = execute_loop args 1 defines []
