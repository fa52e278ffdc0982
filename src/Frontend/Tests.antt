-- ===== src/Frontend/Tests.antt =====
-- Runs of the commands.
use synlig.Common.{ℕ, [], ◌∷◌, some, true, false, refl, List, Option, ◌≡◌}
use synlig.Common.Checked.{gives}
use synlig.Common.Text.{Text, codes}
use synlig.Frontend.Defaults.{
  Defaults, change, change_alone, level, level_after, level_of, one_less, pop, protected,
  run-protected, pushed, run,
}
use synlig.Frontend.Defaults
use synlig.Frontend.Defines
use synlig.Frontend.Defines.{
  done, dump, ends, find, name_of, next_index, remove, remove_loop, starts_with, substr_2, erase_at,
}
use synlig.Frontend.Defines.Removal.{IsKept, execute-IsKept, remove-without, without}
use synlig.Frontend.Options.{
  Shared, has, no_dumps, not_own, read_options, read_options_lem, with_given,
}
use synlig.Frontend.Read.{Compilation, Setting, State, session}
use synlig.Frontend.Read.Deferred.{AllHaveNoAst, session-HasNoAst}

abbrev command : Text
command = codes "systemverilog_defaults"

abbrev before : Defaults
before = record {
  systemverilog_defaults = codes "-Iinclude" ∷ [];
  systemverilog_defaults_stack = [];
}

abbrev script : List (List Text)
script =
    (command ∷ codes "-clear" ∷ [])
    ∷ (command ∷ codes "-push" ∷ [])
    ∷ (command ∷ codes "-add" ∷ codes "-defer" ∷ [])
    ∷ (command ∷ codes "-pop" ∷ [])
    ∷ []

run-protected_example : run (protected command script) before ≡ gives before
unfolding level level_of level_after one_less run Defaults.execute change change_alone pop
run-protected_example = run-protected command script before refl refl

abbrev defines : List Text
defines = codes "-DYOSYS=1" ∷ codes "-DA" ∷ codes "-DA=2" ∷ codes "-DAB" ∷ []

-- Both defines of the name go.
removal : remove (codes "A") defines ≡ ends (codes "-DYOSYS=1" ∷ codes "-DAB" ∷ [])
unfolding remove remove_loop name_of substr_2 find erase_at
removal = refl

remove-without_example : remove (codes "A") defines ≡ ends (without (codes "A") defines)
unfolding starts_with
remove-without_example = remove-without (codes "A") defines (refl, (refl, (refl, (refl, tt))))

-- `-U` of a define, `-D` of another one, and an argument that is not understood.
abbrev calls : List Text
calls = codes "systemverilog_defines" ∷ codes "-U" ∷ codes "A" ∷ codes "-DB" ∷ codes "file.sv" ∷ []

execute-IsKept_example : IsKept (Defines.execute calls defines)
unfolding starts_with
execute-IsKept_example = execute-IsKept calls defines (refl, (refl, (refl, (refl, tt))))

-- An option that sets several flags, and two that are passed on.
abbrev words : List Text
words = codes "read_systemverilog" ∷ codes "-debug" ∷ codes "-link" ∷ codes "top.sv" ∷ []

abbrev no_flags : Shared
no_flags = record {
  debug_flag = false;
  no_assert = false;
  parse_only = false;
  defer = false;
  link = false;
  formal = false;
  disable_synth = false;
}

read_options_lem_example :
    read_options words no_flags
    ≡ with_given
        (λ w. has w words)
        (not_own words)
        (record { shared = no_flags; dumps = no_dumps; unhandled_args = [] })
read_options_lem_example = read_options_lem words no_flags

-- A compiler that finds no error in any design.
abbrev surelog : List Text → List Setting → Option (Compilation ℕ)
surelog args settings = some (record {
  help = false;
  started = true;
  uhdm_design = 7;
  nb_fatal = 0;
  nb_syntax = 0;
  nb_error = 0;
  stats_printed = true;
})

abbrev extra_args : Text → List Text → ℕ → Option Text
extra_args filename args argidx = some filename

abbrev start : State
start = record { shared = no_flags; systemverilog_defaults = []; systemverilog_defines = [] }

abbrev deferred_args : List Text
deferred_args = codes "read_systemverilog" ∷ codes "-defer" ∷ codes "a.sv" ∷ []

abbrev plain_args : List Text
plain_args = codes "read_systemverilog" ∷ codes "b.sv" ∷ []

session-HasNoAst_example : AllHaveNoAst (
    session surelog extra_args
      ((codes "a.sv", deferred_args) ∷ (codes "b.sv", plain_args) ∷ [])
      start)
session-HasNoAst_example =
    session-HasNoAst surelog extra_args (codes "a.sv") deferred_args
      ((codes "b.sv", plain_args) ∷ []) start refl (refl, (refl, tt)) refl
