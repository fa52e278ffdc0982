-- ===== src/Frontend/Read.antt =====
-- src/frontends/systemverilog/uhdm_surelog_ast_frontend.cc, `Compiler::execute` and
-- `UhdmSurelogAstFrontend::parse`, and uhdm_common_frontend.cc, `UhdmCommonFrontend::execute`: one
-- command that reads a design. Surelog and `extra_args` of Yosys are parameters.
pub mod Deferred
use synlig.Common.{
  ℕ, suc, ◌-◌, ◌≡◌, refl, sym, ap, ◌∙◌, Bool, true, false, not, ◌&&◌, ◌||◌, List, [], ◌∷◌, ◌++◌,
  Option, none, some, if◌then◌else◌, if_elim, ltb, length, arith,
}
use synlig.Common.Text.{Text, codes, text_eq}
use synlig.Frontend.Options.{Shared, Dumps, Options, read_options, has}

-- The calls that set up Surelog's command line, in their order.
pub data Setting : Type 0 where
  set_write_pp_output : Setting
  set_parse : Setting
  full_sv_mode : Setting
  set_cache_allowed : Setting
  set_report_non_synthesizable : Setting
  set_compile : Bool → Setting
  set_elaborate : Bool → Setting
  set_sep_comp : Setting
  set_elab_uhdm : Setting
  set_link : Setting

-- What Surelog reports of a compilation.
pub record Compilation (Design : Type 0) : Type 0 where
  -- `clp->help()`
  pub help : Bool
  -- `start_compiler` gives no null pointer
  pub started : Bool
  pub uhdm_design : Design
  pub nb_fatal : ℕ
  pub nb_syntax : ℕ
  pub nb_error : ℕ
  -- `printStats`
  pub stats_printed : Bool

-- How a command ends.
pub data Outcome (Design : Type 0) : Type 0 where
  -- A null pointer is returned, and nothing is added to the design of Yosys.
  no_ast : Outcome Design
  -- `visit_designs`, after `SynthSubset` when the flag is set; its node goes to `AST::process`.
  visits : Bool → List Design → Outcome Design
  -- `extra_args` reports an error.
  file_error : Outcome Design
  -- "Error parsing Surelog arguments!"
  argument_error : Outcome Design
  -- "Error when parsing design. Aborting!"
  design_error : Outcome Design
  -- The exception of `uhdm_designs.at(0)`
  out_of_range : Outcome Design

-- The global lists and the flags.
pub record State : Type 0 where
  pub shared : Shared
  pub systemverilog_defaults : List Text
  pub systemverilog_defines : List Text

-- The defaults without `-defer`, which sets a flag.
unfoldable pub without_defer : List Text → List Text
without_defer [] = []
without_defer (arg ∷ args) =
    let rest = without_defer args in if text_eq arg (codes "-defer") then rest else arg ∷ rest

unfoldable pub add_implicit : State → State
add_implicit s = record s {
  systemverilog_defines =
      s.systemverilog_defines
      ++ ((if s.shared.formal then codes "-DFORMAL=1" else codes "-DSYNTHESIS=1") ∷ []);
}

-- The arguments for Surelog.
unfoldable pub cstrings : List Text → State → List Text
cstrings args s =
    if has (codes "-link") args
    then args
    else args ++ (without_defer s.systemverilog_defaults ++ s.systemverilog_defines)

unfoldable pub deferred : List Text → State → State
deferred args s = record s {
  shared = record s.shared {
    defer =
        if has (codes "-link") args
        then s.shared.defer
        else if has (codes "-defer") s.systemverilog_defaults
        then true
        else s.shared.defer;
  };
}

unfoldable pub settings : Shared → List Setting
settings shared =
    (set_write_pp_output ∷ set_parse ∷ full_sv_mode ∷ set_cache_allowed ∷ [])
    ++ ((if shared.disable_synth then [] else set_report_non_synthesizable ∷ [])
        ++ ((if shared.defer
              then set_compile false ∷ set_elaborate false ∷ set_sep_comp ∷ []
              else set_compile true ∷ set_elaborate true ∷ set_elab_uhdm ∷ [])
            ++ (if shared.link then set_link ∷ [] else [])))

module _ {Design : Type 0} where
  -- Whether `codedReturn` is not 0.
  unfoldable pub is_failed : Compilation Design → Bool
  is_failed c =
      if c.help
      then ltb 0 c.nb_error
      else (not c.started || (ltb 0 c.nb_fatal || ltb 0 c.nb_syntax))
        || (not c.stats_printed || ltb 0 c.nb_error)

  -- `Compiler::execute`, or that it aborts.
  unfoldable pub compiler_execute : Compilation Design → Option (List Design)
  compiler_execute c =
      if is_failed c then none else some (if c.help then [] else c.uhdm_design ∷ [])

  unfoldable pub visited : Shared → List Design → Outcome Design
  visited shared [] = if shared.defer then visits false [] else out_of_range
  visited shared (design ∷ designs) = visits (not shared.defer) (design ∷ designs)

  -- What `parse` does with the designs.
  unfoldable pub choose : Shared → List Design → Outcome Design
  choose shared designs =
      if shared.parse_only
      then no_ast
      else if shared.defer && not shared.link
      then no_ast
      else visited shared designs

  unfoldable pub chosen : Shared → Option (List Design) → Outcome Design
  chosen shared none = design_error
  chosen shared (some designs) = choose shared designs

  unfoldable pub finished : Shared → Option (Compilation Design) → Outcome Design
  finished shared none = argument_error
  finished shared (some c) = chosen shared (compiler_execute c)

-- `surelog` is `parseCommandLine`, the settings and the run of the compiler, none when the arguments are
-- refused. `extra_args` is `Frontend::extra_args`, which gives the name of the file, or none when it
-- reports an error.
module _ {Design : Type 0} (surelog : List Text → List Setting → Option (Compilation Design))
    (extra_args : Text → List Text → ℕ → Option Text) where
  unfoldable pub parse : List Text → State → State × Outcome Design
  parse args s =
      let s' = deferred args (add_implicit s) in
      (s', finished s'.shared (surelog (cstrings args (add_implicit s)) (settings s'.shared)))

  unfoldable pub opened : Shared → Text → List Text → Option Text
  opened shared filename args =
      if shared.link then some filename else extra_args filename args (length args - 1)

  -- `parse` for the file that is open.
  unfoldable pub parse_opened : List Text → State → Option Text → State × Outcome Design
  parse_opened args s none = (s, file_error)
  parse_opened args s (some name) = parse args s

  unfoldable pub execute : Text → List Text → State → State × Outcome Design
  execute filename args s =
      let options = read_options args s.shared in
      parse_opened options.unhandled_args (record s { shared = options.shared })
        (opened options.shared filename args)

  -- The commands of a session with what each of them does.
  unfoldable pub session : List (Text × List Text) → State → List (Outcome Design)
  session [] s = []
  session ((filename, args) ∷ commands) s =
      let (s', outcome) = execute filename args s in outcome ∷ session commands s'
