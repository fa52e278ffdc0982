-- ===== src/Frontend/Read/Deferred.antt =====
-- src/frontends/systemverilog/uhdm_surelog_ast_frontend.cc and uhdm_common_frontend.cc: when a read
-- command hands a design to Yosys.
use synlig.Common.{ℕ, ◌≡◌, true, false, List, [], ◌∷◌, Option, none, some, if_elim, arith}
use synlig.Common.Text.{Text, codes}
use synlig.Frontend.Options.{Shared, read_options, has, read_options_lem}
use synlig.Frontend.Read.{
  Setting, Compilation, Outcome, no_ast, visits, file_error, argument_error, design_error,
  out_of_range, State, deferred, add_implicit, parse, execute, session, choose, finished, chosen,
  compiler_execute, parse_opened,
}

abbrev pub HasNoAst : {Design : Type 0} → Outcome Design → Type 0
HasNoAst no_ast = Unit
HasNoAst (visits subset designs) = ⊥
HasNoAst file_error = Unit
HasNoAst argument_error = Unit
HasNoAst design_error = Unit
HasNoAst out_of_range = Unit

abbrev pub AllHaveNoAst : {Design : Type 0} → List (Outcome Design) → Type 0
AllHaveNoAst [] = Unit
AllHaveNoAst (o ∷ os) = HasNoAst o × AllHaveNoAst os

-- No command of the session is a `-link`.
abbrev pub AreWithoutLink : List (Text × List Text) → Type 0
AreWithoutLink [] = Unit
AreWithoutLink ((filename, args) ∷ commands) =
    (has (codes "-link") args ≡ false) × AreWithoutLink commands

abbrev pub IsDeferred : Shared → Type 0
IsDeferred shared = (shared.defer ≡ true) × (shared.link ≡ false)

module _ {Design : Type 0} where
  choose-HasNoAst :
      (shared : Shared) (designs : List Design)
      → IsDeferred shared
      → HasNoAst (choose shared designs)
  unfolding choose
  choose-HasNoAst shared designs (d, l) =
      rw (d, l) (if_elim HasNoAst shared.parse_only no_ast no_ast (λ e. tt) (λ e. tt))

  finished-HasNoAst :
      (shared : Shared) (c : Option (Compilation Design))
      → IsDeferred shared
      → HasNoAst (finished shared c)
  unfolding finished chosen
  finished-HasNoAst shared none h = tt
  finished-HasNoAst shared (some c) h =
      elim (compiler_execute c) as (λ o. HasNoAst (chosen shared o)) [
        | none ↦ tt
        | some designs ↦ choose-HasNoAst shared designs h
      ]

module _ {Design : Type 0} (surelog : List Text → List Setting → Option (Compilation Design))
    (extra_args : Text → List Text → ℕ → Option Text) where
  deferred-IsDeferred :
      (args : List Text) (s : State) → IsDeferred s.shared → IsDeferred (deferred args s).shared
  unfolding deferred
  deferred-IsDeferred args s (d, l) = (ground arith, l)

  options-IsDeferred :
      (args : List Text) (shared : Shared)
      → has (codes "-link") args ≡ false
      → IsDeferred shared
      → IsDeferred (read_options args shared).shared
  options-IsDeferred args shared h (d, l) =
      rw (read_options_lem args shared) (ground arith, ground arith)

  opened-IsDeferred :
      (args : List Text) (s : State) (name : Option Text)
      → IsDeferred s.shared
      → IsDeferred (parse_opened surelog extra_args args s name).0.shared
        × HasNoAst (parse_opened surelog extra_args args s name).1
  unfolding parse_opened parse add_implicit
  opened-IsDeferred args s none d = (d, tt)
  opened-IsDeferred args s (some name) d =
      let kept = deferred-IsDeferred args (add_implicit s) d in
      (kept, finished-HasNoAst (deferred args (add_implicit s)).shared _ kept)

  execute-IsDeferred :
      (filename : Text) (args : List Text) (s : State)
      → has (codes "-link") args ≡ false
      → IsDeferred s.shared
      → IsDeferred (execute surelog extra_args filename args s).0.shared
        × HasNoAst (execute surelog extra_args filename args s).1
  unfolding execute
  execute-IsDeferred filename args s h d =
      opened-IsDeferred _ _ _ (options-IsDeferred args s.shared h d)

  rest-HasNoAst :
      (commands : List (Text × List Text)) (s : State)
      → AreWithoutLink commands
      → IsDeferred s.shared
      → AllHaveNoAst (session surelog extra_args commands s)
  unfolding session
  rest-HasNoAst [] s h d = tt
  rest-HasNoAst ((filename, args) ∷ commands) s (h, hs) d =
      let (kept, quiet) = execute-IsDeferred filename args s h d in
      (quiet, rest-HasNoAst commands _ hs kept)

  options_set :
      (args : List Text) (shared : Shared)
      → has (codes "-defer") args ≡ true
      → has (codes "-link") args ≡ false
      → shared.link ≡ false
      → IsDeferred (read_options args shared).shared
  options_set args shared h k l = rw (read_options_lem args shared) (ground arith, ground arith)

  -- A command with `-defer`, and every later command of the session, hands no design to Yosys, also
  -- those without `-defer`, when none of them has `-link` and none before had it.
  pub session-HasNoAst :
      (filename : Text) (args : List Text) (commands : List (Text × List Text)) (s : State)
      → has (codes "-defer") args ≡ true
      → AreWithoutLink ((filename, args) ∷ commands)
      → s.shared.link ≡ false
      → AllHaveNoAst (session surelog extra_args ((filename, args) ∷ commands) s)
  unfolding session execute
  session-HasNoAst filename args commands s h (k, ks) l =
      let (kept, quiet) = opened-IsDeferred _ _ _ (options_set args s.shared h k l) in
      (quiet, rest-HasNoAst commands _ ks kept)
