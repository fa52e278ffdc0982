-- ===== src/Frontend/Options.antt =====
-- src/frontends/systemverilog/uhdm_common_frontend.cc, `UhdmCommonFrontend::execute`: the loop over the
-- arguments of a read command.
use mathlib.Core.Path.{subst}
use mathlib.Core.List.{append-nil, append_assoc}
use synlig.Common.{
  ◌≡◌, refl, sym, ap, ◌∙◌, Bool, true, false, ◌||◌, List, [], ◌∷◌, ◌++◌, if◌then◌else◌, Bool-cases,
  inl, inr, arith,
}
use synlig.Common.Text.{Text, codes, text_eq, text_eq→eq}

-- The flags of `UhdmAstShared` that the commands read: the object stays from one command to the next.
pub record Shared : Type 0 where
  pub debug_flag : Bool
  pub no_assert : Bool
  pub parse_only : Bool
  pub defer : Bool
  pub link : Bool
  pub formal : Bool
  pub disable_synth : Bool

-- The local flags of one command.
pub record Dumps : Type 0 where
  pub dump_ast1 : Bool
  pub dump_ast2 : Bool
  pub dump_vlog1 : Bool
  pub dump_vlog2 : Bool
  pub no_dump_ptr : Bool
  pub dump_rtlil : Bool

pub record Options : Type 0 where
  pub shared : Shared
  pub dumps : Dumps
  pub unhandled_args : List Text

abbrev pub set_shared : (Shared → Shared) → Options → Options
set_shared f o = record o { shared = f o.shared }

abbrev pub set_dumps : (Dumps → Dumps) → Options → Options
set_dumps f o = record o { dumps = f o.dumps }

abbrev pub push_arg : Text → Options → Options
push_arg arg o = record o { unhandled_args = o.unhandled_args ++ (arg ∷ []) }

-- The body of the loop.
unfoldable pub handle : Text → Options → Options
handle arg o =
    if text_eq arg (codes "-debug")
    then record o {
      shared = record o.shared { debug_flag = true };
      dumps = record o.dumps {
        dump_ast1 = true;
        dump_ast2 = true;
        dump_vlog1 = true;
        dump_vlog2 = true;
      };
    }
    else if text_eq arg (codes "-noassert")
    then set_shared (λ s. record s { no_assert = true }) o
    else if text_eq arg (codes "-defer")
    then set_shared (λ s. record s { defer = true }) o
    else if text_eq arg (codes "-dump_ast1")
    then set_dumps (λ d. record d { dump_ast1 = true }) o
    else if text_eq arg (codes "-dump_ast2")
    then set_dumps (λ d. record d { dump_ast2 = true }) o
    else if text_eq arg (codes "-dump_vlog1")
    then set_dumps (λ d. record d { dump_vlog1 = true }) o
    else if text_eq arg (codes "-dump_vlog2")
    then set_dumps (λ d. record d { dump_vlog2 = true }) o
    else if text_eq arg (codes "-no_dump_ptr")
    then set_dumps (λ d. record d { no_dump_ptr = true }) o
    else if text_eq arg (codes "-dump_rtlil")
    then set_dumps (λ d. record d { dump_rtlil = true }) o
    else if text_eq arg (codes "-parse-only")
    then set_shared (λ s. record s { parse_only = true }) o
    else if text_eq arg (codes "-link")
    then push_arg arg (set_shared (λ s. record s { link = true }) o)
    else if text_eq arg (codes "-formal")
    then push_arg arg (set_shared (λ s. record s { formal = true }) o)
    else if text_eq arg (codes "-parseall")
    then set_shared (λ s. record s { disable_synth = true }) o
    else push_arg arg o

unfoldable pub handle_all : List Text → Options → Options
handle_all [] o = o
handle_all (arg ∷ args) o = handle_all args (handle arg o)

abbrev pub no_dumps : Dumps
no_dumps = record {
  dump_ast1 = false;
  dump_ast2 = false;
  dump_vlog1 = false;
  dump_vlog2 = false;
  no_dump_ptr = false;
  dump_rtlil = false;
}

-- The flags that the arguments of one command leave.
unfoldable pub read_options : List Text → Shared → Options
read_options args shared =
    handle_all args (record { shared = shared; dumps = no_dumps; unhandled_args = [] })

-- Whether the option is among the arguments.
abbrev pub has : Text → List Text → Bool
has option [] = false
has option (arg ∷ args) = text_eq arg option || has option args

-- The options that are handled here and not passed on.
abbrev pub is_own : Text → Bool
is_own arg =
    text_eq arg (codes "-debug")
    || text_eq arg (codes "-noassert")
    || text_eq arg (codes "-defer")
    || text_eq arg (codes "-dump_ast1")
    || text_eq arg (codes "-dump_ast2")
    || text_eq arg (codes "-dump_vlog1")
    || text_eq arg (codes "-dump_vlog2")
    || text_eq arg (codes "-no_dump_ptr")
    || text_eq arg (codes "-dump_rtlil")
    || text_eq arg (codes "-parse-only")
    || text_eq arg (codes "-parseall")

abbrev pub not_own : List Text → List Text
not_own [] = []
not_own (arg ∷ args) = let rest = not_own args in if is_own arg then rest else arg ∷ rest

-- The flags when the options in `given` are added.
abbrev pub with_given : (Text → Bool) → List Text → Options → Options
with_given given unhandled o = record {
  shared = record {
    debug_flag = given (codes "-debug") || o.shared.debug_flag;
    no_assert = given (codes "-noassert") || o.shared.no_assert;
    parse_only = given (codes "-parse-only") || o.shared.parse_only;
    defer = given (codes "-defer") || o.shared.defer;
    link = given (codes "-link") || o.shared.link;
    formal = given (codes "-formal") || o.shared.formal;
    disable_synth = given (codes "-parseall") || o.shared.disable_synth;
  };
  dumps = record {
    dump_ast1 = given (codes "-debug") || (given (codes "-dump_ast1") || o.dumps.dump_ast1);
    dump_ast2 = given (codes "-debug") || (given (codes "-dump_ast2") || o.dumps.dump_ast2);
    dump_vlog1 = given (codes "-debug") || (given (codes "-dump_vlog1") || o.dumps.dump_vlog1);
    dump_vlog2 = given (codes "-debug") || (given (codes "-dump_vlog2") || o.dumps.dump_vlog2);
    no_dump_ptr = given (codes "-no_dump_ptr") || o.dumps.no_dump_ptr;
    dump_rtlil = given (codes "-dump_rtlil") || o.dumps.dump_rtlil;
  };
  unhandled_args = o.unhandled_args ++ unhandled;
}

-- What holds of each of the words, and of another text, holds.
abbrev HoldAt : (Text → Type 0) → List Text → Type 0
HoldAt P [] = Unit
HoldAt P (w ∷ ws) = P w × HoldAt P ws

abbrev IsOther : Text → List Text → Type 0
IsOther arg [] = Unit
IsOther arg (w ∷ ws) = (text_eq arg w ≡ false) × IsOther arg ws

by_word :
    (P : Text → Type 0) (arg : Text) (ws : List Text)
    → HoldAt P ws
    → (IsOther arg ws → P arg)
    → P arg
by_word P arg [] h last = last tt
by_word P arg (w ∷ ws) (hw, h) last = elim (Bool-cases (text_eq arg w)) [
  | inl e ↦ subst P (sym (text_eq→eq arg w e)) hw
  | inr e ↦ by_word P arg ws h (λ k. last (e, k))
]

abbrev words : List Text
words =
    codes "-debug"
    ∷ codes "-noassert"
    ∷ codes "-defer"
    ∷ codes "-dump_ast1"
    ∷ codes "-dump_ast2"
    ∷ codes "-dump_vlog1"
    ∷ codes "-dump_vlog2"
    ∷ codes "-no_dump_ptr"
    ∷ codes "-dump_rtlil"
    ∷ codes "-parse-only"
    ∷ codes "-link"
    ∷ codes "-formal"
    ∷ codes "-parseall"
    ∷ []

handle_one :
    (arg : Text) (o : Options) → handle arg o ≡ with_given (text_eq arg) (not_own (arg ∷ [])) o
unfolding handle
handle_one arg o =
    by_word (λ a. handle a o ≡ with_given (text_eq a) (not_own (a ∷ [])) o) arg words
      (
        rw (append-nil o.unhandled_args) refl,
        (
          rw (append-nil o.unhandled_args) refl,
          (
            rw (append-nil o.unhandled_args) refl,
            (
              rw (append-nil o.unhandled_args) refl,
              (
                rw (append-nil o.unhandled_args) refl,
                (
                  rw (append-nil o.unhandled_args) refl,
                  (
                    rw (append-nil o.unhandled_args) refl,
                    (
                      rw (append-nil o.unhandled_args) refl,
                      (
                        rw (append-nil o.unhandled_args) refl,
                        (
                          rw (append-nil o.unhandled_args) refl,
                          (refl, (refl, (rw (append-nil o.unhandled_args) refl, tt))),
                        ),
                      ),
                    ),
                  ),
                ),
              ),
            ),
          ),
        ),
      )
      (λ (h0, (h1, (h2, (h3, (h4, (h5, (h6, (h7, (h8, (h9, (h10, (h11, (h12, k))))))))))))).
        rw (handle, h0, h1, h2, h3, h4, h5, h6, h7, h8, h9, h10, h11, h12) refl)

or_swap : (a b c : Bool) → (a || (b || c)) ≡ ((b || a) || c)
or_swap a b c = ground arith

or_swap2 : (a b c d e : Bool) → (a || (b || (c || (d || e)))) ≡ ((c || a) || ((d || b) || e))
or_swap2 a b c d e = ground arith

both_given :
    (g h : Text → Bool) (u v : List Text) (o : Options)
    → with_given g u (with_given h v o) ≡ with_given (λ w. h w || g w) (v ++ u) o
both_given g h u v o = λ i. record {
  shared = record {
    debug_flag = or_swap (g (codes "-debug")) (h (codes "-debug")) o.shared.debug_flag i;
    no_assert = or_swap (g (codes "-noassert")) (h (codes "-noassert")) o.shared.no_assert i;
    parse_only = or_swap (g (codes "-parse-only")) (h (codes "-parse-only")) o.shared.parse_only i;
    defer = or_swap (g (codes "-defer")) (h (codes "-defer")) o.shared.defer i;
    link = or_swap (g (codes "-link")) (h (codes "-link")) o.shared.link i;
    formal = or_swap (g (codes "-formal")) (h (codes "-formal")) o.shared.formal i;
    disable_synth =
        or_swap (g (codes "-parseall")) (h (codes "-parseall")) o.shared.disable_synth i;
  };
  dumps = record {
    dump_ast1 =
        or_swap2 (g (codes "-debug")) (g (codes "-dump_ast1")) (h (codes "-debug"))
          (h (codes "-dump_ast1")) o.dumps.dump_ast1 i;
    dump_ast2 =
        or_swap2 (g (codes "-debug")) (g (codes "-dump_ast2")) (h (codes "-debug"))
          (h (codes "-dump_ast2")) o.dumps.dump_ast2 i;
    dump_vlog1 =
        or_swap2 (g (codes "-debug")) (g (codes "-dump_vlog1")) (h (codes "-debug"))
          (h (codes "-dump_vlog1")) o.dumps.dump_vlog1 i;
    dump_vlog2 =
        or_swap2 (g (codes "-debug")) (g (codes "-dump_vlog2")) (h (codes "-debug"))
          (h (codes "-dump_vlog2")) o.dumps.dump_vlog2 i;
    no_dump_ptr =
        or_swap (g (codes "-no_dump_ptr")) (h (codes "-no_dump_ptr")) o.dumps.no_dump_ptr i;
    dump_rtlil = or_swap (g (codes "-dump_rtlil")) (h (codes "-dump_rtlil")) o.dumps.dump_rtlil i;
  };
  unhandled_args = append_assoc o.unhandled_args v u i;
}

if_append :
    (b : Bool) (arg : Text) (l : List Text)
    → (if b then [] else arg ∷ []) ++ l ≡ (if b then l else arg ∷ l)
if_append true arg l = refl
if_append false arg l = refl

not_own-cons :
    (arg : Text) (args : List Text) → not_own (arg ∷ []) ++ not_own args ≡ not_own (arg ∷ args)
not_own-cons arg args = if_append (is_own arg) arg (not_own args)

handle_all_lem :
    (args : List Text) (o : Options)
    → handle_all args o ≡ with_given (λ w. has w args) (not_own args) o
unfolding handle_all
handle_all_lem [] o = rw (append-nil o.unhandled_args) refl
handle_all_lem (arg ∷ args) o =
    handle_all_lem args (handle arg o)
    ∙ ap (with_given (λ w. has w args) (not_own args)) (handle_one arg o)
    ∙ both_given (λ w. has w args) (text_eq arg) (not_own args) (not_own (arg ∷ [])) o
    ∙ ap (λ l. with_given (λ w. text_eq arg w || has w args) l o) (not_own-cons arg args)

-- Each flag after the arguments is set when it was set before, or when an option that sets it is among
-- them, and the arguments that are left are those that are no option of the command itself, in their
-- order; `-link` and `-formal` stay among them.
pub read_options_lem :
    (args : List Text) (shared : Shared)
    → read_options args shared
      ≡ with_given
          (λ w. has w args)
          (not_own args)
          (record { shared = shared; dumps = no_dumps; unhandled_args = [] })
unfolding read_options
read_options_lem args shared =
    handle_all_lem args (record { shared = shared; dumps = no_dumps; unhandled_args = [] })
