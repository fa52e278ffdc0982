-- ===== src/Constant/Literals.antt =====
-- The text of a literal that Yosys reads.
use synlig.Common.{
  ℕ, zero, suc, ◌+◌, ◌/◌, ◌%◌, ◌≡◌, Bool, true, false, [], ◌∷◌, ◌++◌, Option, none, some, ◌==◌,
  if◌then◌else◌, if_elim, if_false, refl, sym, ap, ◌∙◌, arith,
}
use mathlib.Core.Path.{subst}
use synlig.Common.Checked.{gives}
use synlig.Common.Decimal.{to_string, put_digits, read_digits, read_digits-to_string}
use synlig.Common.Int.{ℤ, pos}
use synlig.Common.Text.{Text, codes}
use synlig.Ast.{AstNode}
use synlig.Constant.{
  Object, literal, literal_of, literal_from, size_str, literal_text, has_char, bin_str_val,
  dec_str_val, hex_str_val, oct_str_val, process_value, finish_literal, read_literal,
  unsized_constant, is_sized, case_char, sign_type, Format,
}
use synlig.Yosys.{Yosys}

-- What stands before the first quote.
unfoldable pub before_quote : Text → Text
before_quote [] = []
before_quote (c ∷ s) = let rest = before_quote s in if c == 39 then [] else c ∷ rest

before_quote_digit : (n : ℕ) (s : Text) → before_quote ((48 + n) ∷ s) ≡ (48 + n) ∷ before_quote s
unfolding before_quote
before_quote_digit n s = if_false (48 + n == 39) [] _ (ground arith)

before_quote-put_digits :
    (fuel n : ℕ) (acc rest : Text)
    → before_quote (put_digits fuel n acc ++ rest) ≡ put_digits fuel n (before_quote (acc ++ rest))
unfolding put_digits
before_quote-put_digits zero n acc rest = refl
before_quote-put_digits (suc fuel) n acc rest =
    let here = 48 + n % 10 in
    by_test (n / 10 == 0) _ _ (before_quote_digit (n % 10) (acc ++ rest)) (
      before_quote-put_digits fuel (n / 10) (here ∷ acc) rest
      ∙ ap (put_digits fuel (n / 10)) (before_quote_digit (n % 10) (acc ++ rest)))
  where
    by_test :
        (b : Bool) (x y : Text) {u v : Text}
        → before_quote (x ++ rest) ≡ u
        → before_quote (y ++ rest) ≡ v
        → before_quote ((if b then x else y) ++ rest) ≡ (if b then u else v)
    by_test true x y hx hy = hx
    by_test false x y hx hy = hy

before_quote-to_string : (n : ℕ) (t : Text) → before_quote (to_string n ++ 39 ∷ t) ≡ to_string n
unfolding to_string before_quote
before_quote-to_string n t = before_quote-put_digits (suc n) n [] (39 ∷ t)

-- What stands behind the first quote.
unfoldable pub after_quote : Text → Option Text
after_quote [] = none
after_quote (c ∷ s) = let rest = after_quote s in if c == 39 then some s else rest

after_quote_digit : (n : ℕ) (s : Text) → after_quote ((48 + n) ∷ s) ≡ after_quote s
unfolding after_quote
after_quote_digit n s = if_false (48 + n == 39) (some s) _ (ground arith)

after_quote-put_digits :
    (fuel n : ℕ) (acc rest : Text)
    → after_quote (put_digits fuel n acc ++ rest) ≡ after_quote (acc ++ rest)
unfolding put_digits
after_quote-put_digits zero n acc rest = refl
after_quote-put_digits (suc fuel) n acc rest =
    if_elim (λ t. after_quote (t ++ rest) ≡ after_quote (acc ++ rest)) (n / 10 == 0) _ _
      (λ _. after_quote_digit (n % 10) (acc ++ rest))
      (λ _.
        after_quote-put_digits fuel (n / 10) ((48 + n % 10) ∷ acc) rest
        ∙ after_quote_digit (n % 10) (acc ++ rest))

-- A literal has a size before its first quote, and the rest behind it.
unfoldable pub IsSized : ℕ → Text → Text → Type 0
IsSized n t text = (read_digits 0 (before_quote text) ≡ n) × (after_quote text ≡ some t)

to_string-IsSized : (n : ℕ) (t : Text) → IsSized n t (to_string n ++ 39 ∷ t)
unfolding IsSized to_string after_quote
to_string-IsSized n t = (
  ap (read_digits 0) (before_quote-to_string n t) ∙ read_digits-to_string n,
  after_quote-put_digits (suc n) n [] (39 ∷ t),
)

-- The formats of literals in a base.
pub data Base : Type 0 where
  binary decimal hexadecimal octal : Base

unfoldable pub format_of : Base → Text → Format
format_of binary s = bin_str_val s
format_of decimal s = dec_str_val s
format_of hexadecimal s = hex_str_val s
format_of octal s = oct_str_val s

unfoldable pub letter : Base → Text
letter binary = codes "b"
letter decimal = codes "d"
letter hexadecimal = codes "h"
letter octal = codes "o"

abbrev pub sign : Bool → Text
sign true = codes "s"
sign false = []

literal_text-IsSized :
    (object : Object) (n : ℕ) (t s : Text)
    → object.size ≡ pos (suc n)
    → IsSized (suc n) (t ++ s) (literal_text object (39 ∷ t) s)
unfolding literal_text size_str
literal_text-IsSized object n t s h =
    subst
      (λ size. IsSized (suc n) (t ++ s) (size_str size object.decompile (39 ∷ t) ++ (39 ∷ t ++ s)))
      (sym h) (to_string-IsSized (suc n) (t ++ s))

module _ (yosys : Yosys) (mkconst_str : Text → AstNode)
    (const2ast : Text → Text → Option AstNode) where
  with_sign :
      (signed : Bool) (size : ℤ) (base : Base) {s : Text}
      → literal_from yosys mkconst_str signed size (format_of base s)
        ≡ literal (39 ∷ sign signed ++ letter base) s
  unfolding literal_from format_of letter sign_type
  with_sign true size binary = refl
  with_sign true size decimal = refl
  with_sign true size hexadecimal = refl
  with_sign true size octal = refl
  with_sign false size binary = refl
  with_sign false size decimal = refl
  with_sign false size hexadecimal = refl
  with_sign false size octal = refl

  literal_of-format :
      (object : Object) (base : Base) (s : Text)
      → object.val ≡ format_of base s
      → literal_of yosys mkconst_str object
        ≡ literal (39 ∷ sign object.typespec_signed ++ letter base) s
  unfolding literal_of
  literal_of-format object base s h =
      ap (literal_from yosys mkconst_str object.typespec_signed object.size) h
      ∙ with_sign object.typespec_signed object.size base

  -- A literal with a base, of an object with a positive size and without a quote among its digits,
  -- becomes what Yosys reads in a text that has the size before its first quote, and behind it the
  -- sign of the typespec, the letter of the base and the digits.
  pub process_value-IsSized :
      (stop_on_error : Bool) (object : Object) (base : Base) (s : Text) (n : ℕ)
      → object.val ≡ format_of base s
      → has_char 39 s ≡ false
      → object.size ≡ pos (suc n)
      → (text : Text) × ((process_value yosys stop_on_error mkconst_str const2ast object
            ≡ gives (const2ast text (case_char object.case_type)))
          × IsSized (suc n) ((sign object.typespec_signed ++ letter base) ++ s) text)
  unfolding process_value finish_literal read_literal unsized_constant is_sized
  process_value-IsSized stop_on_error object base s n h plain size =
      let t = sign object.typespec_signed ++ letter base in
      (
        literal_text object (39 ∷ t) s,
        (
          ap (finish_literal stop_on_error const2ast object) (literal_of-format object base s h)
              ∙ if_false (has_char 39 s) _ _ plain
              ∙ ap
                  (λ k.
                    unsized_constant k
                      (const2ast (literal_text object (39 ∷ t) s) (case_char object.case_type)))
                  (ap is_sized size ∙ positive n),
          literal_text-IsSized object n t s size,
        ),
      )
    where
      positive : (n : ℕ) → is_sized (pos (suc n)) ≡ true
      positive n = ground arith
