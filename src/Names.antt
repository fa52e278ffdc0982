-- ===== src/Names.antt =====
-- src/frontends/systemverilog/uhdm_ast.cc: the names of symbols, as lists of bytes.
mod Tests
use synlig.Common.{
  ℕ, Bool, true, false, ◌||◌, ◌&&◌, List, [], ◌∷◌, ◌++◌, Option, none, some, ◌≡◌, ◌==◌, ==_iff,
  if◌then◌else◌, refl, sym, ap, ◌∙◌, ◌⊎◌, inl, inr, if_elim, if_false, arith,
}
use synlig.Common.Text.{Text}

-- The bytes '\', '@' and ':'.
abbrev pub backslash : ℕ
backslash = 92

abbrev pub at_sign : ℕ
at_sign = 64

abbrev pub colon : ℕ
colon = 58

unfoldable pub has_at : Text → Bool
has_at [] = false
has_at (c ∷ t) = c == at_sign || has_at t

-- `name.substr(name.find_last_of('@') + 1)`.
unfoldable pub after_at : Text → Text
after_at [] = []
after_at (c ∷ t) =
    let rest = after_at t in if has_at t then rest else if c == at_sign then t else c ∷ t

unfoldable pub sanitize_symbol_name : Text → Text
sanitize_symbol_name [] = []
sanitize_symbol_name (c ∷ t) = backslash ∷ after_at (c ∷ t)

-- What stands behind the first "::", if there is one.
unfoldable pub after_separator : Text → Option Text
after_separator [] = none
after_separator (c ∷ []) = none
after_separator (c ∷ d ∷ t) =
    let rest = after_separator (d ∷ t) in if c == colon && d == colon then some t else rest

-- The second colon becomes the backslash.
abbrev symbol : Text → Option Text → Text
symbol name none = name
symbol name (some t) = backslash ∷ t

unfoldable pub strip_package_name : Text → Text
strip_package_name name = symbol name (after_separator name)

-- What is cut off a name: nothing, or a text that ends in '@'.
unfoldable pub EndsAt : Text → Type 0
EndsAt p = (p ≡ []) ⊎ ((q : Text) × (p ≡ q ++ at_sign ∷ []))

-- A text behind the last '@' of a name.
unfoldable pub BehindAt : Text → Text → Type 0
BehindAt name rest = (p : Text) × ((p ++ rest ≡ name) × (has_at rest ≡ false) × EndsAt p)

or_false : (a b : Bool) → a ≡ false → b ≡ false → (a || b) ≡ false
or_false true b h h' = cc
or_false false b h h' = h'

longer-EndsAt :
    (c : ℕ) (p rest : Text)
    → has_at (p ++ rest) ≡ true
    → has_at rest ≡ false
    → EndsAt p
    → EndsAt (c ∷ p)
unfolding EndsAt
longer-EndsAt c p rest h n (inl z) = (let same = ap (λ x. has_at (x ++ rest)) z in cc)
longer-EndsAt c p rest h n (inr (q, z)) = inr (c ∷ q, ap (λ x. c ∷ x) z)

after_at-BehindAt : (t : Text) → BehindAt t (after_at t)
unfolding BehindAt EndsAt after_at has_at
after_at-BehindAt [] = ([], (refl, refl, inl refl))
after_at-BehindAt (c ∷ t) =
    if_elim (BehindAt (c ∷ t)) (has_at t) _ _
      (λ h.
        let (p, behind) = after_at-BehindAt t in
        (
          c ∷ p,
          (
            ap (λ x. c ∷ x) behind.0,
            behind.1,
            longer-EndsAt c p (after_at t) (ap has_at behind.0 ∙ h) behind.1 behind.2,
          ),
        ))
      (λ h.
        if_elim (BehindAt (c ∷ t)) (c == at_sign) t (c ∷ t)
          (λ z. (at_sign ∷ [], (ap (λ x. x ∷ t) (sym ((==_iff c at_sign).0 z)), h, inr ([], refl))))
          (λ z. ([], (refl, or_false (c == at_sign) (has_at t) z h, inl refl))))

-- A symbol name is a backslash and what stands behind the last '@', the whole name if it has none.
pub sanitize_symbol_name_lem :
    (c : ℕ) (t : Text)
    → (rest : Text) × ((sanitize_symbol_name (c ∷ t) ≡ backslash ∷ rest) × BehindAt (c ∷ t) rest)
unfolding sanitize_symbol_name
sanitize_symbol_name_lem c t = (after_at (c ∷ t), (refl, after_at-BehindAt (c ∷ t)))

some_else :
    (b : Bool) (x : Text) (o : Option Text)
    → (if b then some x else o) ≡ none
    → (b ≡ false) × (o ≡ none)
some_else true x o h = cc
some_else false x o h = (refl, h)

after_separator-append :
    (p t : Text)
    → after_separator (p ++ colon ∷ []) ≡ none
    → after_separator (p ++ colon ∷ colon ∷ t) ≡ some t
unfolding after_separator
after_separator-append [] t h = refl
after_separator-append (c ∷ []) t h = if_false _ _ _ (some_else _ [] none h).0
after_separator-append (c ∷ d ∷ p) t h =
    let (other, rest) = some_else _ _ _ h in
    if_false _ _ _ other ∙ after_separator-append (d ∷ p) t rest

-- The symbol of a qualified name is a backslash and the name in the package, where the first "::"
-- is the one between the two; a name that has none is left as it is.
pub strip_package_name_lem :
    (pkg t name : Text)
    → after_separator (pkg ++ colon ∷ []) ≡ none
    → after_separator name ≡ none
    → (strip_package_name (pkg ++ colon ∷ colon ∷ t) ≡ backslash ∷ t)
      × (strip_package_name name ≡ name)
unfolding strip_package_name
strip_package_name_lem pkg t name h h' = (
  ap (λ o. symbol (pkg ++ colon ∷ colon ∷ t) o) (after_separator-append pkg t h),
  ap (symbol name) h',
)
