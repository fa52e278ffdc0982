-- ===== src/Common/Checked.antt =====
-- A value, or the error that the code reports instead.
use mathlib.Core.Path.{◌≡◌, refl}

pub data Checked (E A : Type 0) : Type 0 where
  fails : E → Checked E A
  gives : A → Checked E A

infixl 5 ◌>>=◌
abbrev pub ◌>>=◌ : {E A B : Type 0} → Checked E A → (A → Checked E B) → Checked E B
fails problem >>= next = fails problem
gives value >>= next = next value

-- The two steps of a chain that gives a value.
pub gives_steps :
    {E A B : Type 0} (c : Checked E A) (next : A → Checked E B) {last : B}
    → (c >>= next) ≡ gives last
    → (value : A) × (c ≡ gives value) × (next value ≡ gives last)
gives_steps (fails problem) next h = cc
gives_steps (gives value) next h = (value, refl, h)

-- A chain in two parts, of which the second starts with what the first gives.
pub chain_parts :
    {E A B C : Type 0} (c : Checked E A) (whole : A → Checked E C) (part : A → Checked E B)
    (next : B → Checked E C)
    → ((a : A) → whole a ≡ (part a >>= next))
    → (c >>= whole) ≡ ((c >>= part) >>= next)
chain_parts (fails problem) whole part next h = refl
chain_parts (gives value) whole part next h = h value
