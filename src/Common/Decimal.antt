-- ===== src/Common/Decimal.antt =====
-- `std::to_string` of a number that is not negative.
use synlig.Common.{
  ℕ, zero, suc, ◌+◌, ◌-◌, ◌*◌, ◌/◌, ◌%◌, ◌<◌, ◌≡◌, false, [], ◌∷◌, ◌==◌, ==_iff, if◌then◌else◌, sym,
  ap, ◌∙◌, if_elim, arith,
}
use synlig.Common.Text.{Text}

-- The digits of a number before others; the fuel is above the number.
unfoldable pub put_digits : ℕ → ℕ → Text → Text
put_digits zero n acc = acc
put_digits (suc fuel) n acc =
    let more = put_digits fuel (n / 10) ((48 + n % 10) ∷ acc) in
    if n / 10 == 0 then (48 + n % 10) ∷ acc else more

unfoldable pub to_string : ℕ → Text
to_string n = put_digits (suc n) n []

-- The number that digits stand for, behind those of `v`.
unfoldable pub read_digits : ℕ → Text → ℕ
read_digits v [] = v
read_digits v (c ∷ t) = read_digits (v * 10 + (c - 48)) t

shorter : (n fuel : ℕ) → n < suc fuel → (n / 10 == 0) ≡ false → n / 10 < fuel
shorter n fuel h z = ground arith

read_digits-put_digits :
    (fuel n : ℕ) (t : Text) → n < fuel → read_digits 0 (put_digits fuel n t) ≡ read_digits n t
unfolding put_digits read_digits
read_digits-put_digits zero n t h = absurd (omega arith)
read_digits-put_digits (suc fuel) n t h =
    if_elim (λ s. read_digits 0 s ≡ read_digits n t) (n / 10 == 0) _ _
      (λ z. let small = (==_iff (n / 10) 0).0 z in ap (λ v. read_digits v t) (omega arith))
      (λ z.
        read_digits-put_digits fuel (n / 10) _ (shorter n fuel h z)
        ∙ ap (λ v. read_digits v t) (omega arith))

pub read_digits-to_string : (n : ℕ) → read_digits 0 (to_string n) ≡ n
unfolding to_string read_digits
read_digits-to_string n = read_digits-put_digits (suc n) n [] (omega arith)

pub to_string_injective : (m n : ℕ) → to_string m ≡ to_string n → m ≡ n
to_string_injective m n h =
    sym (read_digits-to_string m) ∙ ap (read_digits 0) h ∙ read_digits-to_string n
