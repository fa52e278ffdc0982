-- ===== src/Common/Modulo.antt =====
-- Sums and differences that wrap around a modulus.
use native.Mathlib.Nat.{mod-eq_of_lt, mod_self, add-mod_right}
use synlig.Common.{
  ℕ, ◌+◌, ◌-◌, ◌%◌, ◌≤◌, ◌<◌, ◌≡◌, false, ◌==◌, ==_iff, Bool-cases, inl, inr, sym, ap, ◌∙◌, arith,
}

pub mod_less : (a m : ℕ) → a < m → a % m ≡ a
mod_less a m h = mod-eq_of_lt h

distinct : (a b : ℕ) → (a == b) ≡ false → a ≤ b → a < b
distinct a b h le = ground arith

-- Taking something from a sum that may reach the modulus.
pub mod_take : (s d m : ℕ) → 1 ≤ d → d ≤ s → s ≤ m → (s % m + m - d) % m ≡ s - d
mod_take s d m hd h le = elim (Bool-cases (s == m)) [
  | inl e ↦
      let same : s ≡ m = (==_iff s m).0 e in
      let zero : s % m ≡ 0 = ap (λ x. x % m) same ∙ mod_self m in
      let plain : 0 + m - d ≡ m - d = omega arith in
      ap (λ x. (x + m - d) % m) zero
      ∙ ap (λ x. x % m) plain
      ∙ mod_less (m - d) m (omega arith)
      ∙ ap (λ x. x - d) (sym same)
  | inr e ↦
      let moved : s + m - d ≡ (s - d) + m = omega arith in
      ap (λ x. (x + m - d) % m) (mod_less s m (distinct s m e le))
      ∙ ap (λ x. x % m) moved
      ∙ add-mod_right (s - d) m
      ∙ mod_less (s - d) m (omega arith)
]
