-- ===== src/Common/Word.antt =====
-- `uint32_t`: arithmetic modulo 2 ^ 32, and the conversion of an `int`.
use synlig.Common.{ℕ, zero, suc, ◌+◌, ◌-◌, ◌*◌, ◌/◌, ◌%◌, ◌^◌, ◌<◌, ◌≡◌, ◌∙◌, sym, ap, arith}
use native.Mathlib.Nat.{add-mod, mod-add-div, add-mul-mod_self_left}
use synlig.Common.Int.{ℤ, pos, negsuc, ◌-ℤ◌}

abbrev pub u32_mod : ℕ
u32_mod = 2 ^ 32

unfoldable pub add32 : ℕ → ℕ → ℕ
add32 a b = (a + b) % u32_mod

-- The operands are below 2 ^ 32.
unfoldable pub sub32 : ℕ → ℕ → ℕ
sub32 a b = (a + u32_mod - b) % u32_mod

unfoldable pub mul32 : ℕ → ℕ → ℕ
mul32 a b = a * b % u32_mod

unfoldable pub to_u32 : ℤ → ℕ
to_u32 (pos n) = n % u32_mod
to_u32 (negsuc n) = u32_mod - 1 - n % u32_mod

pub to_u32-lt : (a : ℤ) → to_u32 a < u32_mod
unfolding to_u32
to_u32-lt (pos n) = omega arith
to_u32-lt (negsuc n) = omega arith

pub add32-lt : (a b : ℕ) → add32 a b < u32_mod
unfolding add32
add32-lt a b = omega arith

pub sub32-lt : (a b : ℕ) → sub32 a b < u32_mod
unfolding sub32
sub32-lt a b = omega arith

pub mul32-lt : (a b : ℕ) → mul32 a b < u32_mod
unfolding mul32
mul32-lt a b = omega arith

pub to_u32_pred : (a : ℤ) → to_u32 (a -ℤ pos 1) ≡ sub32 (to_u32 a) 1
unfolding to_u32 sub32 ◌-ℤ◌
to_u32_pred (pos zero) = omega arith
to_u32_pred (pos (suc n)) = ground arith
to_u32_pred (negsuc n) = ground arith

pub sub32_right_comm :
    (a b c : ℕ)
    → a < u32_mod
    → b < u32_mod
    → c < u32_mod
    → sub32 (sub32 a b) c ≡ sub32 (sub32 a c) b
unfolding sub32
sub32_right_comm a b c ha hb hc = omega arith

pub add32_assoc : (a b c : ℕ) → add32 (add32 a b) c ≡ add32 a (add32 b c)
unfolding add32
add32_assoc a b c = omega arith

pub add32_comm : (a b : ℕ) → add32 a b ≡ add32 b a
unfolding add32
add32_comm a b = omega arith

pub add32-zero : (a : ℕ) → a < u32_mod → add32 a 0 ≡ a
unfolding add32
add32-zero a h = omega arith

mul_parts : (r q m b : ℕ) → (r + m * q) * b ≡ r * b + m * (q * b)
mul_parts r q m b = grind arith

mul_rotate : (a b c : ℕ) → a * b * c ≡ b * c * a
mul_rotate a b c = grind arith

mul_add : (a b c : ℕ) → (a + b) * c ≡ a * c + b * c
mul_add a b c = grind arith

pub mul32-mod_left : (a b : ℕ) → mul32 (a % u32_mod) b ≡ mul32 a b
unfolding mul32
mul32-mod_left a b =
    sym (add-mul-mod_self_left (a % u32_mod * b) u32_mod (a / u32_mod * b))
    ∙ ap (λ x. x % u32_mod) (sym (mul_parts (a % u32_mod) (a / u32_mod) u32_mod b))
    ∙ ap (λ x. x * b % u32_mod) (mod-add-div a u32_mod)

pub mul32_comm : (a b : ℕ) → mul32 a b ≡ mul32 b a
unfolding mul32
mul32_comm a b = grind arith

pub mul32_assoc : (a b c : ℕ) → mul32 (mul32 a b) c ≡ mul32 a (mul32 b c)
unfolding mul32
mul32_assoc a b c =
    mul32-mod_left (a * b) c
    ∙ ap (λ x. x % u32_mod) (mul_rotate a b c)
    ∙ sym (mul32-mod_left (b * c) a)
    ∙ mul32_comm (b * c % u32_mod) a

-- Multiplication distributes over addition, also with the wrap-around.
pub mul32-add32 : (a b c : ℕ) → mul32 (add32 a b) c ≡ add32 (mul32 a c) (mul32 b c)
unfolding mul32 add32
mul32-add32 a b c =
    mul32-mod_left (a + b) c
    ∙ ap (λ x. x % u32_mod) (mul_add a b c)
    ∙ add-mod (a * c) (b * c) u32_mod

pub mul32-one : (a : ℕ) → a < u32_mod → mul32 1 a ≡ a
unfolding mul32
mul32-one a h = omega arith

pub mul32-zero : (a : ℕ) → mul32 0 a ≡ 0
unfolding mul32
mul32-zero a = omega arith

pub sub32-mod_left : (a b : ℕ) → b < u32_mod → sub32 (a % u32_mod) b ≡ sub32 a b
unfolding sub32
sub32-mod_left a b h = omega arith

pub add32_right_comm : (a b c : ℕ) → add32 (add32 a b) c ≡ add32 (add32 a c) b
unfolding add32
add32_right_comm a b c = omega arith

pub add32-sub32 : (a b : ℕ) → a < u32_mod → b < u32_mod → add32 (sub32 a b) b ≡ a
unfolding add32 sub32
add32-sub32 a b ha hb = omega arith

pub sub32-add32 : (a b : ℕ) → a < u32_mod → b < u32_mod → sub32 (add32 a b) b ≡ a
unfolding add32 sub32
sub32-add32 a b ha hb = omega arith

-- Multiplication distributes over subtraction, also with the wrap-around.
pub mul32-sub32 :
    (a b c : ℕ) → a < u32_mod → b < u32_mod → mul32 (sub32 a b) c ≡ sub32 (mul32 a c) (mul32 b c)
mul32-sub32 a b c ha hb =
    sym (sub32-add32 (mul32 (sub32 a b) c) (mul32 b c) (mul32-lt (sub32 a b) c) (mul32-lt b c))
    ∙ ap (λ x. sub32 x (mul32 b c)) (sym (mul32-add32 (sub32 a b) b c))
    ∙ ap (λ x. sub32 (mul32 x c) (mul32 b c)) (add32-sub32 a b ha hb)

pub sub32-zero : (a : ℕ) → a < u32_mod → sub32 a 0 ≡ a
unfolding sub32
sub32-zero a h = omega arith

pub zero-add32 : (a : ℕ) → a < u32_mod → add32 0 a ≡ a
unfolding add32
zero-add32 a h = omega arith

-- Raising the left one of two numbers by one before the difference, or the difference after it.
pub sub32-add32_one :
    (a b : ℕ) → a < u32_mod → b < u32_mod → sub32 (add32 a 1) b ≡ add32 (sub32 a b) 1
unfolding add32 sub32
sub32-add32_one a b ha hb = omega arith
