-- ===== src/Constant/Digits.antt =====
-- Numbers and sizes are passed on whole.
use synlig.Common.{
  ℕ, ◌-◌, ◌%◌, ◌^◌, ◌<◌, ◌≡◌, Bool, true, false, ltb, if_elim, refl, ap, ◌∙◌, arith,
}
use synlig.Common.Decimal.{to_string, read_digits, read_digits-to_string}
use synlig.Common.Int.{ℤ, pos, negsuc, pos_part, ltb_ℤ}
use synlig.Common.Text.{Text, codes}
use synlig.Common.Word
use synlig.Common.Word.{to_u32}
use synlig.Ast.{AstNode, node, integer}
use synlig.Constant.{
  Object, Literal, literal_node, literal, literal_of, literal_from, int_node, set_unsized,
  is_no_size, u_int_val, int_val,
}
use synlig.Yosys.{Yosys}

-- A literal stands for an integer: a node, modulo 2 ^ 32, for one that is not above the largest
-- `int`; a text has the digits of any other.
unfoldable pub Denotes : ℤ → Literal → Type 0
Denotes i (literal_node n) = (ltb_ℤ (pos (2 ^ 31 - 1)) i ≡ false) × (integer n ≡ to_u32 i)
Denotes i (literal t s) =
    (ltb_ℤ (pos (2 ^ 31 - 1)) i ≡ true) × (t ≡ codes "'sd") × (pos (read_digits 0 s) ≡ i)
Denotes i _ = ⊥

integer-set_unsized : (b : Bool) (n : AstNode) → integer (set_unsized b n) ≡ integer n
unfolding set_unsized
integer-set_unsized true (node t f cs as') = refl
integer-set_unsized false n = refl

module _ (yosys : Yosys) (mkconst_str : Text → AstNode) where
  open yosys use {mkconst_int, mkconst_int_integer}

  integer-int_node :
      (is_signed : Bool) (size : ℤ) (v : ℕ)
      → v < 2 ^ 32
      → integer (int_node yosys is_signed size v) ≡ v
  unfolding int_node
  integer-int_node is_signed size v h =
      integer-set_unsized (is_no_size size) _ ∙ mkconst_int_integer v _ _ h

  decimal-Denotes :
      (v : ℕ) → ltb (2 ^ 31 - 1) v ≡ true → Denotes (pos v) (literal (codes "'sd") (to_string v))
  unfolding Denotes
  decimal-Denotes v h = (in_ℤ v h, refl, ap pos (read_digits-to_string v))
    where
      in_ℤ : (v : ℕ) → ltb (2 ^ 31 - 1) v ≡ true → ltb_ℤ (pos (2 ^ 31 - 1)) (pos v) ≡ true
      in_ℤ v h = ground arith

  u_int_val-Denotes :
      (object : Object) (v : ℕ)
      → Denotes (pos v) (literal_of yosys mkconst_str (record object { val = u_int_val v }))
  unfolding literal_of literal_from Denotes to_u32
  u_int_val-Denotes object v =
      if_elim (Denotes (pos v)) (ltb (2 ^ 32 - 1) v) _ _ (λ huge. decimal-Denotes v (above v huge))
        (λ _.
          if_elim (Denotes (pos v)) (ltb (2 ^ 31 - 1) v) _ _ (λ large. decimal-Denotes v large)
            (λ small. (
              in_ℤ v small,
              integer-int_node object.typespec_signed object.size v (below v small)
                  ∙ in_word v small,
            )))
    where
      above : (v : ℕ) → ltb (2 ^ 32 - 1) v ≡ true → ltb (2 ^ 31 - 1) v ≡ true
      above v h = ground arith

      in_ℤ : (v : ℕ) → ltb (2 ^ 31 - 1) v ≡ false → ltb_ℤ (pos (2 ^ 31 - 1)) (pos v) ≡ false
      in_ℤ v h = ground arith

      below : (v : ℕ) → ltb (2 ^ 31 - 1) v ≡ false → v < 2 ^ 32
      below v h = ground arith

      in_word : (v : ℕ) → ltb (2 ^ 31 - 1) v ≡ false → v ≡ v % 2 ^ 32
      in_word v h = ground arith

  int_val-Denotes :
      (object : Object) (i : ℤ)
      → Denotes i (literal_of yosys mkconst_str (record object { val = int_val i }))
  unfolding literal_of literal_from Denotes
  int_val-Denotes object i =
      if_elim (Denotes i) (ltb_ℤ (pos (2 ^ 31 - 1)) i) _ _ (λ large. large_int i large)
        (λ small. (
          small,
          integer-int_node object.typespec_signed object.size (to_u32 i) (Word.to_u32-lt i),
        ))
    where
      of_ℤ : (v : ℕ) → ltb_ℤ (pos (2 ^ 31 - 1)) (pos v) ≡ true → ltb (2 ^ 31 - 1) v ≡ true
      of_ℤ v h = ground arith

      no_negative : (v : ℕ) → ltb_ℤ (pos (2 ^ 31 - 1)) (negsuc v) ≡ true → ⊥
      no_negative v h = ground arith

      large_int :
          (i : ℤ)
          → ltb_ℤ (pos (2 ^ 31 - 1)) i ≡ true
          → Denotes i (literal (codes "'sd") (to_string (pos_part i)))
      large_int (pos v) h = decimal-Denotes v (of_ℤ v h)
      large_int (negsuc v) h = absurd (no_negative v h)

  -- An integer of 64 bits, unsigned or signed, that is above the largest `int` is passed on whole, as
  -- the digits of a signed decimal literal, and any other as a node that holds it modulo 2 ^ 32.
  pub literal_of-Denotes :
      (object : Object) (v : ℕ) (i : ℤ)
      → Denotes (pos v) (literal_of yosys mkconst_str (record object { val = u_int_val v }))
        × Denotes i (literal_of yosys mkconst_str (record object { val = int_val i }))
  literal_of-Denotes object v i = (u_int_val-Denotes object v, int_val-Denotes object i)
