-- ===== src/Crc/Injective.antt =====
-- The register of a CRC with an odd polynomial loses nothing when it moves.
use librasta.Base.{
  ℕ, zero, suc, ◌*◌, ◌/◌, ◌%◌, ◌^◌, ◌<◌, ◌≡◌, sym, ap, ◌∙◌, arith, inl, inr, bit_xor, bit_xor_assoc,
  bit_xor_self, bit_xor_comm, zero-bit_xor, bit_xor-parity, bit_xor_bounded, div-fields,
  split-fields, double_shift,
}
use native.Mathlib.Nat.{pow-suc}
use librasta.Crc.Fields.{pow-add, pow-positive, bit-cases, top-lt}
use librasta.Crc.Register.{advance, advances, advance_xor, advance-lt, advance_low}

bit_xor_undo : (c x : ℕ) → x ≡ bit_xor c (bit_xor c x)
bit_xor_undo c x =
    sym (sym (bit_xor_assoc c c x) ∙ ap (λ t. bit_xor t x) (bit_xor_self c) ∙ zero-bit_xor x)

pub xor_cancel : (a b c : ℕ) → bit_xor c a ≡ bit_xor c b → a ≡ b
xor_cancel a b c h = bit_xor_undo c a ∙ ap (bit_xor c) h ∙ sym (bit_xor_undo c b)

pub xor_cancel_right : (a b c : ℕ) → bit_xor a c ≡ bit_xor b c → a ≡ b
xor_cancel_right a b c h = xor_cancel a b c (bit_xor_comm c a ∙ h ∙ bit_xor_comm b c)

eq_of_xor : (a b : ℕ) → bit_xor a b ≡ 0 → a ≡ b
eq_of_xor a b h = sym (xor_cancel b a a (h ∙ sym (bit_xor_self a)))

pub scale_cancel : (d x y : ℕ) → x * 2 ^ d ≡ y * 2 ^ d → x ≡ y
scale_cancel d x y h =
    sym (div-fields d x 0 (pow-positive d))
    ∙ ap (λ t. t / 2 ^ d) (omega arith)
    ∙ div-fields d y 0 (pow-positive d)

module _ (v p : ℕ) (odd : p % 2 ≡ 1) (fits : p < 2 ^ suc v) where
  even_shift : (x : ℕ) → x * 2 % 2 ^ suc v % 2 ≡ 0
  even_shift x = omega (arith, (split-fields (suc v) (x * 2)).0, double_shift (x * 2 / 2 ^ suc v) v)

  -- Only the zero register moves to zero.
  advance-zero : (x : ℕ) → x < 2 ^ suc v → advance v p x ≡ 0 → x ≡ 0
  unfolding advance
  advance-zero x l h = elim (bit-cases (x / 2 ^ v % 2) (omega arith)) [
    | inl z ↦
        let top : x / 2 ^ v < 2 ^ 1 = top-lt v 1 x (omega (arith, l, pow-add v 1, pow-suc 2 v)) in
        let below : x < 2 ^ v =
          omega
            (arith, split-fields v x, ap (λ t. t * 2 ^ v) {x = x / 2 ^ v} {y = 0} (omega arith)) in
        omega (arith, sym (advance_low v p x below), h)
    | inr z ↦ absurd (
        omega (
          arith,
          ap (λ t. t % 2) h,
          bit_xor-parity (x * 2 % 2 ^ suc v) (x / 2 ^ v % 2 * p),
          even_shift x,
          ap (λ t. t * p) z,
        ))
  ]

  advance-injective :
      (a b : ℕ) → a < 2 ^ suc v → b < 2 ^ suc v → advance v p a ≡ advance v p b → a ≡ b
  advance-injective a b la lb h = eq_of_xor a b (
      advance-zero (bit_xor a b) (bit_xor_bounded (suc v) a b la lb) (
        advance_xor v p a b ∙ ap (λ t. bit_xor t (advance v p b)) h ∙ bit_xor_self (advance v p b)))

  pub advances-injective :
      (n a b : ℕ) → a < 2 ^ suc v → b < 2 ^ suc v → advances n v p a ≡ advances n v p b → a ≡ b
  unfolding advances
  advances-injective zero a b la lb h = h
  advances-injective (suc n) a b la lb h = advance-injective a b la lb (
      advances-injective n (advance v p a) (advance v p b) (advance-lt v p a fits)
        (advance-lt v p b fits) h)
