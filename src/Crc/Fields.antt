-- ===== src/Crc/Fields.antt =====
-- Powers of two and the fields between them, for the registers of a CRC.
use librasta.Base.{
  ℕ, zero, suc, ◌+◌, ◌-◌, ◌*◌, ◌/◌, ◌%◌, ◌^◌, ◌≤◌, ◌<◌, ◌≡◌, ◌⊎◌, inl, inr, refl, sym, ap, ◌∙◌,
  arith, u64, split-fields, mod-fields,
}
use native.Mathlib.Nat.{
  pow-suc, one-le-pow, pow-le-pow_right, mul_assoc, add-mul, mul-lt-mul_of_pos_right,
  mul-add-mod_self_right, mul-add-div_right, div-lt_iff_lt-mul,
}

pub pow-add : (a b : ℕ) → 2 ^ (a + b) ≡ 2 ^ a * 2 ^ b
pow-add zero b = omega (arith, ap (λ t. 2 ^ t) {x = 0 + b} {y = b} (omega arith))
pow-add (suc a) b = omega (
  arith,
  ap (λ t. 2 ^ t) {x = suc a + b} {y = suc (a + b)} (omega arith),
  pow-suc 2 (a + b),
  pow-add a b,
  pow-suc 2 a,
  ap (λ t. t * 2 ^ b) {x = 2 ^ suc a} {y = 2 * 2 ^ a} (omega (arith, pow-suc 2 a)),
)

pub bit-mul-le : (b p : ℕ) → b < 2 → b * p ≤ p
bit-mul-le zero p h = omega arith
bit-mul-le (suc zero) p h = omega arith
bit-mul-le (suc (suc b)) p h = absurd (omega arith)

-- A number below two is 0 or 1.
pub bit-cases : (b : ℕ) → b < 2 → (b ≡ 0) ⊎ (b ≡ 1)
bit-cases zero h = inl refl
bit-cases (suc zero) h = inr refl
bit-cases (suc (suc b)) h = absurd (omega arith)

pub pow-positive : (k : ℕ) → 0 < 2 ^ k
pow-positive k = omega (arith, one-le-pow k 2 (omega arith))

pub pow-le : (a b : ℕ) → a ≤ b → 2 ^ a ≤ 2 ^ b
pow-le a b h = pow-le-pow_right (omega arith) h

pub scaled-lt : (u k v x : ℕ) → x < 2 ^ k → u + k ≡ v → x * 2 ^ u < 2 ^ v
scaled-lt u k v x h e = omega (
  arith,
  ap (λ t. 2 ^ t) e,
  pow-add u k,
  mul-lt-mul_of_pos_right {m = x} {n = 2 ^ k} {k = 2 ^ u} h (pow-positive u),
)

pub mod-mod-pow : (w x : ℕ) → w ≤ 64 → u64 x % 2 ^ w ≡ x % 2 ^ w
mod-mod-pow w x h =
    let q = x / 2 ^ 64 in
    let pow : 2 ^ 64 ≡ 2 ^ (64 - w) * 2 ^ w =
      ap (λ t. 2 ^ t) {x = 64} {y = 64 - w + w} (omega arith) ∙ pow-add (64 - w) w in
    sym (
      ap (λ t. t % 2 ^ w) {x = x} {y = q * 2 ^ (64 - w) * 2 ^ w + u64 x}
        (omega (arith, ap (λ (t : ℕ). q * t) pow, mul_assoc q (2 ^ (64 - w)) (2 ^ w)))
      ∙ mul-add-mod_self_right (q * 2 ^ (64 - w)) (2 ^ w) (u64 x))

-- The fields of a word of `a + b` bits.
above : (a b q : ℕ) → q * 2 ^ (a + b) ≡ q * 2 ^ b * 2 ^ a
above a b q = ap (λ (t : ℕ). q * t) (pow-add a b ∙ omega arith) ∙ sym (mul_assoc q (2 ^ b) (2 ^ a))

split_above : (a b x : ℕ) → x ≡ x / 2 ^ (a + b) * 2 ^ b * 2 ^ a + x % 2 ^ (a + b)
split_above a b x = omega (arith, (split-fields (a + b) x).0, above a b (x / 2 ^ (a + b)))

pub mod-mod : (a b x : ℕ) → x % 2 ^ (a + b) % 2 ^ a ≡ x % 2 ^ a
mod-mod a b x = sym (
    ap (λ t. t % 2 ^ a) (split_above a b x)
    ∙ mul-add-mod_self_right (x / 2 ^ (a + b) * 2 ^ b) (2 ^ a) (x % 2 ^ (a + b)))

pub top-lt : (a b x : ℕ) → x < 2 ^ (a + b) → x / 2 ^ a < 2 ^ b
top-lt a b x h =
    (div-lt_iff_lt-mul {k = 2 ^ a} {x = x} {y = 2 ^ b} (pow-positive a)).1
      (omega (arith, pow-add a b, h))

pub div-mod : (a b x : ℕ) → x / 2 ^ a % 2 ^ b ≡ x % 2 ^ (a + b) / 2 ^ a
div-mod a b x =
    ap (λ t. t % 2 ^ b)
      (ap (λ t. t / 2 ^ a) (split_above a b x)
        ∙ mul-add-div_right {m = 2 ^ a} (pow-positive a) (x / 2 ^ (a + b) * 2 ^ b)
            (x % 2 ^ (a + b)))
    ∙ mod-fields b (x / 2 ^ (a + b)) (x % 2 ^ (a + b) / 2 ^ a)
        (top-lt a b _ (split-fields (a + b) x).1)

pub mod-shift : (a b x : ℕ) → x * 2 ^ b % 2 ^ (a + b) ≡ x % 2 ^ a * 2 ^ b
mod-shift a b x =
    let low = scaled-lt b a (a + b) (x % 2 ^ a) (split-fields a x).1 (omega arith) in
    ap (λ t. t % 2 ^ (a + b)) {x = x * 2 ^ b} {y = x / 2 ^ a * 2 ^ (a + b) + x % 2 ^ a * 2 ^ b}
      (ap (λ t. t * 2 ^ b) (split-fields a x).0
        ∙ add-mul (x / 2 ^ a * 2 ^ a) (x % 2 ^ a) (2 ^ b)
        ∙ ap (λ t. t + x % 2 ^ a * 2 ^ b)
            (mul_assoc (x / 2 ^ a) (2 ^ a) (2 ^ b)
              ∙ ap (λ (t : ℕ). x / 2 ^ a * t) (sym (pow-add a b))))
    ∙ mod-fields (a + b) (x / 2 ^ a) (x % 2 ^ a * 2 ^ b) low
