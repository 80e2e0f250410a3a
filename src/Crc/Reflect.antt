-- ===== src/Crc/Reflect.antt =====
-- `reflect` of src/c/util/rastacrc.c is the mirror image of the low bits, and its laws.
use librasta.Base.{
  ℕ, zero, suc, ◌+◌, ◌*◌, ◌/◌, ◌%◌, ◌^◌, ◌≤◌, ◌<◌, ◌≡◌, if◌then◌else◌, true, false, refl, sym, ap,
  ◌∙◌, arith, ◌==◌, inl, inr, u64, bit_and, bit_or, bit_xor, bit_and-pow, bit_or-pow,
  bit_xor_fields, bit_xor-half, div-half, mod-half, div-fields, split-fields, double_shift,
  zero-bit_xor, bit_xor_digit,
}
use native.Mathlib.Nat.{pow-suc, mod-eq_of_lt, mul_assoc, add-mul}
use librasta.Crc.Fields.{pow-add, bit-mul-le, bit-cases, pow-positive, pow-le}
use librasta.Crc.{reflect, reflect_rounds}
use librasta.Crc.Reference.{mirror}

pub mirror-lt : (k x : ℕ) → mirror k x < 2 ^ k
unfolding mirror
mirror-lt zero x = omega arith
mirror-lt (suc k) x =
    omega (arith, mirror-lt k (x / 2), pow-suc 2 k, bit-mul-le (x % 2) (2 ^ k) (omega arith))

-- The image of a long word, by its two halves.
pub mirror-add : (a b x : ℕ) → mirror (a + b) x ≡ mirror a x * 2 ^ b + mirror b (x / 2 ^ a)
unfolding mirror
mirror-add zero b x = omega (
  arith,
  ap (λ t. mirror t x) {x = 0 + b} {y = b} (omega arith),
  ap (mirror b) {x = x / 1} {y = x} (omega arith),
)
mirror-add (suc a) b x = omega (
  arith,
  ap (λ t. mirror t x) {x = suc a + b} {y = suc (a + b)} (omega arith),
  mirror-add a b (x / 2),
  ap (λ t. x % 2 * t) (pow-add a b),
  ap (mirror b) (div-half a x),
  mul_assoc (x % 2) (2 ^ a) (2 ^ b),
  add-mul (x % 2 * 2 ^ a) (mirror a (x / 2)) (2 ^ b),
)

-- Only the low bits matter.
pub mirror-fields : (k q r : ℕ) → mirror k (q * 2 ^ k + r) ≡ mirror k r
unfolding mirror
mirror-fields zero q r = refl
mirror-fields (suc k) q r = omega (
  arith,
  double_shift q k,
  ap (mirror k) {x = (q * 2 ^ suc k + r) / 2} {y = q * 2 ^ k + r / 2}
      (omega (arith, double_shift q k)),
  mirror-fields k q (r / 2),
  ap (λ t. t * 2 ^ k) {x = (q * 2 ^ suc k + r) % 2} {y = r % 2} (omega (arith, double_shift q k)),
)

pub mirror-mod : (k x : ℕ) → mirror k (x % 2 ^ k) ≡ mirror k x
mirror-mod k x = sym (ap (mirror k) (split-fields k x).0 ∙ mirror-fields k (x / 2 ^ k) (x % 2 ^ k))

pub mirror-zero : (k : ℕ) → mirror k 0 ≡ 0
unfolding mirror
mirror-zero zero = refl
mirror-zero (suc k) = omega (arith, mirror-zero k)

pub mirror-shift : (k x : ℕ) → mirror k (x * 2 ^ k) ≡ 0
mirror-shift k x =
    ap (mirror k) {x = x * 2 ^ k} {y = x * 2 ^ k + 0} (omega arith)
    ∙ mirror-fields k x 0
    ∙ mirror-zero k

pub mirror_xor : (k x y : ℕ) → mirror k (bit_xor x y) ≡ bit_xor (mirror k x) (mirror k y)
unfolding mirror
mirror_xor zero x y = refl
mirror_xor (suc k) x y = omega (
  arith,
  bit_xor_fields k (x % 2) (y % 2) (mirror k (x / 2)) (mirror k (y / 2)) (mirror-lt k _)
      (mirror-lt k _),
  ap (mirror k) (bit_xor-half x y),
  mirror_xor k (x / 2) (y / 2),
  ap (λ t. t * 2 ^ k) {x = bit_xor x y % 2} {y = bit_xor (x % 2) (y % 2)}
      (omega (
        arith,
        bit_xor_digit x y,
        bit_xor_digit (x % 2) (y % 2),
        ap (λ t. bit_xor t (y % 2 / 2)) {x = x % 2 / 2} {y = 0} (omega arith),
        zero-bit_xor (y % 2 / 2),
      )),
)

-- The top bit first.
mirror_top : (k x : ℕ) → mirror (suc k) x ≡ mirror k x * 2 + x / 2 ^ k % 2
unfolding mirror
mirror_top k x =
    omega (arith, ap (λ t. mirror t x) {x = suc k} {y = k + 1} (omega arith), mirror-add k 1 x)

pub mirror-mirror : (k x : ℕ) → mirror k (mirror k x) ≡ x % 2 ^ k
unfolding mirror
mirror-mirror zero x = omega arith
mirror-mirror (suc k) x = omega (
  arith,
  mirror_top k (mirror (suc k) x),
  mirror-fields k (x % 2) (mirror k (x / 2)),
  mirror-mirror k (x / 2),
  div-fields k (x % 2) (mirror k (x / 2)) (mirror-lt k _),
  ap (λ t. t % 2) (div-fields k (x % 2) (mirror k (x / 2)) (mirror-lt k _)),
  mod-half k x,
)

-- A test of one bit.
pub bit_clear : (k a : ℕ) → a / 2 ^ k % 2 ≡ 0 → (bit_and a (2 ^ k) == 0) ≡ true
bit_clear k a h = ground (arith, bit_and-pow k a, ap (λ t. t * 2 ^ k) h)

pub bit_set : (k a : ℕ) → a / 2 ^ k % 2 ≡ 1 → (bit_and a (2 ^ k) == 0) ≡ false
bit_set k a h = ground (arith, bit_and-pow k a, ap (λ t. t * 2 ^ k) h, pow-positive k)

copy_bit :
    (k m a out : ℕ)
    → out < 2 ^ m
    → (if bit_and a (2 ^ k) == 0 then out else bit_or out (2 ^ m)) ≡ out + a / 2 ^ k % 2 * 2 ^ m
copy_bit k m a out low = elim (bit-cases (a / 2 ^ k % 2) (omega arith)) [
  | inl e ↦ rw (bit_clear k a e) (omega (arith, ap (λ t. t * 2 ^ m) e))
  | inr e ↦ rw (bit_set k a e, bit_or-pow m out low) (omega (arith, ap (λ t. t * 2 ^ m) e))
]

-- The rounds set the image of the low bits above what is there.
reflect_rounds_lem :
    (k m crc_in crc_out : ℕ)
    → k + m ≤ 64
    → crc_out < 2 ^ m
    → reflect_rounds k crc_in (u64 (2 ^ m)) crc_out ≡ crc_out + mirror k crc_in * 2 ^ m
unfolding reflect_rounds
reflect_rounds_lem zero m crc_in crc_out h low = omega (
  arith,
  mirror-lt 0 crc_in,
  ap (λ t. t * 2 ^ m) {x = mirror 0 crc_in} {y = 0} (omega (arith, mirror-lt 0 crc_in)),
)
reflect_rounds_lem (suc k) m crc_in crc_out h low =
    let bit = crc_in / 2 ^ k % 2 in
    let half = bit-mul-le bit (2 ^ m) (omega arith) in
    let j : u64 (2 ^ m) ≡ 2 ^ m =
      mod-eq_of_lt (omega (arith, pow-le (suc m) 64, pow-suc 2 m, pow-positive m)) in
    let next : u64 (u64 (2 ^ m) * 2) ≡ u64 (2 ^ suc m) = omega (arith, pow-suc 2 m) in
    rw (next, j, copy_bit k m crc_in crc_out low)
      (omega (
        arith,
        reflect_rounds_lem k (suc m) crc_in (crc_out + bit * 2 ^ m) (omega arith)
            (omega (arith, half, pow-suc 2 m)),
        ap (λ t. t * 2 ^ m) (mirror_top k crc_in),
        add-mul (mirror k crc_in * 2) bit (2 ^ m),
        double_shift (mirror k crc_in) m,
        mul_assoc (mirror k crc_in) 2 (2 ^ m),
        ap (λ (t : ℕ). mirror k crc_in * t) (pow-suc 2 m),
      ))

pub reflect_lem : (x k : ℕ) → k ≤ 64 → reflect x k ≡ mirror k x
unfolding reflect
reflect_lem x k h = omega (arith, reflect_rounds_lem k 0 x 0 (omega arith) (omega arith))
