-- ===== src/Base/Bits.antt =====
-- `&` and `|` of C with the operands that the CRC uses, as arithmetic.
use Prim.Native.Nat.{
  ℕ, zero, suc, ◌+◌, ◌-◌, ◌*◌, ◌/◌, ◌%◌, ◌^◌, ◌≤◌, ◌<◌, min, max, bit_and, bit_or, digits,
  bit_and-bitwise, bit_or-bitwise,
}
use mathlib.Core.Path.{◌≡◌, refl, sym, ap, ◌∙◌}
use native.Mathlib.Omega.{arith}
use native.Mathlib.Nat.{
  le_refl, pow-suc, one-le-pow, mul-add-div_right, mul-add-mod_self_right, div-eq_of_lt,
  mod-eq_of_lt, div-div-eq-div-mul,
}
pub use Prim.Native.Nat.{bit_and, bit_or}

-- The recursion on digits ends with its first operand: rounds beyond that change nothing.
pub digits-rounds :
    (z : ℕ → ℕ) (f : ℕ → ℕ → ℕ) (x y rounds more : ℕ)
    → x ≤ more
    → x ≤ rounds
    → digits z f rounds x y ≡ digits z f more x y
digits-rounds z f zero y zero zero low high = refl
digits-rounds z f zero y zero (suc more) low high = refl
digits-rounds z f zero y (suc rounds) zero low high = refl
digits-rounds z f zero y (suc rounds) (suc more) low high = refl
digits-rounds z f (suc x) y rounds zero low high = absurd (omega arith)
digits-rounds z f (suc x) y zero (suc more) low high = absurd (omega arith)
digits-rounds z f (suc x) y (suc rounds) (suc more) low high =
    rw (digits-rounds z f (suc x / 2) (y / 2) rounds more (omega arith) (omega arith))

-- A product with one more power of two.
pub double_shift : (q k : ℕ) → 2 * (q * 2 ^ k) ≡ q * 2 ^ suc k
double_shift q k = omega (arith, ap (λ (p : ℕ). p * q) (pow-suc 2 k), pow-suc 2 k)

-- Quotient and remainder by a power of two, from the fields.
pub div-fields : (k q r : ℕ) → r < 2 ^ k → (q * 2 ^ k + r) / 2 ^ k ≡ q
div-fields k q r h =
    omega (arith, mul-add-div_right (one-le-pow k 2 (omega arith)) q r, div-eq_of_lt h)

pub mod-fields : (k q r : ℕ) → r < 2 ^ k → (q * 2 ^ k + r) % 2 ^ k ≡ r
mod-fields k q r h = mul-add-mod_self_right q (2 ^ k) r ∙ mod-eq_of_lt h

pub split-fields : (k a : ℕ) → (a ≡ a / 2 ^ k * 2 ^ k + a % 2 ^ k) × (a % 2 ^ k < 2 ^ k)
split-fields k a = ground (arith, one-le-pow k 2)

pub div-half : (k a : ℕ) → a / 2 ^ suc k ≡ a / 2 / 2 ^ k
div-half k a =
    ap (λ t. a / t) {x = 2 ^ suc k} {y = 2 * 2 ^ k} (omega (arith, pow-suc 2 k))
    ∙ sym (div-div-eq-div-mul a 2 (2 ^ k))

pub mod-half : (k a : ℕ) → a % 2 ^ suc k ≡ 2 * (a / 2 % 2 ^ k) + a % 2
mod-half k a = omega (
  arith,
  split-fields (suc k) a,
  split-fields k (a / 2),
  div-half k a,
  ap (λ t. t * 2 ^ suc k) (div-half k a),
  double_shift (a / 2 / 2 ^ k) k,
)

bit_and_digit : (x y : ℕ) → bit_and x y ≡ min (x % 2) (y % 2) + 2 * bit_and (x / 2) (y / 2)
bit_and_digit zero y = omega (arith, bit_and-bitwise 0 (y / 2), bit_and-bitwise 0 y)
bit_and_digit (suc x) y =
    let half = bit_and-bitwise (suc x / 2) (y / 2) in
    let rounds =
      digits-rounds (λ y. 0) min (suc x / 2) (y / 2) x (suc x / 2) (le_refl _) (omega arith) in
    omega (arith, rounds, half, bit_and-bitwise (suc x) y)

bit_or_digit : (x y : ℕ) → bit_or x y ≡ max (x % 2) (y % 2) + 2 * bit_or (x / 2) (y / 2)
bit_or_digit zero y = omega (arith, bit_or-bitwise 0 (y / 2), bit_or-bitwise 0 y)
bit_or_digit (suc x) y =
    let half = bit_or-bitwise (suc x / 2) (y / 2) in
    let rounds =
      digits-rounds (λ y. y) max (suc x / 2) (y / 2) x (suc x / 2) (le_refl _) (omega arith) in
    omega (arith, rounds, half, bit_or-bitwise (suc x) y)

and-zero_fuel : (n a : ℕ) → a ≤ n → bit_and a 0 ≡ 0
and-zero_fuel zero zero h = refl
and-zero_fuel zero (suc a) h = absurd (omega arith)
and-zero_fuel (suc n) a h = omega (arith, bit_and_digit a 0, and-zero_fuel n (a / 2) (omega arith))

bit_and-zero : (a : ℕ) → bit_and a 0 ≡ 0
bit_and-zero a = and-zero_fuel a a (le_refl _)

-- A mask with one bit tests that bit.
pub bit_and-pow : (k a : ℕ) → bit_and a (2 ^ k) ≡ a / 2 ^ k % 2 * 2 ^ k
bit_and-pow zero a = omega (arith, bit_and_digit a 1, bit_and-zero (a / 2))
bit_and-pow (suc k) a = omega (
  arith,
  bit_and_digit a (2 ^ suc k),
  pow-suc 2 k,
  ap (bit_and (a / 2)) {x = 2 ^ suc k / 2} {y = 2 ^ k} (omega (arith, pow-suc 2 k)),
  bit_and-pow k (a / 2),
  ap (λ t. t % 2 * 2 ^ suc k) (div-half k a),
  double_shift (a / 2 / 2 ^ k % 2) k,
)

-- A mask of `k` low ones is the remainder.
pub bit_and_mask : (k a : ℕ) → bit_and a (2 ^ k - 1) ≡ a % 2 ^ k
bit_and_mask zero a = omega (arith, bit_and-zero a)
bit_and_mask (suc k) a = omega (
  arith,
  bit_and_digit a (2 ^ suc k - 1),
  pow-suc 2 k,
  one-le-pow k 2,
  ap (bit_and (a / 2)) {x = (2 ^ suc k - 1) / 2} {y = 2 ^ k - 1}
      (omega (arith, pow-suc 2 k, one-le-pow k 2)),
  bit_and_mask k (a / 2),
  mod-half k a,
)

-- A bit above all bits of a number is added.
pub bit_or-pow : (k a : ℕ) → a < 2 ^ k → bit_or a (2 ^ k) ≡ a + 2 ^ k
bit_or-pow zero zero h = refl
bit_or-pow zero (suc a) h = absurd (omega arith)
bit_or-pow (suc k) a h = omega (
  arith,
  bit_or_digit a (2 ^ suc k),
  pow-suc 2 k,
  ap (bit_or (a / 2)) {x = 2 ^ suc k / 2} {y = 2 ^ k} (omega (arith, pow-suc 2 k)),
  bit_or-pow k (a / 2) (omega (arith, pow-suc 2 k)),
)
