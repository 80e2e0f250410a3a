-- ===== src/Base/Xor.antt =====
-- Laws of `^` on machine words: the native `bit_xor` at variables, by its lowest digit.
use librasta.Base.Bits.{digits-rounds, double_shift, split-fields, div-fields, mod-fields}
use Prim.Native.Nat.{
  ℕ, zero, suc, ◌+◌, ◌*◌, ◌/◌, ◌%◌, ◌^◌, ◌≤◌, ◌<◌, bit_xor, differ, bit_xor-bitwise,
}
use mathlib.Core.Path.{◌≡◌, refl, sym, ap, ◌∙◌}
use native.Mathlib.Omega.{arith}
use native.Mathlib.Nat.{le_refl, pow-suc, one-le-pow}
pub use Prim.Native.Nat.{bit_xor}

differ-bits : (x y : ℕ) → x < 2 → y < 2 → differ x y ≡ (x + y) % 2
differ-bits zero y p q = omega arith
differ-bits (suc zero) zero p q = refl
differ-bits (suc zero) (suc zero) p q = refl
differ-bits (suc zero) (suc (suc y)) p q = absurd (omega arith)
differ-bits (suc (suc x)) y p q = absurd (omega arith)

pub zero-bit_xor : (b : ℕ) → bit_xor 0 b ≡ b
zero-bit_xor b = bit_xor-bitwise 0 b

-- The lowest digit, and the others.
pub bit_xor_digit : (x y : ℕ) → bit_xor x y ≡ (x + y) % 2 + 2 * bit_xor (x / 2) (y / 2)
bit_xor_digit zero y = omega (arith, zero-bit_xor (y / 2), zero-bit_xor y)
bit_xor_digit (suc x) y =
    let half = bit_xor-bitwise (suc x / 2) (y / 2) in
    let rounds =
      digits-rounds (λ y. y) differ (suc x / 2) (y / 2) x (suc x / 2) (le_refl _) (omega arith) in
    let parity = differ-bits (suc x % 2) (y % 2) (omega arith) (omega arith) in
    omega (arith, rounds, parity, half, bit_xor-bitwise (suc x) y)

pub bit_xor-half : (a b : ℕ) → bit_xor a b / 2 ≡ bit_xor (a / 2) (b / 2)
bit_xor-half a b = omega (arith, bit_xor_digit a b)

pub bit_xor-parity : (a b : ℕ) → bit_xor a b % 2 ≡ (a + b) % 2
bit_xor-parity a b = omega (arith, bit_xor_digit a b)

-- Induction from half a number to the number, on a bound.
comm_fuel : (n a b : ℕ) → a ≤ n → b ≤ n → bit_xor a b ≡ bit_xor b a
comm_fuel zero zero zero p q = refl
comm_fuel zero zero (suc b) p q = absurd (omega arith)
comm_fuel zero (suc a) b p q = absurd (omega arith)
comm_fuel (suc n) a b p q = omega (
  arith,
  bit_xor_digit a b,
  bit_xor_digit b a,
  comm_fuel n (a / 2) (b / 2) (omega arith) (omega arith),
)

pub bit_xor_comm : (a b : ℕ) → bit_xor a b ≡ bit_xor b a
bit_xor_comm a b = comm_fuel (a + b) a b (omega arith) (omega arith)

pub bit_xor-zero : (a : ℕ) → bit_xor a 0 ≡ a
bit_xor-zero a = bit_xor_comm a 0 ∙ zero-bit_xor a

assoc_fuel :
    (n a b c : ℕ) → a ≤ n → b ≤ n → c ≤ n → bit_xor (bit_xor a b) c ≡ bit_xor a (bit_xor b c)
assoc_fuel zero zero b c p q r = rw (zero-bit_xor b, zero-bit_xor (bit_xor b c))
assoc_fuel zero (suc a) b c p q r = absurd (omega arith)
assoc_fuel (suc n) a b c p q r = omega (
  arith,
  bit_xor_digit (bit_xor a b) c,
  bit_xor_digit a (bit_xor b c),
  bit_xor_digit a b,
  bit_xor_digit b c,
  ap (λ x. bit_xor x (c / 2)) (bit_xor-half a b),
  ap (bit_xor (a / 2)) (bit_xor-half b c),
  assoc_fuel n (a / 2) (b / 2) (c / 2) (omega arith) (omega arith) (omega arith),
)

pub bit_xor_assoc : (a b c : ℕ) → bit_xor (bit_xor a b) c ≡ bit_xor a (bit_xor b c)
bit_xor_assoc a b c = assoc_fuel (a + b + c) a b c (omega arith) (omega arith) (omega arith)

self_fuel : (n a : ℕ) → a ≤ n → bit_xor a a ≡ 0
self_fuel zero zero p = refl
self_fuel zero (suc a) p = absurd (omega arith)
self_fuel (suc n) a p = omega (arith, bit_xor_digit a a, self_fuel n (a / 2) (omega arith))

pub bit_xor_self : (a : ℕ) → bit_xor a a ≡ 0
bit_xor_self a = self_fuel a a (le_refl _)

-- `(a ^ b) ^ (c ^ d)` with the middle two exchanged.
pub bit_xor-swap :
    (a b c d : ℕ) → bit_xor (bit_xor a b) (bit_xor c d) ≡ bit_xor (bit_xor a c) (bit_xor b d)
bit_xor-swap a b c d =
    bit_xor_assoc a b (bit_xor c d)
    ∙ ap (bit_xor a)
        (sym (bit_xor_assoc b c d) ∙ ap (λ x. bit_xor x d) (bit_xor_comm b c) ∙ bit_xor_assoc c b d)
    ∙ sym (bit_xor_assoc a c (bit_xor b d))

-- Fields of `k` low bits do not meet the bits above them.
fields :
    (k a b x y : ℕ)
    → x < 2 ^ k
    → y < 2 ^ k
    → (bit_xor (a * 2 ^ k + x) (b * 2 ^ k + y) ≡ bit_xor a b * 2 ^ k + bit_xor x y)
      × (bit_xor x y < 2 ^ k)
fields zero a b zero zero p q = (
  omega (
    arith,
    ap (λ t. bit_xor t (b * 1 + 0)) {x = a * 1 + 0} {y = a} (omega arith),
    ap (bit_xor a) {x = b * 1 + 0} {y = b} (omega arith),
  ),
  omega arith,
)
fields zero a b zero (suc y) p q = absurd (omega arith)
fields zero a b (suc x) y p q = absurd (omega arith)
fields (suc k) a b x y p q =
    let ih =
      fields k a b (x / 2) (y / 2) (omega (arith, pow-suc 2 k)) (omega (arith, pow-suc 2 k)) in
    let m = double_shift in
    (
      omega (
        arith,
        bit_xor_digit (a * 2 ^ suc k + x) (b * 2 ^ suc k + y),
        ap (λ t. bit_xor t ((b * 2 ^ suc k + y) / 2)) {x = (a * 2 ^ suc k + x) / 2}
            {y = a * 2 ^ k + x / 2} (omega (arith, m a k)),
        ap (bit_xor (a * 2 ^ k + x / 2)) {x = (b * 2 ^ suc k + y) / 2} {y = b * 2 ^ k + y / 2}
            (omega (arith, m b k)),
        bit_xor_digit x y,
        m a k,
        m b k,
        m (bit_xor a b) k,
        ih.0,
      ),
      omega (arith, bit_xor_digit x y, ih.1, pow-suc 2 k),
    )

pub bit_xor_bounded : (k a b : ℕ) → a < 2 ^ k → b < 2 ^ k → bit_xor a b < 2 ^ k
bit_xor_bounded k a b p q = (fields k 0 0 a b p q).1

pub bit_xor_fields :
    (k a b x y : ℕ)
    → x < 2 ^ k
    → y < 2 ^ k
    → bit_xor (a * 2 ^ k + x) (b * 2 ^ k + y) ≡ bit_xor a b * 2 ^ k + bit_xor x y
bit_xor_fields k a b x y p q = (fields k a b x y p q).0

pub bit_xor-shift : (k a b : ℕ) → bit_xor (a * 2 ^ k) (b * 2 ^ k) ≡ bit_xor a b * 2 ^ k
bit_xor-shift k a b =
    let positive = one-le-pow k 2 in
    omega (
      arith,
      bit_xor_fields k a b 0 0 (omega (arith, positive)) (omega (arith, positive)),
      ap (λ t. bit_xor t (b * 2 ^ k + 0)) {x = a * 2 ^ k + 0} {y = a * 2 ^ k} (omega arith),
      ap (bit_xor (a * 2 ^ k)) {x = b * 2 ^ k + 0} {y = b * 2 ^ k} (omega arith),
    )

split_xor :
    (k a b : ℕ)
    → bit_xor a b ≡ bit_xor (a / 2 ^ k) (b / 2 ^ k) * 2 ^ k + bit_xor (a % 2 ^ k) (b % 2 ^ k)
split_xor k a b =
    ap (λ x. bit_xor x b) (split-fields k a).0
    ∙ ap (bit_xor (a / 2 ^ k * 2 ^ k + a % 2 ^ k)) (split-fields k b).0
    ∙ bit_xor_fields k (a / 2 ^ k) (b / 2 ^ k) (a % 2 ^ k) (b % 2 ^ k) (split-fields k a).1
        (split-fields k b).1

low_bounded : (k a b : ℕ) → bit_xor (a % 2 ^ k) (b % 2 ^ k) < 2 ^ k
low_bounded k a b = bit_xor_bounded k _ _ (split-fields k a).1 (split-fields k b).1

pub bit_xor-mod : (k a b : ℕ) → bit_xor a b % 2 ^ k ≡ bit_xor (a % 2 ^ k) (b % 2 ^ k)
bit_xor-mod k a b = ap (λ x. x % 2 ^ k) (split_xor k a b) ∙ mod-fields k _ _ (low_bounded k a b)

pub bit_xor-div : (k a b : ℕ) → bit_xor a b / 2 ^ k ≡ bit_xor (a / 2 ^ k) (b / 2 ^ k)
bit_xor-div k a b = ap (λ x. x / 2 ^ k) (split_xor k a b) ∙ div-fields k _ _ (low_bounded k a b)
