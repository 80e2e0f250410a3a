-- ===== src/Crc/Register.antt =====
-- The register of a CRC of `suc v` bits, which moves by one bit: the code's shift and the
-- reference's clock are the same linear map.
use librasta.Base.{
  ℕ, zero, suc, ◌+◌, ◌-◌, ◌*◌, ◌/◌, ◌%◌, ◌^◌, ◌≤◌, ◌<◌, ◌≡◌, refl, sym, ap, ◌∙◌, arith, inl, inr,
  bit_xor, List, ◌∷◌, ◌++◌, bit_xor-parity, bit_xor-div, bit_xor-mod, bit_xor-swap, bit_xor_self,
  bit_xor-zero, zero-bit_xor, bit_xor_bounded, bit_xor-shift, bit_xor_assoc, bit_xor_fields,
  mod-fields, div-fields, split-fields, double_shift,
}
use native.Mathlib.Nat.{
  pow-suc, mul_assoc, add-mul, mod-eq_of_lt, div-eq_of_lt, zero-mul, one-mul, mul-add-div_right,
}
use librasta.Crc.Reference.{clock, divide, bits_down, bits_up, mirror}
use librasta.Crc.Fields.{pow-add, bit-mul-le, bit-cases, pow-positive, pow-le, scaled-lt}
use librasta.Crc.Reflect.{mirror-lt}

-- What a one that leaves the register adds.
unfoldable pub advance : ℕ → ℕ → ℕ → ℕ
advance v p s = bit_xor (s * 2 % 2 ^ suc v) (s / 2 ^ v % 2 * p)

unfoldable pub advances : ℕ → ℕ → ℕ → ℕ → ℕ
advances zero v p s = s
advances (suc n) v p s = advances n v p (advance v p s)

-- A bit of a sum times the polynomial.
bit_xor_scaled : (x y p : ℕ) → (x + y) % 2 * p ≡ bit_xor (x % 2 * p) (y % 2 * p)
bit_xor_scaled x y p = elim (bit-cases (x % 2) (omega arith)) [
  | inl e ↦ rw (e, zero-mul p, zero-bit_xor (y % 2 * p)) (ap (λ t. t * p) (omega arith))
  | inr e ↦ elim (bit-cases (y % 2) (omega arith)) [
    | inl d ↦ rw (e, d, zero-mul p, bit_xor-zero (1 * p)) (ap (λ t. t * p) (omega arith))
    | inr d ↦
        rw (e, d, bit_xor_self (1 * p))
          (ap (λ t. t * p) {x = (x + y) % 2} {y = 0} (omega arith) ∙ zero-mul p)
  ]
]

double_xor : (a b : ℕ) → bit_xor a b * 2 ≡ bit_xor (a * 2) (b * 2)
double_xor a b = sym (bit_xor-shift 1 a b)

pub advance_xor :
    (v p a b : ℕ) → advance v p (bit_xor a b) ≡ bit_xor (advance v p a) (advance v p b)
unfolding advance
advance_xor v p a b =
    rw
      (
        double_xor a b,
        bit_xor-mod (suc v) (a * 2) (b * 2),
        bit_xor-div v a b,
        bit_xor-parity (a / 2 ^ v) (b / 2 ^ v),
        bit_xor_scaled (a / 2 ^ v) (b / 2 ^ v) p,
      )
      (bit_xor-swap (a * 2 % 2 ^ suc v) (b * 2 % 2 ^ suc v) (a / 2 ^ v % 2 * p) (b / 2 ^ v % 2 * p))

pub advances_xor :
    (n v p a b : ℕ) → advances n v p (bit_xor a b) ≡ bit_xor (advances n v p a) (advances n v p b)
unfolding advances
advances_xor zero v p a b = refl
advances_xor (suc n) v p a b =
    ap (advances n v p) (advance_xor v p a b) ∙ advances_xor n v p (advance v p a) (advance v p b)

pub advance-lt : (v p s : ℕ) → p < 2 ^ suc v → advance v p s < 2 ^ suc v
unfolding advance
advance-lt v p s h =
    bit_xor_bounded (suc v) _ _ (split-fields (suc v) (s * 2)).1
      (omega (arith, h, bit-mul-le (s / 2 ^ v % 2) p (omega arith)))

pub advances-lt : (n v p s : ℕ) → p < 2 ^ suc v → s < 2 ^ suc v → advances n v p s < 2 ^ suc v
unfolding advances
advances-lt zero v p s h l = l
advances-lt (suc n) v p s h l = advances-lt n v p (advance v p s) h (advance-lt v p s h)

-- A number below the top bit is doubled.
pub advance_low : (v p s : ℕ) → s < 2 ^ v → advance v p s ≡ s * 2
unfolding advance
advance_low v p s h =
    rw
      (
        mod-eq_of_lt {n = s * 2} {m = 2 ^ suc v} (omega (arith, pow-suc 2 v)),
        div-eq_of_lt h,
        zero-mul p,
      )
      (bit_xor-zero (s * 2))

mul-swap-two : (s n : ℕ) → s * 2 * 2 ^ n ≡ s * 2 ^ suc n
mul-swap-two s n = mul_assoc s 2 (2 ^ n) ∙ ap (λ (t : ℕ). s * t) (omega (arith, pow-suc 2 n))

-- Bits that do not reach the top are shifted.
pub advances_low : (n m v p s : ℕ) → s < 2 ^ m → m + n ≤ suc v → advances n v p s ≡ s * 2 ^ n
unfolding advances
advances_low zero m v p s l h = omega arith
advances_low (suc n) m v p s l h = rw (advance_low v p s (omega (arith, pow-le m v))) (
    advances_low n (suc m) v p (s * 2) (omega (arith, pow-suc 2 m)) (omega arith)
    ∙ mul-swap-two s n)

-- A one on the top of the register.
abbrev pub meets : ℕ → ℕ → ℕ → ℕ
meets v s m = bit_xor s (m * 2 ^ v)

meets_low : (v s m : ℕ) → meets v s m * 2 % 2 ^ suc v ≡ s * 2 % 2 ^ suc v
meets_low v s m =
    rw (double_xor s (m * 2 ^ v), bit_xor-mod (suc v) (s * 2) (m * 2 ^ v * 2))
      (ap (bit_xor (s * 2 % 2 ^ suc v)) {x = m * 2 ^ v * 2 % 2 ^ suc v} {y = 0} (
          ap (λ t. t % 2 ^ suc v) {x = m * 2 ^ v * 2} {y = m * 2 ^ suc v + 0}
            (omega (arith, double_shift m v))
          ∙ mod-fields (suc v) m 0 (pow-positive (suc v)))
        ∙ bit_xor-zero (s * 2 % 2 ^ suc v))

meets_top : (v s m : ℕ) → meets v s m / 2 ^ v % 2 ≡ (s / 2 ^ v + m) % 2
meets_top v s m =
    ap (λ t. t % 2)
      (bit_xor-div v s (m * 2 ^ v)
        ∙ ap (bit_xor (s / 2 ^ v)) {x = m * 2 ^ v / 2 ^ v} {y = m} (
            ap (λ t. t / 2 ^ v) {x = m * 2 ^ v} {y = m * 2 ^ v + 0} (omega arith)
            ∙ div-fields v m 0 (pow-positive v)))
    ∙ bit_xor-parity (s / 2 ^ v) m

-- The reference's clock puts its message bit on the top of the register.
pub clock_lem : (v p s m : ℕ) → clock (suc v) p s m ≡ advance v p (meets v s m)
unfolding clock advance
clock_lem v p s m =
    rw (meets_low v s m, meets_top v s m, ap (λ t. s / 2 ^ t) {x = suc v - 1} {y = v} (omega arith))
      (elim (bit-cases ((s / 2 ^ v + m) % 2) (omega arith)) [
        | inl e ↦ rw (e, zero-mul p) (sym (bit_xor-zero (s * 2 % 2 ^ suc v)))
        | inr e ↦ rw (e, one-mul p) refl
      ])

mod-top : (k x : ℕ) → x % 2 ^ suc k ≡ x / 2 ^ k % 2 * 2 ^ k + x % 2 ^ k
mod-top k x =
    let q = x / 2 ^ k / 2 in
    let t = x / 2 ^ k % 2 in
    ap (λ y. y % 2 ^ suc k) {x = x} {y = q * 2 ^ suc k + (t * 2 ^ k + x % 2 ^ k)}
      (omega (
        arith,
        split-fields k x,
        ap (λ y. y * 2 ^ k) {x = x / 2 ^ k} {y = q * 2 + t} (omega arith),
        add-mul (q * 2) t (2 ^ k),
        mul_assoc q 2 (2 ^ k),
        mul-swap-two q k,
      ))
    ∙ mod-fields (suc k) q (t * 2 ^ k + x % 2 ^ k)
        (omega (arith, pow-suc 2 k, split-fields k x, bit-mul-le t (2 ^ k) (omega arith)))

join_bits : (v t x : ℕ) → x < 2 ^ v → t * 2 ^ v + x ≡ bit_xor (t * 2 ^ v) x
join_bits v t x h = sym (
    ap (λ y. bit_xor y x) {x = t * 2 ^ v} {y = t * 2 ^ v + 0} (omega arith)
    ∙ ap (bit_xor (t * 2 ^ v + 0)) {x = x} {y = 0 * 2 ^ v + x} (omega arith)
    ∙ bit_xor_fields v t 0 0 x (pow-positive v) h
    ∙ omega (arith, bit_xor-zero t, zero-bit_xor x, ap (λ y. y * 2 ^ v) (bit_xor-zero t)))

-- The reference takes `k` bits as the code does: the number is added at the top of the register,
-- which then moves by `k` bits.
pub divide-bits_down :
    (k u v p s x : ℕ) (rest : List ℕ)
    → u + k ≡ suc v
    → divide (suc v) p s (bits_down k x ++ rest)
      ≡ divide (suc v) p (advances k v p (bit_xor s (x % 2 ^ k * 2 ^ u))) rest
unfolding divide bits_down advances
divide-bits_down zero u v p s x rest e =
    ap (λ t. divide (suc v) p t rest)
      (sym (
        ap (bit_xor s) {x = x % 1 * 2 ^ u} {y = 0}
          (ap (λ t. t * 2 ^ u) {x = x % 1} {y = 0} (omega arith) ∙ zero-mul (2 ^ u))
        ∙ bit_xor-zero s))
divide-bits_down (suc k) u v p s x rest e =
    let t = x / 2 ^ k % 2 in
    let lo = x % 2 ^ k in
    let low = scaled-lt u k v lo (split-fields k x).1 (omega arith) in
    let top : x % 2 ^ suc k * 2 ^ u ≡ bit_xor (t * 2 ^ v) (lo * 2 ^ u) =
      ap (λ y. y * 2 ^ u) (mod-top k x)
      ∙ add-mul (t * 2 ^ k) lo (2 ^ u)
      ∙ omega (
        arith,
        mul_assoc t (2 ^ k) (2 ^ u),
        ap (λ y. t * y) {x = 2 ^ k * 2 ^ u} {y = 2 ^ v}
            (sym (pow-add k u) ∙ ap (λ y. 2 ^ y) (omega arith)),
      )
      ∙ join_bits v t (lo * 2 ^ u) low in
    let moved : advance v p (bit_xor s (x % 2 ^ suc k * 2 ^ u))
        ≡ bit_xor (clock (suc v) p s t) (lo * 2 ^ suc u) =
      ap (λ y. advance v p (bit_xor s y)) top
      ∙ ap (advance v p) (sym (bit_xor_assoc s (t * 2 ^ v) (lo * 2 ^ u)))
      ∙ advance_xor v p (meets v s t) (lo * 2 ^ u)
      ∙ ap (λ y. bit_xor y (advance v p (lo * 2 ^ u))) (sym (clock_lem v p s t))
      ∙ ap (bit_xor (clock (suc v) p s t))
          (advance_low v p (lo * 2 ^ u) low ∙ omega (arith, double_shift lo u)) in
    divide-bits_down k (suc u) v p (clock (suc v) p s t) x rest (omega arith)
    ∙ ap (λ y. divide (suc v) p (advances k v p y) rest) (sym moved)

-- The table's step: the byte that leaves the register is looked up, the others are shifted.
pub byte_step :
    (d v p s b : ℕ)
    → d + 8 ≡ suc v
    → advances 8 v p (bit_xor s (b * 2 ^ d))
      ≡ bit_xor (advances 8 v p (bit_xor (s / 2 ^ d) b * 2 ^ d)) (s % 2 ^ d * 2 ^ 8)
byte_step d v p s b e =
    let split = split-fields d s in
    ap (advances 8 v p) (
      ap (λ t. bit_xor t (b * 2 ^ d)) split.0
      ∙ ap (bit_xor (s / 2 ^ d * 2 ^ d + s % 2 ^ d)) {x = b * 2 ^ d} {y = b * 2 ^ d + 0}
          (omega arith)
      ∙ bit_xor_fields d (s / 2 ^ d) b (s % 2 ^ d) 0 split.1 (pow-positive d)
      ∙ ap (λ t. bit_xor (s / 2 ^ d) b * 2 ^ d + t) (bit_xor-zero (s % 2 ^ d))
      ∙ join_bits d (bit_xor (s / 2 ^ d) b) (s % 2 ^ d) split.1)
    ∙ advances_xor 8 v p (bit_xor (s / 2 ^ d) b * 2 ^ d) (s % 2 ^ d)
    ∙ ap (bit_xor (advances 8 v p (bit_xor (s / 2 ^ d) b * 2 ^ d)))
        (advances_low 8 d v p (s % 2 ^ d) split.1 (omega arith))

-- The bits of a byte from the lowest on are those of its image from the highest on.
bits_down-fields : (k d q r : ℕ) → bits_down k (q * 2 ^ (d + k) + r) ≡ bits_down k r
unfolding bits_down
bits_down-fields zero d q r = refl
bits_down-fields (suc k) d q r =
    let up = ap (λ t. 2 ^ t) {x = d + suc k} {y = suc d + k} (omega arith) in
    let shape : q * 2 ^ (d + suc k) + r ≡ (q * 2 ^ d * 2) * 2 ^ k + r = omega (
      arith,
      ap (λ (t : ℕ). q * t) up,
      ap (λ (t : ℕ). q * t) (pow-add (suc d) k),
      mul_assoc q (2 ^ suc d) (2 ^ k),
      ap (λ t. t * 2 ^ k) (double_shift q d),
      ap (λ t. t * 2 ^ k) {x = q * 2 ^ d * 2} {y = 2 * (q * 2 ^ d)} (omega arith),
    ) in
    ap (λ t. t ∷ bits_down k (q * 2 ^ (d + suc k) + r)) {x = (q * 2 ^ (d + suc k) + r) / 2 ^ k % 2}
      {y = r / 2 ^ k % 2}
      (omega (
        arith,
        ap (λ t. t / 2 ^ k) shape,
        mul-add-div_right {m = 2 ^ k} (pow-positive k) (q * 2 ^ d * 2) r,
      ))
    ∙ ap (λ t. r / 2 ^ k % 2 ∷ t)
        (ap (λ t. bits_down k (q * t + r)) up ∙ bits_down-fields k (suc d) q r)

pub bits_up_lem : (k x : ℕ) → bits_up k x ≡ bits_down k (mirror k x)
unfolding bits_up bits_down mirror
bits_up_lem zero x = refl
bits_up_lem (suc k) x =
    ap (λ t. t ∷ bits_up k (x / 2)) {x = x % 2} {y = mirror (suc k) x / 2 ^ k % 2}
      (omega (arith, div-fields k (x % 2) (mirror k (x / 2)) (mirror-lt k _)))
    ∙ ap (λ t. mirror (suc k) x / 2 ^ k % 2 ∷ t)
        (bits_up_lem k (x / 2)
          ∙ sym (
              ap (λ t. bits_down k (x % 2 * 2 ^ t + mirror k (x / 2))) {x = k} {y = 0 + k}
                (omega arith)
              ∙ bits_down-fields k 0 (x % 2) (mirror k (x / 2))))
