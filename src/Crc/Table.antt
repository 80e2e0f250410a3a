-- ===== src/Crc/Table.antt =====
-- What `crc_generate_table` of src/c/util/rastacrc.c leaves in the table.
use librasta.Base.{
  ℕ, zero, suc, ◌+◌, ◌-◌, ◌*◌, ◌/◌, ◌%◌, ◌^◌, ◌≤◌, ◌<◌, ◌≡◌, true, false, refl, sym, ap, ◌∙◌, arith,
  inl, inr, List, [], ◌∷◌, length, get_or, set, length-set, u64, Bool, bit_and, bit_xor,
  bit_xor-mod, bit_xor-zero, split-fields, bit_and_mask, Bool-cases, ltb,
}
use native.Mathlib.Nat.{
  pow-suc, zero-mul, one-mul, mul_assoc, mod-eq_of_lt, mul-add-div_right, mul-add-mod_self_right,
}
use librasta.Crc.{
  reflect_if, CrcOptions, shift_bit, shift_bits, table_entry, fill_table, crc_generate_table,
  reflect,
}
use librasta.Crc.Reference.{mirror}
use librasta.Crc.Fields.{bit-cases, pow-positive, scaled-lt, mod-mod-pow}
use librasta.Crc.Reflect.{bit_clear, bit_set, reflect_lem, mirror-lt, mirror-mod}
use librasta.Crc.Register.{advance, advances}

-- What `crc_init_opt_b` to `crc_init_opt_e` set up, for any polynomial.
pub record IsWellFormed (o : CrcOptions) : Type 0 where
  pub byte_wide : 8 ≤ o.width
  pub word_wide : o.width ≤ 64
  pub polynom_fits : o.polynom < 2 ^ o.width
  pub initial_fits : o.initial_optimized < 2 ^ o.width
  pub final_fits : o.final_xor < 2 ^ o.width
  pub mask_lem : o.crc_mask ≡ 2 ^ o.width - 1
  pub high_bit_lem : o.crc_high_bit ≡ 2 ^ (o.width - 1)
  pub room : length o.table ≡ 256

pub advance_mod : (v p s : ℕ) → advance v p (s % 2 ^ suc v) ≡ advance v p s
unfolding advance
advance_mod v p s =
    let q = s / 2 ^ suc v in
    let r = s % 2 ^ suc v in
    let split = (split-fields (suc v) s).0 in
    let halves : q * 2 ^ suc v ≡ q * 2 * 2 ^ v = omega (
      arith,
      mul_assoc q 2 (2 ^ v),
      ap (λ (t : ℕ). q * t) (pow-suc 2 v),
      ap (λ (t : ℕ). q * t) {x = 2 ^ v * 2} {y = 2 * 2 ^ v} (omega arith),
    ) in
    sym (
      ap (λ t. bit_xor t (s / 2 ^ v % 2 * p))
        (ap (λ t. t % 2 ^ suc v) {x = s * 2} {y = q * 2 * 2 ^ suc v + r * 2}
            (omega (
              arith,
              split,
              mul_assoc q 2 (2 ^ suc v),
              ap (λ (t : ℕ). q * t) {x = 2 * 2 ^ suc v} {y = 2 ^ suc v * 2} (omega arith),
              mul_assoc q (2 ^ suc v) 2,
            ))
          ∙ mul-add-mod_self_right (q * 2) (2 ^ suc v) (r * 2))
      ∙ ap (λ t. bit_xor (r * 2 % 2 ^ suc v) (t * p)) {x = s / 2 ^ v % 2} {y = r / 2 ^ v % 2}
          (omega (
            arith,
            ap (λ t. t / 2 ^ v) {x = s} {y = q * 2 * 2 ^ v + r} (omega (arith, split, halves)),
            mul-add-div_right {m = 2 ^ v} (pow-positive v) (q * 2) r,
          )))

module _ (o : CrcOptions) (valid : IsWellFormed o) (v d : ℕ) (w : o.width ≡ suc v)
    (e : d + 8 ≡ suc v) where
  fits : o.polynom < 2 ^ suc v
  fits = omega (arith, valid.polynom_fits, ap (λ t. 2 ^ t) w)

  high : o.crc_high_bit ≡ 2 ^ v
  high = valid.high_bit_lem ∙ ap (λ t. 2 ^ t) (omega (arith, w))

  pub mask : (x : ℕ) → bit_and x o.crc_mask ≡ x % 2 ^ suc v
  mask x = ap (bit_and x) (valid.mask_lem ∙ ap (λ t. 2 ^ t - 1) w) ∙ bit_and_mask (suc v) x

  pub low64 : (x : ℕ) → u64 x % 2 ^ suc v ≡ x % 2 ^ suc v
  low64 x = mod-mod-pow (suc v) x (omega (arith, w, valid.word_wide))

  shift_bit_lem : (crc : ℕ) → shift_bit o crc % 2 ^ suc v ≡ advance v o.polynom crc
  unfolding shift_bit advance
  shift_bit_lem crc = rw high (elim (bit-cases (crc / 2 ^ v % 2) (omega arith)) [
    | inl z ↦
        rw (bit_clear v crc z, z, zero-mul o.polynom, bit_xor-zero (crc * 2 % 2 ^ suc v))
          (low64 (crc * 2))
    | inr z ↦
        rw
          (
            bit_set v crc z,
            z,
            one-mul o.polynom,
            bit_xor-mod (suc v) (u64 (crc * 2)) o.polynom,
            low64 (crc * 2),
            mod-eq_of_lt fits,
          )
          refl
  ])

  shift_bits_lem :
      (n crc : ℕ) → shift_bits n o crc % 2 ^ suc v ≡ advances n v o.polynom (crc % 2 ^ suc v)
  unfolding shift_bits advances
  shift_bits_lem zero crc = refl
  shift_bits_lem (suc n) crc =
      shift_bits_lem n (shift_bit o crc)
      ∙ ap (advances n v o.polynom) (shift_bit_lem crc ∙ sym (advance_mod v o.polynom crc))

  -- The entry before the last reflection, for a byte that is already reflected.
  abbrev pub entry : ℕ → ℕ
  entry i = advances 8 v o.polynom (i * 2 ^ d)

  shifted : (i : ℕ) → i < 2 ^ 8 → shift_bits 8 o (u64 (i * 2 ^ (o.width - 8))) % 2 ^ suc v ≡ entry i
  shifted i h =
      shift_bits_lem 8 _
      ∙ ap (advances 8 v o.polynom) (
          low64 (i * 2 ^ (o.width - 8))
          ∙ ap (λ t. i * 2 ^ t % 2 ^ suc v) {x = o.width - 8} {y = d} (omega (arith, w))
          ∙ mod-eq_of_lt (scaled-lt d 8 (suc v) i h e))

  abbrev value_with : ℕ → Bool → ℕ
  value_with i refin =
      let crc = shift_bits 8 o (u64 (reflect_if refin i 8 * 2 ^ (o.width - 8))) in
      bit_and (reflect_if refin crc o.width) o.crc_mask

  pub table_entry-plain : (i : ℕ) → i < 256 → o.refin ≡ false → table_entry o i ≡ entry i
  unfolding table_entry
  table_entry-plain i h f = ap (value_with i) f ∙ mask _ ∙ shifted i h

  pub table_entry-reflected :
      (i : ℕ) → i < 256 → o.refin ≡ true → table_entry o i ≡ mirror (suc v) (entry (mirror 8 i))
  unfolding table_entry
  table_entry-reflected i h f =
      let crc = shift_bits 8 o (u64 (reflect i 8 * 2 ^ (o.width - 8))) in
      ap (value_with i) f
      ∙ mask (reflect crc o.width)
      ∙ (ap (λ t. t % 2 ^ suc v) (reflect_lem crc o.width valid.word_wide)
          ∙ ap (λ t. mirror t crc % 2 ^ suc v) w
          ∙ mod-eq_of_lt (mirror-lt (suc v) crc)
          ∙ sym (mirror-mod (suc v) crc)
          ∙ ap (λ t. mirror (suc v) (shift_bits 8 o (u64 (t * 2 ^ (o.width - 8))) % 2 ^ suc v))
              (reflect_lem i 8 (omega arith))
          ∙ ap (mirror (suc v)) (shifted (mirror 8 i) (mirror-lt 8 i)))

module _ {ℓ} {A : Type ℓ} where
  get_or-set_self : (xs : List A) (i : ℕ) (v d : A) → i < length xs → get_or (set xs i v) i d ≡ v
  get_or-set_self [] i v d h = absurd (omega arith)
  get_or-set_self (x ∷ xs) zero v d h = refl
  get_or-set_self (x ∷ xs) (suc i) v d h = get_or-set_self xs i v d (omega arith)

  get_or-set_lt :
      (xs : List A) (i k : ℕ) (v d : A) → k < i → get_or (set xs i v) k d ≡ get_or xs k d
  get_or-set_lt [] i k v d h = refl
  get_or-set_lt (x ∷ xs) zero k v d h = absurd (omega arith)
  get_or-set_lt (x ∷ xs) (suc i) zero v d h = refl
  get_or-set_lt (x ∷ xs) (suc i) (suc k) v d h = get_or-set_lt xs i k v d (omega arith)

length-fill_table : (n i : ℕ) (o : CrcOptions) (t : List ℕ) → length (fill_table n i o t) ≡ length t
unfolding fill_table
length-fill_table zero i o t = refl
length-fill_table (suc n) i o t =
    length-fill_table n (i + 1) o (set t i (table_entry o i)) ∙ length-set t i (table_entry o i)

fill_table_below :
    (n i k : ℕ) (o : CrcOptions) (t : List ℕ)
    → k < i
    → get_or (fill_table n i o t) k 0 ≡ get_or t k 0
unfolding fill_table
fill_table_below zero i k o t h = refl
fill_table_below (suc n) i k o t h =
    fill_table_below n (i + 1) k o (set t i (table_entry o i)) (omega arith)
    ∙ get_or-set_lt t i k (table_entry o i) 0 h

fill_table_lem :
    (n i k : ℕ) (o : CrcOptions) (t : List ℕ)
    → i ≤ k
    → k < i + n
    → i + n ≤ length t
    → get_or (fill_table n i o t) k 0 ≡ table_entry o k
unfolding fill_table
fill_table_lem zero i k o t low up room = absurd (omega arith)
fill_table_lem (suc n) i k o t low up room = elim (Bool-cases (ltb i k)) [
  | inl past ↦
      fill_table_lem n (i + 1) k o (set t i (table_entry o i)) (ground arith) (omega arith)
        (omega (arith, length-set t i (table_entry o i)))
  | inr here ↦
      let same : k ≡ i = ground arith in
      ap (λ x. get_or (fill_table n (i + 1) o (set t i (table_entry o i))) x 0) same
      ∙ fill_table_below n (i + 1) i o (set t i (table_entry o i)) (omega arith)
      ∙ get_or-set_self t i (table_entry o i) 0 (omega arith)
      ∙ ap (table_entry o) (sym same)
]

-- The table holds the entry of every byte.
abbrev pub HasTable : CrcOptions → Type 0
HasTable o = (i : ℕ) → i < 256 → get_or o.table i 0 ≡ table_entry o i

-- What a caller may pass: options as set up, or as an earlier call left them.
pub record IsReady (o : CrcOptions) : Type 0 where
  pub formed : IsWellFormed o
  pub generated : o.is_table_generated ≡ true → HasTable o

-- The entries do not depend on what the table holds.
shift_bits-table :
    (n crc : ℕ) (o : CrcOptions) (b : Bool) (t : List ℕ)
    → shift_bits n (record o { is_table_generated = b; table = t }) crc ≡ shift_bits n o crc
unfolding shift_bits shift_bit
shift_bits-table zero crc o b t = refl
shift_bits-table (suc n) crc o b t = shift_bits-table n (shift_bit o crc) o b t

table_entry-table :
    (i : ℕ) (o : CrcOptions) (b : Bool) (t : List ℕ)
    → table_entry (record o { is_table_generated = b; table = t }) i ≡ table_entry o i
unfolding table_entry
table_entry-table i o b t =
    ap (λ c. bit_and (reflect_if o.refin c o.width) o.crc_mask)
      (shift_bits-table 8 (u64 (reflect_if o.refin i 8 * 2 ^ (o.width - 8))) o b t)

pub crc_generate_table-HasTable :
    (o : CrcOptions) → IsWellFormed o → HasTable (crc_generate_table o)
unfolding crc_generate_table
crc_generate_table-HasTable o valid i h =
    fill_table_lem 256 0 i o o.table (omega arith) (omega arith) (omega (arith, valid.room))
    ∙ sym (table_entry-table i o true (fill_table 256 0 o o.table))

pub crc_generate_table-IsWellFormed :
    (o : CrcOptions) → IsWellFormed o → IsWellFormed (crc_generate_table o)
unfolding crc_generate_table
crc_generate_table-IsWellFormed o valid = record {
  byte_wide = valid.byte_wide;
  word_wide = valid.word_wide;
  polynom_fits = valid.polynom_fits;
  initial_fits = valid.initial_fits;
  final_fits = valid.final_fits;
  mask_lem = valid.mask_lem;
  high_bit_lem = valid.high_bit_lem;
  room = length-fill_table 256 0 o o.table ∙ valid.room;
}
