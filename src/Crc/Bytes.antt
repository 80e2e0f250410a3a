-- ===== src/Crc/Bytes.antt =====
-- The rounds of `crc_calculate` of src/c/util/rastacrc.c over the bytes, against the register of the
-- reference.
use librasta.Base.{
  ℕ, suc, ◌+◌, ◌-◌, ◌*◌, ◌/◌, ◌%◌, ◌^◌, ◌<◌, ◌≡◌, true, false, refl, sym, ap, ◌∙◌, arith, List, [],
  ◌∷◌, ◌++◌, get_or, u64, bit_and, bit_xor, bit_xor-mod, bit_xor_comm, bit_xor_bounded,
  split-fields, mod-fields, div-fields, bit_and_mask,
}
use native.Mathlib.Nat.{mod-eq_of_lt, zero-mul}
use librasta.Crc.{CrcOptions, forward_bytes, reflected_bytes}
use librasta.Crc.Reference.{mirror, clock, divide, message_bits, bits_down, bits_up}
use librasta.Crc.Fields.{top-lt, div-mod, mod-shift, mod-mod, scaled-lt}
use librasta.Crc.Reflect.{
  mirror-lt, mirror-mod, mirror-add, mirror_xor, mirror-mirror, mirror-shift,
}
use librasta.Crc.Register.{
  advances, advances-lt, advance-lt, clock_lem, byte_step, divide-bits_down, bits_up_lem,
}
use librasta.Crc.Table.{IsWellFormed, HasTable, low64, table_entry-plain, table_entry-reflected}

abbrev pub AreBytes : List ℕ → Type 0
AreBytes [] = Unit {0}
AreBytes (b ∷ bytes) = (b < 256) × AreBytes bytes

pub divide-lt :
    (v p s : ℕ) (bits : List ℕ)
    → p < 2 ^ suc v
    → s < 2 ^ suc v
    → divide (suc v) p s bits < 2 ^ suc v
unfolding divide
divide-lt v p s [] h l = l
divide-lt v p s (m ∷ bits) h l =
    divide-lt v p (clock (suc v) p s m) bits h (rw (clock_lem v p s m) (advance-lt v p _ h))

-- The two orders of the bits of a byte, through the register.
pub divide-byte_down :
    (d v p s b : ℕ) (rest : List ℕ)
    → d + 8 ≡ suc v
    → b < 256
    → divide (suc v) p s (bits_down 8 b ++ rest)
      ≡ divide (suc v) p (advances 8 v p (bit_xor s (b * 2 ^ d))) rest
divide-byte_down d v p s b rest e h =
    divide-bits_down 8 d v p s b rest e
    ∙ ap (λ t. divide (suc v) p (advances 8 v p (bit_xor s (t * 2 ^ d))) rest) {x = b % 2 ^ 8}
        {y = b} (omega arith)

pub divide-byte_up :
    (d v p s b : ℕ) (rest : List ℕ)
    → d + 8 ≡ suc v
    → divide (suc v) p s (bits_up 8 b ++ rest)
      ≡ divide (suc v) p (advances 8 v p (bit_xor s (mirror 8 b * 2 ^ d))) rest
divide-byte_up d v p s b rest e =
    ap (λ t. divide (suc v) p s (t ++ rest)) (bits_up_lem 8 b)
    ∙ divide-byte_down d v p s (mirror 8 b) rest e (mirror-lt 8 b)

module _ (o : CrcOptions) (valid : IsWellFormed o) (table : HasTable o) (v d : ℕ)
    (w : o.width ≡ suc v) (e : d + 8 ≡ suc v) where
  abbrev forward : ℕ → ℕ → ℕ
  forward crc b =
      bit_xor (u64 (crc * 2 ^ 8))
        (get_or o.table (bit_xor (bit_and (crc / 2 ^ (o.width - 8)) 0xff) b) 0)

  index : (crc : ℕ) → bit_and (crc / 2 ^ (o.width - 8)) 0xff ≡ crc % 2 ^ suc v / 2 ^ d
  index crc =
      bit_and_mask 8 (crc / 2 ^ (o.width - 8))
      ∙ ap (λ t. crc / 2 ^ t % 2 ^ 8) {x = o.width - 8} {y = d} (omega (arith, w))
      ∙ div-mod d 8 crc
      ∙ ap (λ t. crc % 2 ^ t / 2 ^ d) e

  index-lt : (crc b : ℕ) → b < 256 → bit_xor (crc % 2 ^ suc v / 2 ^ d) b < 256
  index-lt crc b h =
      bit_xor_bounded 8 _ b (top-lt d 8 _ (rw (ap (λ t. 2 ^ t) e) (split-fields (suc v) crc).1)) h

  shifted_out : (crc : ℕ) → crc * 2 ^ 8 % 2 ^ suc v ≡ crc % 2 ^ suc v % 2 ^ d * 2 ^ 8
  shifted_out crc =
      ap (λ t. crc * 2 ^ 8 % 2 ^ t) (sym e)
      ∙ mod-shift d 8 crc
      ∙ ap (λ t. t * 2 ^ 8) (sym (mod-mod d 8 crc) ∙ ap (λ t. crc % 2 ^ t % 2 ^ d) e)

  forward_lem :
      (crc b : ℕ)
      → b < 256
      → o.refin ≡ false
      → forward crc b % 2 ^ suc v ≡ advances 8 v o.polynom (bit_xor (crc % 2 ^ suc v) (b * 2 ^ d))
  forward_lem crc b h f =
      let i = bit_xor (crc % 2 ^ suc v / 2 ^ d) b in
      let below = index-lt crc b h in
      let e8 = scaled-lt d 8 (suc v) i below e in
      let held : get_or o.table (bit_xor (bit_and (crc / 2 ^ (o.width - 8)) 0xff) b) 0
          ≡ advances 8 v o.polynom (i * 2 ^ d) =
        ap (λ t. get_or o.table (bit_xor t b) 0) (index crc)
        ∙ table i below
        ∙ table_entry-plain o valid v d w e i below f in
      ap (λ t. bit_xor (u64 (crc * 2 ^ 8)) t % 2 ^ suc v) held
      ∙ bit_xor-mod (suc v) (u64 (crc * 2 ^ 8)) (advances 8 v o.polynom (i * 2 ^ d))
      ∙ ap (λ t. bit_xor t (advances 8 v o.polynom (i * 2 ^ d) % 2 ^ suc v))
          (low64 o valid v d w e (crc * 2 ^ 8) ∙ shifted_out crc)
      ∙ ap (bit_xor (crc % 2 ^ suc v % 2 ^ d * 2 ^ 8)) (
          mod-eq_of_lt (
            advances-lt 8 v o.polynom (i * 2 ^ d)
              (omega (arith, valid.polynom_fits, ap (λ t. 2 ^ t) w)) e8))
      ∙ bit_xor_comm _ _
      ∙ sym (byte_step d v o.polynom (crc % 2 ^ suc v) b e)

  pub forward_bytes_lem :
      (crc : ℕ) (bytes : List ℕ)
      → AreBytes bytes
      → o.refin ≡ false
      → forward_bytes o crc bytes % 2 ^ suc v
        ≡ divide (suc v) o.polynom (crc % 2 ^ suc v) (message_bits false bytes)
  unfolding forward_bytes message_bits divide
  forward_bytes_lem crc [] h f = refl
  forward_bytes_lem crc (b ∷ bytes) h f =
      forward_bytes_lem (forward crc b) bytes h.1 f
      ∙ ap (λ t. divide (suc v) o.polynom t (message_bits false bytes)) (forward_lem crc b h.0 f)
      ∙ sym (divide-byte_down d v o.polynom (crc % 2 ^ suc v) b (message_bits false bytes) e h.0)

  -- The image of a register, by its low byte and the others.
  image : (s : ℕ) → mirror (suc v) s ≡ mirror d s * 2 ^ 8 + mirror 8 (s / 2 ^ d)
  image s = ap (λ t. mirror t s) (sym e) ∙ mirror-add d 8 s

  image_shifted : (s : ℕ) → mirror (suc v) (s % 2 ^ d * 2 ^ 8) ≡ mirror d s
  image_shifted s =
      ap (λ t. mirror t (s % 2 ^ d * 2 ^ 8)) {x = suc v} {y = 8 + d} (omega arith)
      ∙ mirror-add 8 d (s % 2 ^ d * 2 ^ 8)
      ∙ ap (λ t. t * 2 ^ d + mirror d (s % 2 ^ d * 2 ^ 8 / 2 ^ 8)) (mirror-shift 8 (s % 2 ^ d))
      ∙ omega (
        arith,
        zero-mul (2 ^ d),
        ap (mirror d) {x = s % 2 ^ d * 2 ^ 8 / 2 ^ 8} {y = s % 2 ^ d} (omega arith),
        mirror-mod d s,
      )

  abbrev reflected : ℕ → ℕ → ℕ
  reflected crc b = bit_xor (crc / 2 ^ 8) (get_or o.table (bit_xor (bit_and crc 0xff) b) 0)

  reflected_lem :
      (s b : ℕ)
      → s < 2 ^ suc v
      → b < 256
      → o.refin ≡ true
      → reflected (mirror (suc v) s) b
        ≡ mirror (suc v) (advances 8 v o.polynom (bit_xor s (mirror 8 b * 2 ^ d)))
  reflected_lem s b l h f =
      let top = s / 2 ^ d in
      let low : bit_and (mirror (suc v) s) 0xff ≡ mirror 8 top =
        bit_and_mask 8 (mirror (suc v) s)
        ∙ ap (λ t. t % 2 ^ 8) (image s)
        ∙ mod-fields 8 (mirror d s) (mirror 8 top) (mirror-lt 8 top) in
      let high : mirror (suc v) s / 2 ^ 8 ≡ mirror d s =
        ap (λ t. t / 2 ^ 8) (image s)
        ∙ div-fields 8 (mirror d s) (mirror 8 top) (mirror-lt 8 top) in
      let i = bit_xor (mirror 8 top) b in
      let below : i < 256 = bit_xor_bounded 8 (mirror 8 top) b (mirror-lt 8 top) h in
      let back : mirror 8 i ≡ bit_xor top (mirror 8 b) =
        mirror_xor 8 (mirror 8 top) b
        ∙ ap (λ t. bit_xor t (mirror 8 b))
            (mirror-mirror 8 top ∙ mod-eq_of_lt (top-lt d 8 s (rw (ap (λ t. 2 ^ t) e) l))) in
      let value = advances 8 v o.polynom (bit_xor top (mirror 8 b) * 2 ^ d) in
      let held : get_or o.table (bit_xor (bit_and (mirror (suc v) s) 0xff) b) 0
          ≡ mirror (suc v) value =
        ap (λ t. get_or o.table (bit_xor t b) 0) low
        ∙ table i below
        ∙ table_entry-reflected o valid v d w e i below f
        ∙ ap (λ t. mirror (suc v) (advances 8 v o.polynom (t * 2 ^ d))) back in
      ap (λ t. bit_xor t (get_or o.table (bit_xor (bit_and (mirror (suc v) s) 0xff) b) 0))
        (high ∙ sym (image_shifted s))
      ∙ ap (bit_xor (mirror (suc v) (s % 2 ^ d * 2 ^ 8))) held
      ∙ bit_xor_comm _ _
      ∙ sym (mirror_xor (suc v) value (s % 2 ^ d * 2 ^ 8))
      ∙ ap (mirror (suc v)) (sym (byte_step d v o.polynom s (mirror 8 b) e))

  pub reflected_bytes_lem :
      (s : ℕ) (bytes : List ℕ)
      → s < 2 ^ suc v
      → AreBytes bytes
      → o.refin ≡ true
      → reflected_bytes o (mirror (suc v) s) bytes
        ≡ mirror (suc v) (divide (suc v) o.polynom s (message_bits true bytes))
  unfolding reflected_bytes message_bits divide
  reflected_bytes_lem s [] l h f = refl
  reflected_bytes_lem s (b ∷ bytes) l h f =
      let next = advances 8 v o.polynom (bit_xor s (mirror 8 b * 2 ^ d)) in
      let next_fits : next < 2 ^ suc v =
        advances-lt 8 v o.polynom _ (omega (arith, valid.polynom_fits, ap (λ t. 2 ^ t) w))
          (bit_xor_bounded (suc v) s _ l (scaled-lt d 8 (suc v) (mirror 8 b) (mirror-lt 8 b) e)) in
      ap (λ t. reflected_bytes o t bytes) (reflected_lem s b l h.0 f)
      ∙ reflected_bytes_lem next bytes next_fits h.1 f
      ∙ ap (mirror (suc v)) (sym (divide-byte_up d v o.polynom s b (message_bits true bytes) e))
