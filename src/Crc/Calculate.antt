-- ===== src/Crc/Calculate.antt =====
-- `crc_calculate` of src/c/util/rastacrc.c computes the reference CRC.
use librasta.Base.{
  ℕ, suc, ◌+◌, ◌-◌, ◌%◌, ◌^◌, ◌<◌, ◌≡◌, if◌then◌else◌, true, false, refl, sym, ap, ◌∙◌, arith, List,
  Bool, bit_and, bit_xor, bit_xor-mod,
}
use native.Mathlib.Nat.{mod-eq_of_lt}
use librasta.Crc.{
  differs, CrcOptions, crc_generate_table, reflect, reflect_if, forward_bytes, reflected_bytes,
  crc_of_table, crc_calculate,
}
use librasta.Crc.Reference.{mirror, divide, message_bits, crc_reference}
use librasta.Crc.Reflect.{reflect_lem, mirror-lt, mirror-mod, mirror-mirror}
use librasta.Crc.Table.{
  IsWellFormed, IsReady, HasTable, mask, crc_generate_table-HasTable,
  crc_generate_table-IsWellFormed,
}
use librasta.Crc.Bytes.{AreBytes, divide-lt, forward_bytes_lem, reflected_bytes_lem}

module _ (o : CrcOptions) (valid : IsWellFormed o) (table : HasTable o) (v d : ℕ)
    (w : o.width ≡ suc v) (e : d + 8 ≡ suc v) where
  -- The register of the reference after the whole message.
  abbrev register : Bool → List ℕ → ℕ
  register refin bytes = divide (suc v) o.polynom o.initial_optimized (message_bits refin bytes)

  initial : o.initial_optimized < 2 ^ suc v
  initial = omega (arith, valid.initial_fits, ap (λ t. 2 ^ t) w)

  register-lt : (refin : Bool) (bytes : List ℕ) → register refin bytes < 2 ^ suc v
  register-lt refin bytes =
      divide-lt v o.polynom o.initial_optimized (message_bits refin bytes)
        (omega (arith, valid.polynom_fits, ap (λ t. 2 ^ t) w)) initial

  reflect_width : (x : ℕ) → reflect x o.width ≡ mirror (suc v) x
  reflect_width x = reflect_lem x o.width valid.word_wide ∙ ap (λ t. mirror t x) w

  -- The end of the calculation, of a word whose low bits are known.
  finish :
      (x y : ℕ)
      → x % 2 ^ suc v ≡ y
      → bit_and (bit_xor x o.final_xor) o.crc_mask ≡ bit_xor y o.final_xor
  finish x y h =
      mask o valid v d w e (bit_xor x o.final_xor)
      ∙ bit_xor-mod (suc v) x o.final_xor
      ∙ ap (λ t. bit_xor t (o.final_xor % 2 ^ suc v)) h
      ∙ ap (bit_xor y) (mod-eq_of_lt (omega (arith, valid.final_fits, ap (λ t. 2 ^ t) w)))

  abbrev code : Bool → Bool → List ℕ → ℕ
  code refin refout bytes =
      let start = reflect_if refin o.initial_optimized o.width in
      let crc = if refin then reflected_bytes o start bytes else forward_bytes o start bytes in
      bit_and (bit_xor (reflect_if (differs refout refin) crc o.width) o.final_xor) o.crc_mask

  abbrev textbook : Bool → Bool → List ℕ → ℕ
  textbook refin refout bytes =
      bit_xor (if refout then mirror (suc v) (register refin bytes) else register refin bytes)
        o.final_xor

  plain_end :
      (bytes : List ℕ)
      → AreBytes bytes
      → o.refin ≡ false
      → forward_bytes o o.initial_optimized bytes % 2 ^ suc v ≡ register false bytes
  plain_end bytes h f =
      forward_bytes_lem o valid table v d w e o.initial_optimized bytes h f
      ∙ ap (λ t. divide (suc v) o.polynom t (message_bits false bytes)) (mod-eq_of_lt initial)

  reflected_end :
      (bytes : List ℕ)
      → AreBytes bytes
      → o.refin ≡ true
      → reflected_bytes o (reflect o.initial_optimized o.width) bytes
        ≡ mirror (suc v) (register true bytes)
  reflected_end bytes h f =
      ap (λ t. reflected_bytes o t bytes) (reflect_width o.initial_optimized)
      ∙ reflected_bytes_lem o valid table v d w e o.initial_optimized bytes initial h f

  code_lem :
      (refin refout : Bool) (bytes : List ℕ)
      → AreBytes bytes
      → o.refin ≡ refin
      → code refin refout bytes ≡ textbook refin refout bytes
  code_lem false false bytes h f = finish _ _ (plain_end bytes h f)
  code_lem false true bytes h f = finish _ _ (
      ap (λ t. t % 2 ^ suc v) (reflect_width (forward_bytes o o.initial_optimized bytes))
      ∙ mod-eq_of_lt (mirror-lt (suc v) _)
      ∙ sym (mirror-mod (suc v) _)
      ∙ ap (mirror (suc v)) (plain_end bytes h f))
  code_lem true true bytes h f =
      finish _ _
        (ap (λ t. t % 2 ^ suc v) (reflected_end bytes h f) ∙ mod-eq_of_lt (mirror-lt (suc v) _))
  code_lem true false bytes h f = finish _ _ (
      ap (λ t. t % 2 ^ suc v)
        (reflect_width _
          ∙ ap (mirror (suc v)) (reflected_end bytes h f)
          ∙ mirror-mirror (suc v) (register true bytes)
          ∙ mod-eq_of_lt (register-lt true bytes))
      ∙ mod-eq_of_lt (register-lt true bytes))

  pub crc_of_table_lem :
      (bytes : List ℕ) → AreBytes bytes → crc_of_table o bytes ≡ crc_reference o bytes
  unfolding crc_of_table crc_reference
  crc_of_table_lem bytes h =
      code_lem o.refin o.refout bytes h refl
      ∙ ap
          (λ t.
            bit_xor
              (if o.refout
                then mirror t (divide t o.polynom o.initial_optimized (message_bits o.refin bytes))
                else divide t o.polynom o.initial_optimized (message_bits o.refin bytes))
              o.final_xor)
          (sym w)

-- Options whose table is there, with it or after its generation.
abbrev with_table : Bool → CrcOptions → CrcOptions
with_table b o = if b then o else crc_generate_table o

with_table-HasTable :
    (b : Bool) (o : CrcOptions)
    → IsReady o
    → o.is_table_generated ≡ b
    → IsWellFormed (with_table b o) × HasTable (with_table b o)
with_table-HasTable true o ready e = (ready.formed, ready.generated e)
with_table-HasTable false o ready e =
    (crc_generate_table-IsWellFormed o ready.formed, crc_generate_table-HasTable o ready.formed)

with_table-crc_reference :
    (b : Bool) (o : CrcOptions) (bytes : List ℕ)
    → crc_reference (with_table b o) bytes ≡ crc_reference o bytes
unfolding crc_generate_table crc_reference
with_table-crc_reference true o bytes = refl
with_table-crc_reference false o bytes = refl

-- For options of 8 to 64 bits, with or without reflection, whose table is generated or still to be
-- generated, `crc_calculate` of a message of bytes is the CRC of the bitwise reference.
pub crc_calculate-eq-crc_reference :
    (o : CrcOptions) (bytes : List ℕ)
    → IsReady o
    → AreBytes bytes
    → (crc_calculate o bytes).1 ≡ crc_reference o bytes
unfolding crc_calculate
crc_calculate-eq-crc_reference o bytes ready h =
    let (valid, table) = with_table-HasTable o.is_table_generated o ready refl in
    let used = with_table o.is_table_generated o in
    crc_of_table_lem used valid table (used.width - 1) (used.width - 8)
      (omega (arith, valid.byte_wide)) (omega (arith, valid.byte_wide)) bytes h
    ∙ with_table-crc_reference o.is_table_generated o bytes

-- A call leaves usable options: after it, the next call takes the table that is kept and still
-- returns the reference CRC of the original options.
pub crc_calculate_again :
    (o : CrcOptions) (first next : List ℕ)
    → IsReady o
    → AreBytes next
    → ((crc_calculate (crc_calculate o first).0 next).1 ≡ crc_reference o next)
      × IsReady (crc_calculate o first).0
unfolding crc_calculate
crc_calculate_again o first next ready h =
    let (valid, table) = with_table-HasTable o.is_table_generated o ready refl in
    let left : IsReady (with_table o.is_table_generated o) = record {
      formed = valid;
      generated = λ g. table;
    } in
    (
      crc_calculate-eq-crc_reference (with_table o.is_table_generated o) next left h
          ∙ with_table-crc_reference o.is_table_generated o next,
      left,
    )
