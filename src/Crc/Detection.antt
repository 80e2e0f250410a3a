-- ===== src/Crc/Detection.antt =====
-- The CRC of src/c/util/rastacrc.c tells two messages apart that differ in one byte, if the
-- polynomial is odd, as those of the options B to E are.
use librasta.Base.{
  ℕ, suc, ◌+◌, ◌-◌, ◌*◌, ◌%◌, ◌^◌, ◌<◌, ◌≡◌, ◌≢◌, ◌⊎◌, if◌then◌else◌, true, false, sym, ap, ◌∙◌,
  arith, inl, inr, List, [], ◌∷◌, ◌++◌, Bool, bit_xor, bit_xor_bounded, Bool-cases,
}
use native.Mathlib.Nat.{mod-eq_of_lt}
use librasta.Crc.{CrcOptions, crc_calculate}
use librasta.Crc.Reference.{mirror, divide, message_bits, bits_down, bits_up, crc_reference}
use librasta.Crc.Fields.{scaled-lt}
use librasta.Crc.Reflect.{mirror-mirror, mirror-lt}
use librasta.Crc.Register.{advances, advances-lt}
use librasta.Crc.Table.{IsWellFormed, IsReady}
use librasta.Crc.Injective.{xor_cancel, xor_cancel_right, scale_cancel, advances-injective}
use librasta.Crc.Bytes.{AreBytes, divide-lt, divide-byte_down, divide-byte_up}
use librasta.Crc.Calculate.{crc_calculate-eq-crc_reference}

-- Two arrays of one length that differ in exactly one place.
abbrev pub OneByteOff : List ℕ → List ℕ → Type 0
OneByteOff [] ys = ⊥
OneByteOff (x ∷ xs) [] = ⊥
OneByteOff (x ∷ xs) (y ∷ ys) = ((x ≢ y) × (xs ≡ ys)) ⊎ ((x ≡ y) × OneByteOff xs ys)

-- The byte as it enters the register.
abbrev absorb : Bool → ℕ → ℕ
absorb refin b = if refin then mirror 8 b else b

absorb-lt : (refin : Bool) (b : ℕ) → b < 256 → absorb refin b < 2 ^ 8
absorb-lt true b h = mirror-lt 8 b
absorb-lt false b h = h

absorb-injective :
    (refin : Bool) (a b : ℕ) → a < 256 → b < 256 → absorb refin a ≡ absorb refin b → a ≡ b
absorb-injective true a b la lb h =
    sym (mirror-mirror 8 a ∙ mod-eq_of_lt la)
    ∙ ap (mirror 8) h
    ∙ mirror-mirror 8 b
    ∙ mod-eq_of_lt lb
absorb-injective false a b la lb h = h

divide-byte :
    (refin : Bool) (d v p s b : ℕ) (rest : List ℕ)
    → d + 8 ≡ suc v
    → b < 256
    → divide (suc v) p s ((if refin then bits_up 8 b else bits_down 8 b) ++ rest)
      ≡ divide (suc v) p (advances 8 v p (bit_xor s (absorb refin b * 2 ^ d))) rest
divide-byte true d v p s b rest e h = divide-byte_up d v p s b rest e
divide-byte false d v p s b rest e h = divide-byte_down d v p s b rest e h

module _ (refin : Bool) (d v p : ℕ) (e : d + 8 ≡ suc v) (odd : p % 2 ≡ 1)
    (fits : p < 2 ^ suc v) where
  abbrev run : ℕ → List ℕ → ℕ
  run s bytes = divide (suc v) p s (message_bits refin bytes)

  abbrev absorbed : ℕ → ℕ → ℕ
  absorbed s b = bit_xor s (absorb refin b * 2 ^ d)

  run_step :
      (s b : ℕ) (bytes : List ℕ)
      → b < 256
      → run s (b ∷ bytes) ≡ run (advances 8 v p (absorbed s b)) bytes
  unfolding message_bits
  run_step s b bytes h = divide-byte refin d v p s b (message_bits refin bytes) e h

  absorbed-lt : (s b : ℕ) → b < 256 → s < 2 ^ suc v → absorbed s b < 2 ^ suc v
  absorbed-lt s b h l =
      bit_xor_bounded (suc v) s _ l (scaled-lt d 8 (suc v) (absorb refin b) (absorb-lt refin b h) e)

  moved-lt : (s b : ℕ) → b < 256 → s < 2 ^ suc v → advances 8 v p (absorbed s b) < 2 ^ suc v
  moved-lt s b h l = advances-lt 8 v p (absorbed s b) fits (absorbed-lt s b h l)

  moved-eq :
      (s t a b : ℕ)
      → a < 256
      → b < 256
      → s < 2 ^ suc v
      → t < 2 ^ suc v
      → advances 8 v p (absorbed s a) ≡ advances 8 v p (absorbed t b)
      → absorbed s a ≡ absorbed t b
  moved-eq s t a b ha hb ls lt h =
      advances-injective v p odd fits 8 (absorbed s a) (absorbed t b) (absorbed-lt s a ha ls)
        (absorbed-lt t b hb lt) h

  -- Bytes that are received alike keep registers apart.
  run-injective :
      (bytes : List ℕ) (s t : ℕ)
      → AreBytes bytes
      → s < 2 ^ suc v
      → t < 2 ^ suc v
      → run s bytes ≡ run t bytes
      → s ≡ t
  unfolding message_bits divide
  run-injective [] s t k ls lt h = h
  run-injective (b ∷ bytes) s t k ls lt h = xor_cancel_right s t (absorb refin b * 2 ^ d) (
      moved-eq s t b b k.0 k.0 ls lt (
        run-injective bytes (advances 8 v p (absorbed s b)) (advances 8 v p (absorbed t b)) k.1
          (moved-lt s b k.0 ls) (moved-lt t b k.0 lt)
          (sym (run_step s b bytes k.0) ∙ h ∙ run_step t b bytes k.0)))

  run-OneByteOff :
      (xs ys : List ℕ) (s : ℕ)
      → AreBytes xs
      → AreBytes ys
      → OneByteOff xs ys
      → s < 2 ^ suc v
      → run s xs ≢ run s ys
  run-OneByteOff [] ys s hx hy off l h = absurd off
  run-OneByteOff (x ∷ xs) [] s hx hy off l h = absurd off
  run-OneByteOff (x ∷ xs) (y ∷ ys) s hx hy (inl (ne, same)) l h = ne (
      absorb-injective refin x y hx.0 hy.0 (
        scale_cancel d _ _ (
          xor_cancel _ _ s (
            moved-eq s s x y hx.0 hy.0 l l (
              run-injective xs _ _ hx.1 (moved-lt s x hx.0 l) (moved-lt s y hy.0 l) (
                sym (run_step s x xs hx.0)
                ∙ h
                ∙ run_step s y ys hy.0
                ∙ ap (run (advances 8 v p (absorbed s y))) (sym same)))))))
  run-OneByteOff (x ∷ xs) (y ∷ ys) s hx hy (inr (same, off)) l h =
      run-OneByteOff xs ys (advances 8 v p (absorbed s x)) hx.1 hy.1 off (moved-lt s x hx.0 l) (
        sym (run_step s x xs hx.0)
        ∙ h
        ∙ run_step s y ys hy.0
        ∙ ap (λ t. run (advances 8 v p (absorbed s t)) ys) (sym same))

image-injective :
    (refout : Bool) (w s t : ℕ)
    → s < 2 ^ w
    → t < 2 ^ w
    → (if refout then mirror w s else s) ≡ (if refout then mirror w t else t)
    → s ≡ t
image-injective true w s t ls lt h =
    sym (mirror-mirror w s ∙ mod-eq_of_lt ls)
    ∙ ap (mirror w) h
    ∙ mirror-mirror w t
    ∙ mod-eq_of_lt lt
image-injective false w s t ls lt h = h

-- The reference before its last sum, for a width that is given apart.
abbrev image_of : CrcOptions → ℕ → List ℕ → ℕ
image_of o w bytes =
    let s = divide w o.polynom o.initial_optimized (message_bits o.refin bytes) in
    if o.refout then mirror w s else s

image_of-OneByteOff :
    (o : CrcOptions) (v : ℕ) (xs ys : List ℕ)
    → IsWellFormed o
    → o.width ≡ suc v
    → o.polynom % 2 ≡ 1
    → AreBytes xs
    → AreBytes ys
    → OneByteOff xs ys
    → image_of o (suc v) xs ≢ image_of o (suc v) ys
image_of-OneByteOff o v xs ys valid w odd hx hy off h =
    let fits : o.polynom < 2 ^ suc v = omega (arith, valid.polynom_fits, ap (λ t. 2 ^ t) w) in
    let start : o.initial_optimized < 2 ^ suc v =
      omega (arith, valid.initial_fits, ap (λ t. 2 ^ t) w) in
    let e : suc v - 8 + 8 ≡ suc v = omega (arith, valid.byte_wide) in
    run-OneByteOff o.refin (suc v - 8) v o.polynom e odd fits xs ys o.initial_optimized hx hy off
      start
      (image-injective o.refout (suc v) _ _
        (divide-lt v o.polynom o.initial_optimized (message_bits o.refin xs) fits start)
        (divide-lt v o.polynom o.initial_optimized (message_bits o.refin ys) fits start) h)

crc_reference-OneByteOff :
    (o : CrcOptions) (xs ys : List ℕ)
    → IsWellFormed o
    → o.polynom % 2 ≡ 1
    → AreBytes xs
    → AreBytes ys
    → OneByteOff xs ys
    → crc_reference o xs ≢ crc_reference o ys
unfolding crc_reference
crc_reference-OneByteOff o xs ys valid odd hx hy off h =
    let w : o.width ≡ suc (o.width - 1) = omega (arith, valid.byte_wide) in
    image_of-OneByteOff o (o.width - 1) xs ys valid w odd hx hy off (
      sym (ap (λ t. image_of o t xs) w)
      ∙ xor_cancel_right (image_of o o.width xs) (image_of o o.width ys) o.final_xor h
      ∙ ap (λ t. image_of o t ys) w)

-- Two messages of one length that differ in a single byte have different check codes, if the
-- polynomial of the options is odd.
pub crc_calculate-OneByteOff :
    (o : CrcOptions) (xs ys : List ℕ)
    → IsReady o
    → o.polynom % 2 ≡ 1
    → AreBytes xs
    → AreBytes ys
    → OneByteOff xs ys
    → (crc_calculate o xs).1 ≢ (crc_calculate o ys).1
crc_calculate-OneByteOff o xs ys ready odd hx hy off h =
    crc_reference-OneByteOff o xs ys ready.formed odd hx hy off (
      sym (crc_calculate-eq-crc_reference o xs ready hx)
      ∙ h
      ∙ crc_calculate-eq-crc_reference o ys ready hy)

image_of-lt :
    (o : CrcOptions) (v : ℕ) (bytes : List ℕ)
    → IsWellFormed o
    → o.width ≡ suc v
    → image_of o (suc v) bytes < 2 ^ suc v
image_of-lt o v bytes valid w = elim (Bool-cases o.refout) [
  | inl e ↦ rw e (mirror-lt (suc v) _)
  | inr e ↦ rw e (
      divide-lt v o.polynom o.initial_optimized (message_bits o.refin bytes)
        (omega (arith, valid.polynom_fits, ap (λ t. 2 ^ t) w))
        (omega (arith, valid.initial_fits, ap (λ t. 2 ^ t) w)))
]

-- The check code has no more bits than the options say.
pub crc_calculate-lt :
    (o : CrcOptions) (bytes : List ℕ)
    → IsReady o
    → AreBytes bytes
    → (crc_calculate o bytes).1 < 2 ^ o.width
unfolding crc_reference
crc_calculate-lt o bytes ready h =
    let w : o.width ≡ suc (o.width - 1) = omega (arith, ready.formed.byte_wide) in
    let narrow = ap (λ t. 2 ^ t) w in
    omega (
      arith,
      crc_calculate-eq-crc_reference o bytes ready h,
      bit_xor_bounded (suc (o.width - 1)) (image_of o (suc (o.width - 1)) bytes) o.final_xor
          (image_of-lt o (o.width - 1) bytes ready.formed w)
          (omega (arith, ready.formed.final_fits, narrow)),
      ap (λ t. bit_xor (image_of o t bytes) o.final_xor) w,
      narrow,
    )
