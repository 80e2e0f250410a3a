-- ===== src/Crc/Corruption.antt =====
-- A redundancy layer PDU in which one byte is wrong is not taken for correct: `crc_calculate` of
-- src/c/util/rastacrc.c as `bytesToRastaRedundancyPacket` of src/c/util/rastamodule.c uses it.
use librasta.Base.{
  ℕ, zero, suc, ◌+◌, ◌-◌, ◌*◌, ◌%◌, ◌^◌, ◌≤◌, ◌<◌, ◌≡◌, ◌⊎◌, true, false, refl, sym, ap, ◌∙◌, arith,
  inl, inr, List, [], ◌∷◌, Bool, take, drop, length, Bool-cases, Option-cases, none, slice?, sub32,
  host_long_to_le, bytes_eq, bytes_eq→eq, length-take,
}
use mathlib.Core.Path.{subst}
use librasta.Packet.{RastaPacket, RastaRedundancyPacket, RastaError, HashingContext}
use librasta.Packet.Codec.{Decoded, too_short, overread, decoded, bytes_to_rasta_packet}
use librasta.Packet.RedundancyCodec.{
  Crc, crc_len, crc_bytes, redundancy_of, finish_redundancy, bytes_to_rasta_redundancy_packet,
  RedundancyDecoded,
}
use librasta.Packet.RedundancyRoundtrip.{unpack_by}
use librasta.Crc.{CrcOptions, crc_calculate, crc_of_options}
use librasta.Crc.Table.{IsReady}
use librasta.Crc.Bytes.{AreBytes}
use librasta.Crc.Detection.{OneByteOff, crc_calculate-OneByteOff, crc_calculate-lt}

OneByteOff-self : (xs : List ℕ) → OneByteOff xs xs → ⊥
OneByteOff-self [] h = h
OneByteOff-self (x ∷ xs) (inl h) = h.0 refl
OneByteOff-self (x ∷ xs) (inr h) = OneByteOff-self xs h.1

-- The wrong byte lies before or behind any place.
OneByteOff-split :
    (n : ℕ) (xs ys : List ℕ)
    → OneByteOff xs ys
    → (OneByteOff (take n xs) (take n ys) × (drop n xs ≡ drop n ys))
      ⊎ ((take n xs ≡ take n ys) × OneByteOff (drop n xs) (drop n ys))
OneByteOff-split zero xs ys h = inr (refl, h)
OneByteOff-split (suc n) [] ys h = absurd h
OneByteOff-split (suc n) (x ∷ xs) [] h = absurd h
OneByteOff-split (suc n) (x ∷ xs) (y ∷ ys) (inl h) =
    inl (inl (h.0, ap (take n) h.1), ap (drop n) h.1)
OneByteOff-split (suc n) (x ∷ xs) (y ∷ ys) (inr h) = elim (OneByteOff-split n xs ys h.1) [
  | inl before ↦ inl (inr (h.0, before.0), before.1)
  | inr behind ↦ inr (ap (λ t. t ∷ take n xs) h.0 ∙ ap (λ t. y ∷ t) behind.0, behind.1)
]

length-OneByteOff : (xs ys : List ℕ) → OneByteOff xs ys → length xs ≡ length ys
length-OneByteOff [] ys h = absurd h
length-OneByteOff (x ∷ xs) [] h = absurd h
length-OneByteOff (x ∷ xs) (y ∷ ys) (inl h) = ap (λ t. suc (length t)) h.1
length-OneByteOff (x ∷ xs) (y ∷ ys) (inr h) = ap suc (length-OneByteOff xs ys h.1)

take-AreBytes : (n : ℕ) (xs : List ℕ) → AreBytes xs → AreBytes (take n xs)
take-AreBytes zero xs h = tt
take-AreBytes (suc n) [] h = tt
take-AreBytes (suc n) (x ∷ xs) h = (h.0, take-AreBytes n xs h.1)

-- The low bytes of a code that has no others tell it.
take-injective :
    (n a b : ℕ)
    → n ≤ 4
    → a < 2 ^ (8 * n)
    → b < 2 ^ (8 * n)
    → take n (host_long_to_le a) ≡ take n (host_long_to_le b)
    → a ≡ b
take-injective zero a b l la lb h = omega arith
take-injective (suc zero) a b l la lb h = ground arith
take-injective (suc (suc zero)) a b l la lb h = ground arith
take-injective (suc (suc (suc zero))) a b l la lb h = ground arith
take-injective (suc (suc (suc (suc zero)))) a b l la lb h = ground arith
take-injective (suc (suc (suc (suc (suc n))))) a b l la lb h = absurd (omega arith)

-- The flag that is decoded, if a packet is.
flag_of : RedundancyDecoded → Bool
flag_of RedundancyDecoded.overread = false
flag_of (RedundancyDecoded.decoded p) = p.checksum_correct

module _ (h : HashingContext) (c : Crc) (low : 1 ≤ crc_len c) (up : crc_len c ≤ 4) where
  abbrev hashed : List ℕ → List ℕ
  hashed bytes = take (length bytes - crc_len c) bytes

  abbrev code : List ℕ → List ℕ
  code bytes = drop (length bytes - crc_len c) bytes

  abbrev matches : List ℕ → Bool
  matches bytes = bytes_eq (crc_bytes c (hashed bytes)) (code bytes)

  flag_lem :
      (bytes : List ℕ) (inner : RastaPacket)
      → crc_len c ≤ length bytes
      → (redundancy_of c bytes (hashed bytes) (code bytes) inner).checksum_correct ≡ matches bytes
  flag_lem bytes inner room =
      ground (arith, length-take (length bytes - crc_len c) bytes (omega arith))

  finish_lem :
      (stale : RastaPacket) (bytes : List ℕ) (inner : Decoded) (p : RastaRedundancyPacket)
      → crc_len c ≤ length bytes
      → finish_redundancy stale (redundancy_of c bytes (hashed bytes) (code bytes)) inner
        ≡ RedundancyDecoded.decoded p
      → p.checksum_correct ≡ matches bytes
  unfolding flag_of
  finish_lem stale bytes too_short p room d = sym (ap flag_of d) ∙ flag_lem bytes stale room
  finish_lem stale bytes overread p room d = cc
  finish_lem stale bytes (decoded inner) p room d = sym (ap flag_of d) ∙ flag_lem bytes inner room

  unpack_none :
      (bytes : List ℕ) (last : RastaError) (stale : RastaPacket)
      → slice? bytes 8 (sub32 (length bytes) (8 + crc_len c)) ≡ none
      → bytes_to_rasta_redundancy_packet h c last stale bytes ≡ (last, RedundancyDecoded.overread)
  unfolding bytes_to_rasta_redundancy_packet
  unpack_none bytes last stale f = rw (bytes_to_rasta_redundancy_packet, f)

  -- What the flag of a decoded packet means, where the check code is not empty.
  checksum_lem :
      (last e : RastaError) (stale : RastaPacket) (bytes : List ℕ) (p : RastaRedundancyPacket)
      → bytes_to_rasta_redundancy_packet h c last stale bytes ≡ (e, RedundancyDecoded.decoded p)
      → (crc_len c ≤ length bytes) × (p.checksum_correct ≡ matches bytes)
  checksum_lem last e stale bytes p d =
      elim (Option-cases (slice? bytes 8 (sub32 (length bytes) (8 + crc_len c)))) [
        | inl f ↦ absurd (cc (sym (unpack_none bytes last stale f) ∙ d))
        | inr (internal, f) ↦
            let room : crc_len c ≤ length bytes = ground arith in
            (
              room,
              finish_lem stale bytes (bytes_to_rasta_packet h internal) p room
                  (cc (sym (unpack_by h c last stale bytes internal f) ∙ d)),
            )
      ]

both_match :
    (h : HashingContext) (o : CrcOptions) (n : ℕ) (sent received : List ℕ)
    → IsReady o
    → o.polynom % 2 ≡ 1
    → o.width ≡ 8 * n
    → n ≤ 4
    → AreBytes sent
    → AreBytes received
    → OneByteOff sent received
    → bytes_eq
        (crc_bytes (crc_of_options o) (take (length sent - n) sent))
        (drop (length sent - n) sent)
      ≡ true
    → bytes_eq
        (crc_bytes (crc_of_options o) (take (length sent - n) received))
        (drop (length sent - n) received)
      ≡ true
    → ⊥
both_match h o n sent received ready odd w small hs hr off ms mr =
    let k = length sent - n in
    let codes : crc_len (crc_of_options o) ≡ n = omega (arith, w) in
    let same = bytes_eq→eq (crc_bytes (crc_of_options o) (take k sent)) (drop k sent) ms in
    let same' = bytes_eq→eq (crc_bytes (crc_of_options o) (take k received)) (drop k received) mr in
    let bytes = take-AreBytes k sent hs in
    let bytes' = take-AreBytes k received hr in
    let wide = ap (λ t. 2 ^ t) w in
    elim (OneByteOff-split k sent received off) [
      | inl (before, tails) ↦
          crc_calculate-OneByteOff o (take k sent) (take k received) ready odd bytes bytes' before (
            take-injective n _ _ small
              (omega (arith, wide, crc_calculate-lt o (take k sent) ready bytes))
              (omega (arith, wide, crc_calculate-lt o (take k received) ready bytes'))
              (ap (λ t. take t (host_long_to_le (crc_calculate o (take k sent)).1)) (sym codes)
                ∙ same
                ∙ tails
                ∙ sym same'
                ∙ ap (λ t. take t (host_long_to_le (crc_calculate o (take k received)).1)) codes))
      | inr (heads, behind) ↦ OneByteOff-self (drop k sent) (
          subst (OneByteOff (drop k sent))
            (sym same' ∙ ap (crc_bytes (crc_of_options o)) (sym heads) ∙ same) behind)
    ]

-- Of two arrays of bytes that differ in one place, anywhere in the PDU, at most one is decoded as
-- a packet with a correct check code, if the options have 8 to 32 bits in whole bytes and an odd
-- polynomial, whatever errors are pending and whatever the memory of the packets held.
pub wrong_byte-refused :
    (h : HashingContext) (o : CrcOptions) (n : ℕ) (sent received : List ℕ)
    (last last' e e' : RastaError) (stale stale' : RastaPacket) (p q : RastaRedundancyPacket)
    → IsReady o
    → o.polynom % 2 ≡ 1
    → o.width ≡ 8 * n
    → n ≤ 4
    → AreBytes sent
    → AreBytes received
    → OneByteOff sent received
    → bytes_to_rasta_redundancy_packet h (crc_of_options o) last stale sent
      ≡ (e, RedundancyDecoded.decoded p)
    → p.checksum_correct ≡ true
    → bytes_to_rasta_redundancy_packet h (crc_of_options o) last' stale' received
      ≡ (e', RedundancyDecoded.decoded q)
    → q.checksum_correct ≡ false
wrong_byte-refused h o n sent received last last' e e' stale stale' p q ready odd w small hs hr off
      ds ps dr =
    let c = crc_of_options o in
    let codes : crc_len c ≡ n = omega (arith, w) in
    let low : 1 ≤ crc_len c = omega (arith, ready.formed.byte_wide) in
    let up : crc_len c ≤ 4 = omega arith in
    let checked = (checksum_lem h c low up last e stale sent p ds).1 in
    let checked' = (checksum_lem h c low up last' e' stale' received q dr).1 in
    let lengths = length-OneByteOff sent received off in
    elim (Bool-cases q.checksum_correct) [
      | inl wrong ↦ absurd (
          both_match h o n sent received ready odd w small hs hr off
            (ap
                (λ t.
                  bytes_eq (crc_bytes c (take (length sent - t) sent))
                    (drop (length sent - t) sent))
                (sym codes)
              ∙ sym checked
              ∙ ps)
            (ap (λ t. bytes_eq (crc_bytes c (take t received)) (drop t received))
                {x = length sent - n} {y = length received - crc_len c} (omega arith)
              ∙ sym checked'
              ∙ wrong))
      | inr right ↦ right
    ]
