-- ===== src/Packet/RedundancyRoundtrip.antt =====
-- Packing a redundancy layer PDU and reading it back (src/c/util/rastamodule.c).
use librasta.Base.{
  ℕ, ◌+◌, ◌-◌, ◌≡◌, ◌≤◌, ◌<◌, refl, true, some, List, ◌++◌, arith, length, take, drop, slice?,
  slice?-append, sub32, length-append, length-take, take-append, drop-append, bytes_eq,
  bytes_eq_self, le_short_value, le_long_value, host_long_to_le, if◌then◌else◌, ◌==◌, ◌∙◌, ap,
}
use mathlib.Core.List.{append_assoc}
use librasta.Packet.{
  RastaPacket, RastaRedundancyPacket, RastaError, no_error, HashingContext, IsHashing, IsPacket,
}
use librasta.Packet.Codec.{decode_error, pack_hashed, bytes_to_rasta_packet}
use librasta.Packet.Roundtrip.{sealed, length-packed, pack_lem, unpack_lem}
use librasta.Packet.RedundancyCodec.{
  Crc, crc_len, crc_bytes, append_crc, pack_redundancy_fields, rasta_redundancy_packet_to_bytes,
  bytes_to_rasta_redundancy_packet, RedundancyDecoded, redundancy_of, finish_redundancy,
}

-- The redundancy packet as its receiver rebuilds it.
abbrev pub resealed : HashingContext → RastaRedundancyPacket → RastaRedundancyPacket
resealed h p = record p { inner = sealed h p.inner; checksum_correct = true }

pub record IsRedundancyPacket (h : HashingContext) (c : Crc) (p : RastaRedundancyPacket)
    : Type 0 where
  pub inner_valid : IsPacket h p.inner
  pub length_exact : p.length ≡ 8 + p.inner.length + crc_len c
  pub length_fits : p.length < 65536
  pub reserve_fits : p.reserve < 65536
  pub sequence_fits : p.sequence_number < 4294967296
  pub code_fits : crc_len c ≤ 4

length-crc_bytes :
    (c : Crc) (bytes : List ℕ) → crc_len c ≤ 4 → length (crc_bytes c bytes) ≡ crc_len c
length-crc_bytes c bytes h = length-take (crc_len c) (host_long_to_le (c.calculate bytes)) h

-- What is read once the inner bytes are found inside the array.
pub unpack_by :
    (h : HashingContext) (c : Crc) (last : RastaError) (stale : RastaPacket)
    (bytes internal : List ℕ)
    → slice? bytes 8 (sub32 (length bytes) (8 + crc_len c)) ≡ some internal
    → bytes_to_rasta_redundancy_packet h c last stale bytes ≡ (
      decode_error last (bytes_to_rasta_packet h internal),
      finish_redundancy stale
          (redundancy_of c bytes
            (take (length bytes - crc_len c) bytes)
            (drop (length bytes - crc_len c) bytes))
          (bytes_to_rasta_packet h internal),
    )
unfolding bytes_to_rasta_redundancy_packet
unpack_by h c last stale bytes internal e = rw (bytes_to_rasta_redundancy_packet, e)

module _ (h : HashingContext) (c : Crc) (p : RastaRedundancyPacket) (hh : IsHashing h)
    (v : IsRedundancyPacket h c p) where
  abbrev inner_bytes : List ℕ
  inner_bytes = pack_hashed h p.inner p.inner.payload

  abbrev body : List ℕ
  body = pack_redundancy_fields p ++ inner_bytes

  pub redundancy-pack_lem :
      rasta_redundancy_packet_to_bytes h c no_error p ≡ (no_error, some (append_crc c body))
  unfolding rasta_redundancy_packet_to_bytes
  redundancy-pack_lem = ground (arith, pack_lem h p.inner hh v.inner_valid, v.length_exact)

  length-fields : length (pack_redundancy_fields p) ≡ 8
  unfolding pack_redundancy_fields
  length-fields = refl

  length-all : length (append_crc c body) ≡ 8 + length inner_bytes + crc_len c
  length-all = omega (
    arith,
    length-append body (crc_bytes c body),
    length-append (pack_redundancy_fields p) inner_bytes,
    length-fields,
    length-crc_bytes c body v.code_fits,
  )

  length-inner : length inner_bytes < 65536
  length-inner = omega (arith, length-packed h p.inner hh v.inner_valid, v.inner_valid.length_fits)

  inner_length : sub32 (length (append_crc c body)) (8 + crc_len c) ≡ length inner_bytes
  inner_length = omega (arith, length-all, length-inner, v.code_fits)

  body_length : length (append_crc c body) - crc_len c ≡ length body
  body_length =
      omega (arith, length-append body (crc_bytes c body), length-crc_bytes c body v.code_fits)

  inner_slice : slice? (append_crc c body) 8 (length inner_bytes) ≡ some inner_bytes
  inner_slice = rw (append_assoc (pack_redundancy_fields p) inner_bytes (crc_bytes c body)) (
      slice?-append (pack_redundancy_fields p) inner_bytes (crc_bytes c body) 8 (length inner_bytes)
        length-fields refl)

  checked :
      (n : ℕ)
      → (if n == length body then true else bytes_eq (crc_bytes c body) (crc_bytes c body)) ≡ true
  checked n = ground (arith, bytes_eq_self (crc_bytes c body))

  outer-pack :
      (rest : List ℕ)
      → redundancy_of c
          (pack_redundancy_fields p ++ rest)
          body
          (crc_bytes c body)
          (sealed h p.inner)
        ≡ record (resealed h p) {
          checksum_correct =
              if length (pack_redundancy_fields p ++ rest) == length body
              then true
              else bytes_eq (crc_bytes c body) (crc_bytes c body);
        }
  unfolding pack_redundancy_fields
  outer-pack rest = rw (
    le_short_value p.length v.length_fits,
    le_short_value p.reserve v.reserve_fits,
    le_long_value p.sequence_number v.sequence_fits,
  )

  outer-all :
      redundancy_of c (append_crc c body) body (crc_bytes c body) (sealed h p.inner) ≡ resealed h p
  outer-all = rw (append_assoc (pack_redundancy_fields p) inner_bytes (crc_bytes c body)) (
      outer-pack (inner_bytes ++ crc_bytes c body)
      ∙ ap (λ b. record (resealed h p) { checksum_correct = b })
          (checked (length (pack_redundancy_fields p ++ (inner_bytes ++ crc_bytes c body)))))

  redundancy-unpack_lem :
      (last : RastaError) (stale : RastaPacket)
      → bytes_to_rasta_redundancy_packet h c last stale (append_crc c body)
        ≡ (last, RedundancyDecoded.decoded (resealed h p))
  redundancy-unpack_lem last stale =
      unpack_by h c last stale (append_crc c body) inner_bytes
        (ap (slice? (append_crc c body) 8) inner_length ∙ inner_slice)
      ∙ rw
          (
            unpack_lem h p.inner hh v.inner_valid,
            body_length,
            take-append body (crc_bytes c body) (length body) refl,
            drop-append body (crc_bytes c body) (length body) refl,
          )
          (ap (λ x. (last, RedundancyDecoded.decoded x)) outer-all)

  -- With a hash of the announced length and a check code of four bytes at most: a redundancy packet
  -- whose fields fit their types, whose length field counts its fields, the
  -- inner packet and the check code, and whose inner packet has consistent lengths is packed with no error left, and reading the bytes back gives the same packet, with both the
  -- check code and the inner safety code found correct, whatever error was pending and whatever the
  -- memory of the inner packet held.
  pub redundancy_roundtrip :
      (bytes : List ℕ) × (rasta_redundancy_packet_to_bytes h c no_error p ≡ (no_error, some bytes))
      × ((last : RastaError) (stale : RastaPacket)
          → bytes_to_rasta_redundancy_packet h c last stale bytes
            ≡ (last, RedundancyDecoded.decoded (resealed h p)))
  redundancy_roundtrip = (append_crc c body, redundancy-pack_lem, redundancy-unpack_lem)
