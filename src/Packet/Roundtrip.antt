-- ===== src/Packet/Roundtrip.antt =====
-- Packing a safety and retransmission layer PDU and reading it back (src/c/util/rastamodule.c).
use librasta.Base.{
  ℕ, ◌+◌, ◌-◌, ◌≡◌, refl, true, some, List, [], ◌++◌, arith, length, slice?, slice?-append,
  slice?-append_end, sub32, take_all, length-append, bytes_eq_self, le_short_value, le_long_value,
}
use mathlib.Core.List.{append_assoc}
use librasta.Packet.{RastaPacket, no_error, HashingContext, IsHashing, IsPacket}
use librasta.Packet.Codec.{
  decoded, checksum_len, get_data_length, pack_fields, pack_hashed, header_of,
  rasta_module_to_bytes, bytes_to_rasta_packet,
}

-- The safety code of a packet, over its header and data.
abbrev pub code_of : HashingContext → RastaPacket → List ℕ
code_of h p = h.digest (pack_fields p ++ p.payload)

-- The packet as its receiver rebuilds it.
abbrev pub sealed : HashingContext → RastaPacket → RastaPacket
sealed h p = record p { checksum = code_of h p; checksum_correct = true }

module _ (h : HashingContext) (p : RastaPacket) (hh : IsHashing h) (v : IsPacket h p) where
  header-pack :
      (rest : List ℕ)
      → header_of (pack_fields p ++ rest)
        ≡ record p { payload = []; checksum = []; checksum_correct = true }
  unfolding pack_fields header_of
  header-pack rest = ground (
    arith,
    le_short_value p.length v.length_fits,
    le_short_value p.type v.type_fits,
    le_long_value p.receiver_id v.receiver_fits,
    le_long_value p.sender_id v.sender_fits,
    le_long_value p.sequence_number v.sequence_fits,
    le_long_value p.confirmed_sequence_number v.confirmed_fits,
    le_long_value p.timestamp v.timestamp_fits,
    le_long_value p.confirmed_timestamp v.confirmed_timestamp_fits,
  )

  length-pack_fields : length (pack_fields p) ≡ 28
  unfolding pack_fields
  length-pack_fields = refl

  data_length : get_data_length p h ≡ length p.payload
  data_length = omega (arith, v.length_exact)

  -- A packet with consistent lengths is packed, with no error left.
  pub pack_lem : rasta_module_to_bytes h no_error p ≡ (no_error, some (pack_hashed h p p.payload))
  unfolding rasta_module_to_bytes
  pack_lem = ground (arith, v.length_exact, data_length, take_all p.payload (length p.payload) refl)

  length-hashed : length (pack_fields p ++ p.payload) ≡ p.length - checksum_len h
  length-hashed =
      omega (arith, v.length_exact, length-append (pack_fields p) p.payload, length-pack_fields)

  pub length-packed : length (pack_hashed h p p.payload) ≡ p.length
  length-packed = omega (
    arith,
    v.length_exact,
    length-append (pack_fields p) p.payload,
    length-append (pack_fields p ++ p.payload) (code_of h p),
    length-pack_fields,
    hh.digest_length (pack_fields p ++ p.payload),
  )

  packed_assoc : pack_hashed h p p.payload ≡ pack_fields p ++ (p.payload ++ code_of h p)
  packed_assoc = append_assoc (pack_fields p) p.payload (code_of h p)

  content_slice : slice? (pack_hashed h p p.payload) 28 (length p.payload) ≡ some p.payload
  content_slice = rw packed_assoc (
      slice?-append (pack_fields p) p.payload (code_of h p) 28 (length p.payload) length-pack_fields
        refl)

  hashed_slice :
      slice? (pack_hashed h p p.payload) 0 (p.length - checksum_len h)
      ≡ some (pack_fields p ++ p.payload)
  hashed_slice =
      slice?-append [] (pack_fields p ++ p.payload) (code_of h p) 0 (p.length - checksum_len h) refl
        length-hashed

  code_slice :
      slice? (pack_hashed h p p.payload) (28 + length p.payload) (checksum_len h)
      ≡ some (code_of h p)
  code_slice =
      slice?-append_end (pack_fields p ++ p.payload) (code_of h p) (28 + length p.payload)
        (checksum_len h)
        (omega (arith, length-append (pack_fields p) p.payload, length-pack_fields))
        (omega (arith, hh.digest_length (pack_fields p ++ p.payload)))

  header-packed :
      header_of (pack_hashed h p p.payload)
      ≡ record p { payload = []; checksum = []; checksum_correct = true }
  header-packed = rw packed_assoc (header-pack (p.payload ++ code_of h p))

  wide : sub32 p.length (checksum_len h) ≡ p.length - checksum_len h
  wide = omega (arith, v.length_exact, v.length_fits)

  pub unpack_lem : bytes_to_rasta_packet h (pack_hashed h p p.payload) ≡ decoded (sealed h p)
  unfolding bytes_to_rasta_packet
  unpack_lem =
      rw (header-packed, data_length, wide, content_slice, hashed_slice, code_slice, bytes_eq_self)
        (ground (arith, length-packed, v.length_exact))
