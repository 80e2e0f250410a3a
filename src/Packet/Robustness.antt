-- ===== src/Packet/Robustness.antt =====
-- What `bytesToRastaPacket` and `rastaModuleToBytes` of src/c/util/rastamodule.c do on arrays that no
-- sender packed: short arrays, length fields that claim too much, a pending error.
use librasta.Base.{
  ℕ, ◌+◌, ◌-◌, ◌≤◌, ◌<◌, ◌^◌, ◌≡◌, refl, some, List, ◌++◌, arith, length, replicate,
  le_short_to_host, lt→ltb, take, drop, bytes_eq, length-take, length-drop, take_then_drop,
  take_sum, drop_sum, ap, ◌∙◌,
}
use librasta.Packet.{RastaPacket, RastaError, package_length_invalid, HashingContext}
use librasta.Packet.Codec.{
  too_short, overread, decoded, checksum_len, header_of, decode_error, rasta_module_to_bytes,
  bytes_to_rasta_packet,
}

-- An array is refused as too short exactly if it has no room for the fields and the safety code.
pub decode_short :
    (h : HashingContext) (bytes : List ℕ)
    → length bytes < 28 + checksum_len h
    → bytes_to_rasta_packet h bytes ≡ too_short
unfolding bytes_to_rasta_packet
decode_short h bytes short = rw (lt→ltb (length bytes) (28 + checksum_len h) short)

-- An array whose length field claims more bytes than the array has is read beyond its end.
pub decode-overreads :
    (h : HashingContext) (bytes : List ℕ)
    → 28 + checksum_len h ≤ length bytes
    → length bytes < le_short_to_host bytes 0
    → bytes_to_rasta_packet h bytes ≡ overread
unfolding bytes_to_rasta_packet header_of
decode-overreads h bytes room claim = ground arith

-- The packet read from an array whose length field keeps inside it.
abbrev picked : HashingContext → List ℕ → RastaPacket
picked h bytes =
    let len = le_short_to_host bytes 0 - 28 - checksum_len h in
    let hashed = take (le_short_to_host bytes 0 - checksum_len h) bytes in
    let code = take (checksum_len h) (drop (28 + len) bytes) in
    record (header_of bytes) {
      payload = take len (drop 28 bytes);
      checksum = code;
      checksum_correct = bytes_eq (h.digest hashed) code;
    }

-- An array whose length field counts at least the fields and the safety code, and no more bytes
-- than the array has, is read inside its bounds. It consists of the 28 bytes of the fields, the
-- packet's data, its safety code and a rest that is not read; the length of the packet is that of
-- the first three, and the safety code counts as correct exactly if it is the digest of the first
-- two.
pub decode_in_bounds :
    (h : HashingContext) (bytes : List ℕ)
    → 28 + checksum_len h ≤ le_short_to_host bytes 0
    → le_short_to_host bytes 0 ≤ length bytes
    → le_short_to_host bytes 0 < 2 ^ 16
    → (p : RastaPacket) × (fields : List ℕ) × (rest : List ℕ) × (bytes_to_rasta_packet h bytes
        ≡ decoded p)
      × (bytes ≡ fields ++ (p.payload ++ (p.checksum ++ rest)))
      × (length fields ≡ 28)
      × (length p.checksum ≡ checksum_len h)
      × (p.length ≡ 28 + length p.payload + checksum_len h)
      × (p.length ≡ le_short_to_host bytes 0)
      × (p.checksum_correct ≡ bytes_eq (h.digest (fields ++ p.payload)) p.checksum)
unfolding bytes_to_rasta_packet header_of
decode_in_bounds h bytes room claim fits =
    let len = le_short_to_host bytes 0 - 28 - checksum_len h in
    let size = length-take len (drop 28 bytes) (omega (arith, length-drop 28 bytes)) in
    (
      picked h bytes,
      take 28 bytes,
      drop (checksum_len h) (drop len (drop 28 bytes)),
      ground arith,
      take_then_drop 28 bytes
          ∙ ap (λ t. take 28 bytes ++ t)
              (take_then_drop len (drop 28 bytes)
                ∙ ap (λ t. take len (drop 28 bytes) ++ t)
                    (take_then_drop (checksum_len h) (drop len (drop 28 bytes))
                      ∙ ap
                          (λ t.
                            take (checksum_len h) t
                            ++ drop (checksum_len h) (drop len (drop 28 bytes)))
                          (drop_sum 28 len bytes))),
      length-take 28 bytes (omega arith),
      length-take (checksum_len h) (drop (28 + len) bytes)
          (omega (arith, length-drop (28 + len) bytes)),
      omega (arith, size),
      refl,
      ap (λ t. bytes_eq (h.digest t) (picked h bytes).checksum)
          (ap (λ n. take n bytes) {x = le_short_to_host bytes 0 - checksum_len h} {y = 28 + len}
              (omega arith)
            ∙ take_sum 28 len bytes),
    )

-- After one array that is too short, every packet is packed as zeros, whatever it holds.
pub short_then_zeros :
    (h : HashingContext) (last : RastaError) (bytes : List ℕ) (p : RastaPacket)
    → length bytes < 28 + checksum_len h
    → rasta_module_to_bytes h (decode_error last (bytes_to_rasta_packet h bytes)) p
      ≡ (package_length_invalid, some (replicate p.length 0))
unfolding rasta_module_to_bytes
short_then_zeros h last bytes p short = rw (decode_short h bytes short) (ground arith)
