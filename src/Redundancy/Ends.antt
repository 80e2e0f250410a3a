-- ===== src/Redundancy/Ends.antt =====
-- How the loop of `receive_packet` (src/c/redundancy/rasta_red_multiplexer.c) ends, whatever a buffer
-- holds.

use librasta.Packet.RedundancyCodec.{crc_len, bytes_to_rasta_redundancy_packet, RedundancyDecoded}
use librasta.Packet.{RastaPacket, RastaError}
use librasta.Base.{
  Bool-cases, true, inl, inr, slice?, take, drop, length-take, length-drop, sub32, leb, ℕ, suc, ◌+◌,
  ◌≡◌, ◌≤◌, ◌<◌, refl, ap, none, some, List, arith, length, le_short_to_host,
}
use librasta.Connection.{Connection, Env}
use librasta.Redundancy.{accept_slice, accept_decoded, receive_from}
use librasta.Redundancy.Frames.{nonzero}

module _ (env : Env) where
  slice-short :
      (bytes : List ℕ) (k : ℕ)
      → length bytes < 8 + k
      → k ≤ 4
      → slice? bytes 8 (sub32 (length bytes) (8 + k)) ≡ none
  slice-short bytes k short small = ground arith

  unpack_short :
      (last : RastaError) (stale : RastaPacket) (bytes : List ℕ)
      → slice? bytes 8 (sub32 (length bytes) (8 + crc_len env.crc)) ≡ none
      → bytes_to_rasta_redundancy_packet env.hashing env.crc last stale bytes
        ≡ (last, RedundancyDecoded.overread)
  unfolding bytes_to_rasta_redundancy_packet
  unpack_short last stale bytes f = rw (bytes_to_rasta_redundancy_packet, f)

  accept_some-short :
      (bytes : List ℕ) (i : ℕ) (c : Connection)
      → length bytes < 8 + crc_len env.crc
      → crc_len env.crc ≤ 4
      → accept_slice env (some bytes) i c ≡ none
  unfolding accept_slice
  accept_some-short bytes i c short small =
      ap (λ d. accept_decoded env d i c)
        (unpack_short c.lasterror (env.stack c.ticks) bytes
          (slice-short bytes (crc_len env.crc) short small))

  accept_slice-short :
      (buffer : List ℕ) (offset size i : ℕ) (c : Connection)
      → size < 8 + crc_len env.crc
      → crc_len env.crc ≤ 4
      → accept_slice env (slice? buffer offset size) i c ≡ none
  unfolding accept_slice
  accept_slice-short buffer offset size i c short small =
      elim (Bool-cases (leb (offset + size) (length buffer))) [
        | inr e ↦ rw e refl
        | inl e ↦ rw e (
            accept_some-short (take size (drop offset buffer)) i c
              (omega (
                arith,
                length-take size (drop offset buffer)
                    (ground (arith, e, length-drop offset buffer)),
              ))
              small)
      ]

  -- A length field that claims less than the eight bytes of the fields and the check code: with
  -- bytes left to read, the round reads outside an array.
  pub receive_from-short :
      (fuel : ℕ) (buffer : List ℕ) (remaining offset i result : ℕ) (c : Connection)
      (short : le_short_to_host buffer offset < 8 + crc_len env.crc) (small : crc_len env.crc ≤ 4)
      (left : 0 < remaining)
      → receive_from env (suc fuel) buffer remaining offset i result c
        ≡ some (record c { fault = true }, result)
  unfolding receive_from
  receive_from-short fuel buffer remaining offset i result c short small left =
      rw
        (
          nonzero remaining left,
          accept_slice-short buffer offset (le_short_to_host buffer offset) i c short small,
        )
        refl
