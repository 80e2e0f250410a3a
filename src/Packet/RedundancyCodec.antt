-- ===== src/Packet/RedundancyCodec.antt =====
-- `rastaRedundancyPacketToBytes` and `bytesToRastaRedundancyPacket` of src/c/util/rastamodule.c.
-- `Crc` stands for `crc_calculate` with the channel's options: `width` is in bits.
use librasta.Base.{
  ℕ, ◌+◌, ◌-◌, ◌/◌, ◌==◌, if◌then◌else◌, true, false, Option, none, some, List, ◌++◌, length, take,
  drop, slice?, bytes_eq, sub32, host_short_to_le, host_long_to_le, le_short_to_host,
  le_long_to_host,
}
use librasta.Packet.{RastaPacket, RastaRedundancyPacket, RastaError, HashingContext}
use librasta.Packet.Codec.{Decoded, decode_error, rasta_module_to_bytes, bytes_to_rasta_packet}

pub record Crc : Type 0 where
  pub width : ℕ
  pub calculate : List ℕ → ℕ

abbrev pub crc_len : Crc → ℕ
crc_len c = c.width / 8

-- The eight bytes before the inner packet.
unfoldable pub pack_redundancy_fields : RastaRedundancyPacket → List ℕ
pack_redundancy_fields packet =
    host_short_to_le packet.length
    ++ (host_short_to_le packet.reserve ++ host_long_to_le packet.sequence_number)

-- The check code after them: the low bytes of the CRC of all before it.
abbrev pub crc_bytes : Crc → List ℕ → List ℕ
crc_bytes c bytes = take (crc_len c) (host_long_to_le (c.calculate bytes))

abbrev pub append_crc : Crc → List ℕ → List ℕ
append_crc c bytes = bytes ++ crc_bytes c bytes

-- The result has `packet->length` bytes. If that is less than the fields, the inner packet and the
-- check code take, they are written beyond its end; if it is more, bytes that nothing has set are
-- hashed and sent. `none` is either.
unfoldable pub rasta_redundancy_packet_to_bytes :
    HashingContext → Crc → RastaError → RastaRedundancyPacket → RastaError × Option (List ℕ)
rasta_redundancy_packet_to_bytes h c last packet =
    let (error, inner) = rasta_module_to_bytes h last packet.inner in
    (
      error,
      elim inner [
        | none ↦ none
        | some bytes ↦
            if packet.length == 8 + packet.inner.length + crc_len c
            then some (append_crc c (pack_redundancy_fields packet ++ bytes))
            else none
      ],
    )

pub data RedundancyDecoded : Type 0 where
  overread : RedundancyDecoded
  decoded : RastaRedundancyPacket → RedundancyDecoded

-- A short inner array leaves the packet as the caller's memory had it, but for two fields.
abbrev pub refused : RastaPacket → RastaPacket
refused stale = record stale { length = 0; checksum_correct = false }

-- With no check code in use, `data.length == data_wo_checksum_len`, there is nothing to compare.
abbrev pub redundancy_of : Crc → List ℕ → List ℕ → List ℕ → RastaPacket → RastaRedundancyPacket
redundancy_of c bytes hashed code p = record {
  length = le_short_to_host bytes 0;
  reserve = le_short_to_host bytes 2;
  sequence_number = le_long_to_host bytes 4;
  inner = p;
  checksum_correct =
      if length bytes == length hashed then true else bytes_eq (crc_bytes c hashed) code;
}

abbrev pub finish_redundancy :
    RastaPacket → (RastaPacket → RastaRedundancyPacket) → Decoded → RedundancyDecoded
finish_redundancy stale outer Decoded.too_short = decoded (outer (refused stale))
finish_redundancy stale outer Decoded.overread = overread
finish_redundancy stale outer (Decoded.decoded p) = decoded (outer p)

-- `stale` is what the memory of the inner packet held before. An array that is shorter than the
-- fields and the check code makes the unsigned lengths wrap, and the copies leave the array.
unfoldable pub bytes_to_rasta_redundancy_packet :
    HashingContext → Crc → RastaError → RastaPacket → List ℕ → RastaError × RedundancyDecoded
bytes_to_rasta_redundancy_packet h c last stale bytes =
    elim (slice? bytes 8 (sub32 (length bytes) (8 + crc_len c))) [
      | none ↦ (last, overread)
      | some internal ↦
          let inner = bytes_to_rasta_packet h internal in
          let hashed = take (length bytes - crc_len c) bytes in
          let code = drop (length bytes - crc_len c) bytes in
          (
            decode_error last inner,
            finish_redundancy stale (redundancy_of c bytes hashed code) inner,
          )
    ]
