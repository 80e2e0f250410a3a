-- ===== src/Packet/Codec.antt =====
-- `rastaModuleToBytes` and `bytesToRastaPacket` of src/c/util/rastamodule.c.
use librasta.Base.{
  ℕ, ◌+◌, ◌-◌, ◌*◌, ltb, if◌then◌else◌, true, Option, none, some, List, [], ◌++◌, length, replicate,
  slice?, bytes_eq, sub32, host_short_to_le, host_long_to_le, le_short_to_host, le_long_to_host,
}
use librasta.Packet.{
  RastaPacket, RastaError, no_error, wrong_package_format, package_length_invalid, HashingContext,
}

abbrev pub checksum_len : HashingContext → ℕ
checksum_len h = h.hash_length * 8

-- The `int` difference, cut off at 0.
abbrev pub get_data_length : RastaPacket → HashingContext → ℕ
get_data_length packet h = packet.length - 28 - checksum_len h

-- What `allocateBytes` leaves in `rastamodule_lasterror`.
abbrev pub allocate_bytes : HashingContext → RastaError → RastaPacket → RastaError
allocate_bytes h last packet =
    if ltb packet.length (28 + checksum_len h) then package_length_invalid else last

unfoldable pub pack_fields : RastaPacket → List ℕ
pack_fields p =
    host_short_to_le p.length
    ++ (host_short_to_le p.type
        ++ (host_long_to_le p.receiver_id
            ++ (host_long_to_le p.sender_id
                ++ (host_long_to_le p.sequence_number
                    ++ (host_long_to_le p.confirmed_sequence_number
                        ++ (host_long_to_le p.timestamp
                            ++ host_long_to_le p.confirmed_timestamp))))))

-- The bytes after `packFields`: the data and the digest of all before the safety code.
abbrev pub pack_hashed : HashingContext → RastaPacket → List ℕ → List ℕ
pack_hashed h packet content =
    let hashed = pack_fields packet ++ content in hashed ++ h.digest hashed

-- With an error pending, the bytes are the zeroed buffer; `none` is a read behind `packet->data`.
abbrev pub pack_unless : HashingContext → RastaError → RastaPacket → Option (List ℕ)
pack_unless h no_error packet = elim (slice? packet.payload 0 (get_data_length packet h)) [
  | none ↦ none
  | some content ↦ some (pack_hashed h packet content)
]
pack_unless h wrong_package_format packet = some (replicate packet.length 0)
pack_unless h package_length_invalid packet = some (replicate packet.length 0)

-- `rastaModuleToBytes`: the value left in `rastamodule_lasterror`, and the bytes.
unfoldable pub rasta_module_to_bytes :
    HashingContext → RastaError → RastaPacket → RastaError × Option (List ℕ)
rasta_module_to_bytes h last packet =
    let error = allocate_bytes h last packet in (error, pack_unless h error packet)

-- What `bytesToRastaPacket` does: refuse a short array, read outside it, or fill in a packet.
pub data Decoded : Type 0 where
  too_short overread : Decoded
  decoded : RastaPacket → Decoded

unfoldable pub header_of : List ℕ → RastaPacket
header_of bytes = record {
  length = le_short_to_host bytes 0;
  type = le_short_to_host bytes 2;
  receiver_id = le_long_to_host bytes 4;
  sender_id = le_long_to_host bytes 8;
  sequence_number = le_long_to_host bytes 12;
  confirmed_sequence_number = le_long_to_host bytes 16;
  timestamp = le_long_to_host bytes 20;
  confirmed_timestamp = le_long_to_host bytes 24;
  payload = [];
  checksum = [];
  checksum_correct = true;
}

-- The three copies out of the array, each of which C makes without a bounds check.
abbrev pub finish_packet :
    HashingContext → RastaPacket → Option (List ℕ) → Option (List ℕ) → Option (List ℕ) → Decoded
finish_packet h header (some content) (some hashed) (some code) = decoded (record header {
  payload = content;
  checksum = code;
  checksum_correct = bytes_eq (h.digest hashed) code;
})
finish_packet h header none hashed code = overread
finish_packet h header (some content) none code = overread
finish_packet h header (some content) (some hashed) none = overread

unfoldable pub bytes_to_rasta_packet : HashingContext → List ℕ → Decoded
bytes_to_rasta_packet h bytes =
    if ltb (length bytes) (28 + checksum_len h)
    then too_short
    else (let header = header_of bytes in
        let len = get_data_length header h in
        finish_packet h header (slice? bytes 28 len)
          (slice? bytes 0 (sub32 header.length (checksum_len h)))
          (slice? bytes (28 + len) (checksum_len h)))

-- What it leaves in `rastamodule_lasterror`.
abbrev pub decode_error : RastaError → Decoded → RastaError
decode_error last too_short = package_length_invalid
decode_error last overread = last
decode_error last (decoded p) = last
