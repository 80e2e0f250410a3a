-- ===== src/Packet.antt =====
-- The PDUs of the two protocol layers: src/c/util/rastamodule.h.
pub mod ConnType
pub mod Codec
pub mod Roundtrip
pub mod Robustness
pub mod RedundancyCodec
pub mod RedundancyRoundtrip
use librasta.Base.{ℕ, ◌+◌, ◌*◌, ◌^◌, ◌<◌, ◌≤◌, ◌≡◌, Bool, List, length}

-- `struct RastaPacket`; a `RastaByteArray` is the list of its bytes.
pub record RastaPacket : Type 0 where
  pub length : ℕ
  pub type : ℕ
  pub receiver_id : ℕ
  pub sender_id : ℕ
  pub sequence_number : ℕ
  pub confirmed_sequence_number : ℕ
  pub timestamp : ℕ
  pub confirmed_timestamp : ℕ
  pub payload : List ℕ
  pub checksum : List ℕ
  pub checksum_correct : Bool

-- `struct RastaRedundancyPacket`, less the checksum options, which the channel's configuration fixes.
pub record RastaRedundancyPacket : Type 0 where
  pub length : ℕ
  pub reserve : ℕ
  pub sequence_number : ℕ
  pub inner : RastaPacket
  pub checksum_correct : Bool

-- `rasta_error_type`, the values of `rastamodule_lasterror` and `rastafactoryLastError`.
pub data RastaError : Type 0 where
  no_error wrong_package_format package_length_invalid : RastaError

-- `rasta_hashing_context_t`: `hash_length` counts blocks of 8 bytes, and `digest` stands for
-- `rasta_calculate_hash` with the context's algorithm and key.
pub record HashingContext : Type 0 where
  pub hash_length : ℕ
  pub digest : List ℕ → List ℕ

-- The digest fills exactly the bytes that the safety code occupies.
pub record IsHashing (h : HashingContext) : Type 0 where
  pub digest_length : (bytes : List ℕ) → length (h.digest bytes) ≡ 8 * h.hash_length

-- The fields fit their C types, and the length field counts the header, the data and the code.
pub record IsPacket (h : HashingContext) (p : RastaPacket) : Type 0 where
  pub length_exact : p.length ≡ 28 + 8 * h.hash_length + length p.payload
  pub length_fits : p.length < 2 ^ 16
  pub type_fits : p.type < 2 ^ 16
  pub receiver_fits : p.receiver_id < 2 ^ 32
  pub sender_fits : p.sender_id < 2 ^ 32
  pub sequence_fits : p.sequence_number < 2 ^ 32
  pub confirmed_fits : p.confirmed_sequence_number < 2 ^ 32
  pub timestamp_fits : p.timestamp < 2 ^ 32
  pub confirmed_timestamp_fits : p.confirmed_timestamp < 2 ^ 32
