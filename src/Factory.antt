-- ===== src/Factory.antt =====
-- The packet constructors and readers of src/c/rastafactory.c, built without ENABLE_OPAQUE.
pub mod Messages
pub mod Connection
use librasta.Base.{
  ℕ, zero, suc, ◌+◌, ◌*◌, ◌-◌, ◌%◌, ◌^◌, ltb, leb, ◌==◌, if◌then◌else◌, true, false, Option, none,
  some, List, [], ◌∷◌, ◌++◌, length, take, drop, replicate, u16, u32, host_short_to_le,
  le_short_to_host,
}
use librasta.Packet.{
  RastaPacket, RastaRedundancyPacket, RastaError, no_error, wrong_package_format, HashingContext,
}
use librasta.Packet.ConnType

-- What every constructor is given beside the type and the data.
pub record Header : Type 0 where
  pub receiver_id : ℕ
  pub sender_id : ℕ
  pub sequence_number : ℕ
  pub confirmed_sequence_number : ℕ
  pub timestamp : ℕ
  pub confirmed_timestamp : ℕ

-- `initializePacket`. C leaves `checksum_correct` unset; only a decoded packet is asked for it.
unfoldable pub initialize_packet : HashingContext → ℕ → Header → ℕ → RastaPacket
initialize_packet h type r data_length = record {
  length = u16 (28 + 8 * h.hash_length + data_length);
  type = type;
  receiver_id = r.receiver_id;
  sender_id = r.sender_id;
  sequence_number = r.sequence_number;
  confirmed_sequence_number = r.confirmed_sequence_number;
  timestamp = r.timestamp;
  confirmed_timestamp = r.confirmed_timestamp;
  payload = replicate data_length 0;
  checksum = replicate (h.hash_length * 8) 0;
  checksum_correct = false;
}

-- The 14 bytes of both connection PDUs: the version, N_SENDMAX, zeros.
abbrev pub connection_bytes : List ℕ → ℕ → List ℕ
connection_bytes version send_max = take 4 version ++ (host_short_to_le send_max ++ replicate 8 0)

unfoldable pub create_connection_request : HashingContext → Header → ℕ → List ℕ → RastaPacket
create_connection_request h r send_max version =
    record (initialize_packet h ConnType.connreq
      (record r { confirmed_sequence_number = 0; confirmed_timestamp = 0 }) 14) {
        payload = connection_bytes version send_max;
      }

unfoldable pub create_connection_response : HashingContext → Header → ℕ → List ℕ → RastaPacket
create_connection_response h r send_max version =
    record (initialize_packet h ConnType.connresp r 14) {
      payload = connection_bytes version send_max;
    }

-- `struct RastaConnectionData`, less the terminator of the version.
pub record RastaConnectionData : Type 0 where
  pub version : List ℕ
  pub send_max : ℕ

-- The data, and what is left in `rastafactoryLastError`.
unfoldable pub extract_rasta_connection_data :
    RastaError → RastaPacket → RastaConnectionData × RastaError
extract_rasta_connection_data last p =
    if length p.payload == 14
    then (record { version = take 4 p.payload; send_max = le_short_to_host p.payload 4 }, last)
    else (record { version = replicate 4 0; send_max = 0 }, wrong_package_format)

unfoldable pub create_retransmission_request : HashingContext → Header → RastaPacket
create_retransmission_request h r = initialize_packet h ConnType.retrreq r 0

unfoldable pub create_retransmission_response : HashingContext → Header → RastaPacket
create_retransmission_response h r = initialize_packet h ConnType.retrresp r 0

unfoldable pub create_heartbeat : HashingContext → Header → RastaPacket
create_heartbeat h r = initialize_packet h ConnType.hb r 0

-- `struct RastaDisconnectionData`
pub record RastaDisconnectionData : Type 0 where
  pub details : ℕ
  pub reason : ℕ

unfoldable pub create_disconnection_request :
    HashingContext → Header → RastaDisconnectionData → RastaPacket
create_disconnection_request h r d = record (initialize_packet h ConnType.discreq r 4) {
  payload = host_short_to_le d.details ++ host_short_to_le d.reason;
}

unfoldable pub extract_rasta_disconnection_data :
    RastaError → RastaPacket → RastaDisconnectionData × RastaError
extract_rasta_disconnection_data last p =
    if length p.payload == 4
    then (
      record { details = le_short_to_host p.payload 0; reason = le_short_to_host p.payload 2 },
      last,
    )
    else (record { details = 0; reason = 0 }, wrong_package_format)

-- The sum of the first loop of `createDataMessage`, with two bytes more for each message.
abbrev pub message_length : List (List ℕ) → ℕ
message_length [] = 0
message_length (m ∷ ms) = length m + 2 + message_length ms

-- What the second loop writes: each message behind its length.
abbrev pub message_bytes : List (List ℕ) → List ℕ
message_bytes [] = []
message_bytes (m ∷ ms) = host_short_to_le (u16 (length m)) ++ (m ++ message_bytes ms)

-- `initializePacket` takes the sum as a `uint16_t`: a larger one gives a buffer that the second
-- loop leaves, which is `none` here.
unfoldable pub create_data_message : HashingContext → Header → List (List ℕ) → Option RastaPacket
create_data_message h r messages =
    if ltb (message_length messages) (2 ^ 16)
    then some (record (initialize_packet h ConnType.data_message r (message_length messages)) {
      payload = message_bytes messages;
    })
    else none

unfoldable pub create_retransmitted_data_message :
    HashingContext → Header → List (List ℕ) → Option RastaPacket
create_retransmitted_data_message h r messages = elim (create_data_message h r messages) [
  | none ↦ none
  | some p ↦ some (record p { type = ConnType.retrdata })
]

abbrev pub cons_message : List ℕ → Option (List (List ℕ)) → Option (List (List ℕ))
cons_message m none = none
cons_message m (some ms) = some (m ∷ ms)

-- The loops of `extractMessageData` at the data from `current_length` on. Each round uses up two
-- bytes at least, so the length of the data is fuel enough; `none` is a read behind the data.
unfoldable pub extract_from : ℕ → List ℕ → Option (List (List ℕ))
extract_from fuel [] = some []
extract_from fuel (lo ∷ []) = none
extract_from zero (lo ∷ hi ∷ bytes) = none
extract_from (suc fuel) (lo ∷ hi ∷ bytes) =
    let len = lo + 256 * hi in
    let rest = extract_from fuel (drop len bytes) in
    if leb len (length bytes) then cons_message (take len bytes) rest else none

unfoldable pub extract_message_data : RastaPacket → Option (List (List ℕ))
unfolding extract_from
extract_message_data p = extract_from (length p.payload) p.payload

-- `createRedundancyPacket`: the length and the sequence number are cut to their fields. `crc_len`
-- is the width of the check code in bytes.
unfoldable pub create_redundancy_packet : ℕ → RastaPacket → ℕ → RastaRedundancyPacket
create_redundancy_packet sequence_number inner crc_len = record {
  length = u16 (8 + inner.length + crc_len);
  reserve = 0;
  sequence_number = u32 sequence_number;
  inner = inner;
  checksum_correct = true;
}
