-- ===== src/Factory/Messages.antt =====
-- The application messages of a data PDU: packing and reading back (src/c/rastafactory.c).
use librasta.Base.{
  ℕ, zero, suc, ◌+◌, ◌*◌, ◌/◌, ◌%◌, ◌≤◌, ◌<◌, ◌^◌, ◌≡◌, refl, true, some, List, [], ◌∷◌, ◌++◌,
  arith, length, length-append, take-append, drop-append, le_short_value, le→leb, u16, lt→ltb,
}
use librasta.Packet.ConnType
use librasta.Packet.{RastaPacket, no_error, HashingContext, IsHashing, IsPacket}
use librasta.Packet.Codec.{decoded, pack_hashed, rasta_module_to_bytes, bytes_to_rasta_packet}
use librasta.Packet.Roundtrip.{sealed, pack_lem, unpack_lem}
use librasta.Factory.{
  Header, message_length, message_bytes, create_data_message, extract_from, extract_message_data,
  initialize_packet, cons_message,
}

-- Each message fits its 16-bit length.
abbrev pub AllShort : List (List ℕ) → Type 0
AllShort [] = Unit
AllShort (m ∷ ms) = (length m < 2 ^ 16) × AllShort ms

pub AllShort-message_length : (ms : List (List ℕ)) → message_length ms < 2 ^ 16 → AllShort ms
AllShort-message_length [] h = tt
AllShort-message_length (m ∷ ms) h = (omega arith, AllShort-message_length ms (omega arith))

pub length-message_bytes : (ms : List (List ℕ)) → length (message_bytes ms) ≡ message_length ms
length-message_bytes [] = refl
length-message_bytes (m ∷ ms) =
    omega (arith, length-append m (message_bytes ms), length-message_bytes ms)

u16-eq : (n : ℕ) → n < 2 ^ 16 → u16 n ≡ n
u16-eq n h = omega arith

-- One round of the reading loop.
extract_from-cons :
    (fuel : ℕ) (m rest : List ℕ)
    → length m < 2 ^ 16
    → extract_from (suc fuel) (length m % 256 ∷ length m / 256 % 256 ∷ (m ++ rest))
      ≡ cons_message m (extract_from fuel rest)
unfolding extract_from
extract_from-cons fuel m rest short = rw (
  le_short_value (length m) short,
  le→leb (length m) (length (m ++ rest)) (omega (arith, length-append m rest)),
  take-append m rest (length m) refl,
  drop-append m rest (length m) refl,
)

pub extract-message_bytes :
    (ms : List (List ℕ)) (fuel : ℕ)
    → AllShort ms
    → message_length ms ≤ fuel
    → extract_from fuel (message_bytes ms) ≡ some ms
unfolding extract_from
extract-message_bytes [] fuel h enough = refl
extract-message_bytes (m ∷ ms) zero h enough = absurd (omega arith)
extract-message_bytes (m ∷ ms) (suc fuel) h enough =
    rw (u16-eq (length m) h.0, extract_from-cons fuel m (message_bytes ms) h.0)
      (rw (extract-message_bytes ms fuel h.1 (omega arith)))

-- The PDU that carries the messages.
abbrev pub data_message : HashingContext → Header → List (List ℕ) → RastaPacket
data_message h r ms = record (initialize_packet h ConnType.data_message r (message_length ms)) {
  payload = message_bytes ms;
}

-- Messages that fit one data PDU are read back from it, in order and unchanged.
pub extract-create_data_message :
    (h : HashingContext) (r : Header) (ms : List (List ℕ))
    → message_length ms < 2 ^ 16
    → (create_data_message h r ms ≡ some (data_message h r ms))
      × (extract_message_data (data_message h r ms) ≡ some ms)
unfolding create_data_message extract_message_data
extract-create_data_message h r ms fits = (
  rw (lt→ltb (message_length ms) (2 ^ 16) fits),
  extract-message_bytes ms (length (message_bytes ms)) (AllShort-message_length ms fits)
      (omega (arith, length-message_bytes ms)),
)

-- The arguments of the constructors fit their C types.
pub record IsHeader (r : Header) : Type 0 where
  pub receiver_fits : r.receiver_id < 2 ^ 32
  pub sender_fits : r.sender_id < 2 ^ 32
  pub sequence_fits : r.sequence_number < 2 ^ 32
  pub confirmed_fits : r.confirmed_sequence_number < 2 ^ 32
  pub timestamp_fits : r.timestamp < 2 ^ 32
  pub confirmed_timestamp_fits : r.confirmed_timestamp < 2 ^ 32

pub data_message-IsPacket :
    (h : HashingContext) (r : Header) (ms : List (List ℕ))
    → IsHeader r
    → 28 + 8 * h.hash_length + message_length ms < 2 ^ 16
    → IsPacket h (data_message h r ms)
unfolding initialize_packet
data_message-IsPacket h r ms v fits = omega (arith, length-message_bytes ms)

-- Application messages whose data PDU fits its length field come through unchanged: the PDU is
-- built, packed, unpacked with a correct safety code, and the messages are read back from it.
pub messages_on_wire :
    (h : HashingContext) (r : Header) (ms : List (List ℕ))
    → IsHashing h
    → IsHeader r
    → 28 + 8 * h.hash_length + message_length ms < 2 ^ 16
    → (p : RastaPacket) × (bytes : List ℕ) × (q : RastaPacket) × (create_data_message h r ms
        ≡ some p)
      × (rasta_module_to_bytes h no_error p ≡ (no_error, some bytes))
      × (bytes_to_rasta_packet h bytes ≡ decoded q)
      × (q.checksum_correct ≡ true)
      × (q.sequence_number ≡ r.sequence_number)
      × (extract_message_data q ≡ some ms)
unfolding initialize_packet extract_message_data
messages_on_wire h r ms hh v fits =
    let p = data_message h r ms in
    let valid = data_message-IsPacket h r ms v fits in
    (
      p,
      pack_hashed h p p.payload,
      sealed h p,
      (extract-create_data_message h r ms (omega arith)).0,
      pack_lem h p hh valid,
      unpack_lem h p hh valid,
      refl,
      refl,
      (extract-create_data_message h r ms (omega arith)).1,
    )
