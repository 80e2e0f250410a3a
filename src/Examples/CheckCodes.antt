-- ===== src/Examples/CheckCodes.antt =====
-- The theorems about the CRC at concrete options and messages.
use librasta.Base.{
  Bool, take, bytes_eq, ◌∙◌, ℕ, ◌≡◌, ◌≢◌, refl, true, false, inl, inr, List, [], ◌∷◌, replicate,
  arith,
}
use librasta.Packet.{RastaRedundancyPacket, no_error}
use librasta.Packet.Codec.{bytes_to_rasta_packet, header_of, pack_fields}
use librasta.Packet.Roundtrip.{sealed}
use librasta.Packet.RedundancyCodec.{crc_bytes, RedundancyDecoded, bytes_to_rasta_redundancy_packet}
use librasta.Crc.{
  CrcOptions, crc_init_opt_b, crc_init_opt_c, crc_init_opt_e, crc_calculate, crc_of_options,
  reflect, reflect_rounds, crc_of_table, reflected_bytes, fill_table, table_entry, shift_bits,
  crc_generate_table, shift_bit,
}
use librasta.Crc.Reference.{crc_reference, divide, message_bits, bits_up, clock, mirror}
use librasta.Crc.Table.{IsReady}
use librasta.Crc.Options.{crc_init_opt_b-IsReady, crc_init_opt_c-IsReady, crc_init_opt_e-IsReady}
use librasta.Crc.Calculate.{crc_calculate-eq-crc_reference, crc_calculate_again}
use librasta.Crc.Detection.{OneByteOff, crc_calculate-OneByteOff}
use librasta.Crc.Corruption.{wrong_byte-refused}
use librasta.Examples.{length_hashing, data_packet}

abbrev empty_table : List ℕ
empty_table = replicate 256 0

-- "123456789"
abbrev digits_text : List ℕ
digits_text = 49 ∷ 50 ∷ 51 ∷ 52 ∷ 53 ∷ 54 ∷ 55 ∷ 56 ∷ 57 ∷ []

-- The check value that is published for CRC-32C.
check_value : (crc_calculate (crc_init_opt_c empty_table) digits_text).1 ≡ 0xE3069283
unfolding crc_calculate crc_of_table reflect reflect_rounds crc_generate_table fill_table
    table_entry shift_bits shift_bit reflected_bytes
check_value = refl

reference_example :
    (crc_calculate (crc_init_opt_c empty_table) digits_text).1
    ≡ crc_reference (crc_init_opt_c empty_table) digits_text
reference_example =
    crc_calculate-eq-crc_reference (crc_init_opt_c empty_table) digits_text
      (crc_init_opt_c-IsReady empty_table refl) (omega arith)

again_example :
    ((crc_calculate (crc_calculate (crc_init_opt_b empty_table) (1 ∷ 2 ∷ [])).0 digits_text).1
      ≡ crc_reference (crc_init_opt_b empty_table) digits_text)
    × IsReady (crc_calculate (crc_init_opt_b empty_table) (1 ∷ 2 ∷ [])).0
again_example =
    crc_calculate_again (crc_init_opt_b empty_table) (1 ∷ 2 ∷ []) digits_text
      (crc_init_opt_b-IsReady empty_table refl) (omega arith)

detect_example :
    (crc_calculate (crc_init_opt_e empty_table) (1 ∷ 2 ∷ 3 ∷ [])).1
    ≢ (crc_calculate (crc_init_opt_e empty_table) (1 ∷ 7 ∷ 3 ∷ [])).1
detect_example =
    crc_calculate-OneByteOff (crc_init_opt_e empty_table) (1 ∷ 2 ∷ 3 ∷ []) (1 ∷ 7 ∷ 3 ∷ [])
      (crc_init_opt_e-IsReady empty_table refl) refl (omega arith) (omega arith)
      (inr (refl, inl (omega arith, refl)))

-- A redundancy layer PDU around `data_packet` with its check code of 16 bits, but for one byte of
-- the receiver's identity.
abbrev framed : ℕ → List ℕ
framed receiver =
    44 ∷ 0 ∷ 0 ∷ 0 ∷ 5 ∷ 0 ∷ 0 ∷ 0 ∷ 36 ∷ 0 ∷ 96 ∷ 24 ∷ receiver ∷ 0 ∷ 0 ∷ 0 ∷ 2 ∷ 0 ∷ 0 ∷ 0 ∷ 5 ∷ 0
    ∷ 0 ∷ 0 ∷ 8 ∷ 0 ∷ 0 ∷ 0 ∷ 3 ∷ 0 ∷ 0 ∷ 0 ∷ 0 ∷ 0 ∷ 0 ∷ 0 ∷ 28 ∷ 0 ∷ 0 ∷ 0 ∷ 0 ∷ 0 ∷ 0 ∷ 0 ∷ 21
    ∷ 10 ∷ []

abbrev framed_packet : ℕ → Bool → RastaRedundancyPacket
framed_packet receiver correct = record {
  length = 44;
  reserve = 0;
  sequence_number = 5;
  inner = record (sealed length_hashing data_packet) { receiver_id = receiver };
  checksum_correct = correct;
}

abbrev framed_options : CrcOptions
framed_options = crc_init_opt_e empty_table

-- The check code of the first 44 bytes is compared with the last two.
sent_decodes :
    bytes_to_rasta_redundancy_packet length_hashing
      (crc_of_options framed_options)
      no_error
      data_packet
      (framed 1)
    ≡ (
      no_error,
      RedundancyDecoded.decoded (
          framed_packet 1 (
            bytes_eq
              (crc_bytes (crc_of_options framed_options) (take 44 (framed 1)))
              (21 ∷ 10 ∷ []))),
    )
unfolding bytes_to_rasta_redundancy_packet bytes_to_rasta_packet header_of pack_fields
sent_decodes = refl

received_decodes :
    bytes_to_rasta_redundancy_packet length_hashing
      (crc_of_options framed_options)
      no_error
      data_packet
      (framed 3)
    ≡ (
      no_error,
      RedundancyDecoded.decoded (
          framed_packet 3 (
            bytes_eq
              (crc_bytes (crc_of_options framed_options) (take 44 (framed 3)))
              (21 ∷ 10 ∷ []))),
    )
unfolding bytes_to_rasta_redundancy_packet bytes_to_rasta_packet header_of pack_fields
received_decodes = refl

framed_value : (crc_calculate framed_options (take 44 (framed 1))).1 ≡ 2581
unfolding crc_reference divide message_bits bits_up clock mirror
framed_value =
    crc_calculate-eq-crc_reference framed_options (take 44 (framed 1))
      (crc_init_opt_e-IsReady empty_table refl) (omega arith)
    ∙ refl

framed_correct :
    bytes_eq (crc_bytes (crc_of_options framed_options) (take 44 (framed 1))) (21 ∷ 10 ∷ []) ≡ true
framed_correct = rw framed_value refl

framed_off : OneByteOff (framed 1) (framed 3)
framed_off = inr (
  refl,
  inr (
    refl,
    inr (
      refl,
      inr (
        refl,
        inr (
          refl,
          inr (
            refl,
            inr (
              refl,
              inr (refl, inr (refl, inr (refl, inr (refl, inr (refl, inl (omega arith, refl)))))),
            ),
          ),
        ),
      ),
    ),
  ),
)

wrong_byte_example :
    bytes_eq (crc_bytes (crc_of_options framed_options) (take 44 (framed 3))) (21 ∷ 10 ∷ []) ≡ false
wrong_byte_example =
    wrong_byte-refused length_hashing framed_options 2 (framed 1) (framed 3) no_error no_error
      no_error no_error data_packet data_packet
      (framed_packet 1
        (bytes_eq (crc_bytes (crc_of_options framed_options) (take 44 (framed 1))) (21 ∷ 10 ∷ [])))
      (framed_packet 3
        (bytes_eq (crc_bytes (crc_of_options framed_options) (take 44 (framed 3))) (21 ∷ 10 ∷ [])))
      (crc_init_opt_e-IsReady empty_table refl) refl refl (omega arith) (omega arith) (omega arith)
      framed_off sent_decodes framed_correct received_decodes
