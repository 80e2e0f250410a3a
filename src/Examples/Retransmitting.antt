-- ===== src/Examples/Retransmitting.antt =====
-- The theorem about `sr_retransmit_data` of src/c/retransmission/safety_retransmission.c at a
-- connection that keeps two packets.
use librasta.Base.{ℕ, List, [], ◌∷◌, replicate}
use librasta.Packet.{RastaPacket}
use librasta.Packet.Codec.{pack_hashed}
use librasta.Connection.{Connection}
use librasta.Examples.{length_hashing, up_connection, data_packet}

-- A data packet with one message of two bytes.
abbrev kept_packet : ℕ → ℕ → RastaPacket
kept_packet n b = record data_packet {
  length = 40;
  sequence_number = n;
  payload = 2 ∷ 0 ∷ b ∷ 9 ∷ [];
  checksum = 32 ∷ replicate 7 0;
}

abbrev kept_bytes : ℕ → ℕ → List ℕ
kept_bytes n b = pack_hashed length_hashing (kept_packet n b) (2 ∷ 0 ∷ b ∷ 9 ∷ [])

abbrev keeping_connection : Connection
keeping_connection = record up_connection {
  fifo_retransmission = record {
    elements = kept_bytes 7 4 ∷ kept_bytes 8 5 ∷ [];
    size = 2;
    max_size = 4;
  };
}
