-- ===== src/Sr/Queues/Resending.antt =====
-- One packet that `sr_retransmit_data` of src/c/retransmission/safety_retransmission.c sends again.
use librasta.Base.{
  ℕ, ◌+◌, ◌*◌, ◌≡◌, ◌≤◌, ◌<◌, ◌^◌, refl, none, Option, ap, ◌∙◌, some, List, [], ◌∷◌, ◌++◌, arith,
  u32,
}
use librasta.Packet.ConnType
use librasta.Packet.{RastaPacket, no_error, IsHashing, IsPacket}
use librasta.Packet.Codec.{decoded, decode_error, pack_hashed, bytes_to_rasta_packet}
use librasta.Packet.Roundtrip.{pack_lem}
use librasta.Packet.RedundancyCodec.{crc_len}
use librasta.Factory.{
  message_length, extract_message_data, create_retransmitted_data_message, initialize_packet,
}
use librasta.Factory.Messages.{
  data_message, extract-create_data_message, IsHeader, data_message-IsPacket,
}
use librasta.Fifo.{IsFifo, fifo_push}
use librasta.Fifo.Laws.{appended, fifo_push-IsFifo}
use librasta.Connection.{Connection, Env}
use librasta.Sr.Clock.{tick}
use librasta.Sr.Send.{header_of_connection, redundancy_mux_send}
use librasta.Sr.Send.Wire.{mux_send-clean}
use librasta.Sr.Queues.{
  enqueue_retransmission, retransmit_packet, retransmit_messages, retransmit_decoded,
  retransmit_one,
}

module _ (env : Env) where
  -- What a connection that packs and sends without error has.
  pub record CanSend (c : Connection) : Type 0 where
    pub hashing : IsHashing env.hashing
    pub code_fits : crc_len env.crc ≤ 4
    pub empty_fits : 36 + 8 * env.hashing.hash_length + crc_len env.crc < 2 ^ 16
    pub header : IsHeader (header_of_connection env c)
    pub clean : c.lasterror ≡ no_error
    pub queue : IsFifo c.fifo_retransmission

  abbrev pub resent : Connection → List (List ℕ) → RastaPacket
  resent c ms = record (data_message env.hashing (header_of_connection env c) ms) {
    type = ConnType.retrdata;
  }

  pub resent-IsPacket :
      (c : Connection) (ms : List (List ℕ))
      → CanSend c
      → 28 + 8 * env.hashing.hash_length + message_length ms < 2 ^ 16
      → IsPacket env.hashing (resent c ms)
  unfolding initialize_packet
  resent-IsPacket c ms v fits =
      let d = data_message-IsPacket env.hashing (header_of_connection env c) ms v.header fits in
      record {
        length_exact = d.length_exact;
        length_fits = d.length_fits;
        type_fits = omega arith;
        receiver_fits = d.receiver_fits;
        sender_fits = d.sender_fits;
        sequence_fits = d.sequence_fits;
        confirmed_fits = d.confirmed_fits;
        timestamp_fits = d.timestamp_fits;
        confirmed_timestamp_fits = d.confirmed_timestamp_fits;
      }

  pub resent_lem :
      (c : Connection) (ms : List (List ℕ))
      → 28 + 8 * env.hashing.hash_length + message_length ms < 2 ^ 16
      → (create_retransmitted_data_message env.hashing (header_of_connection env c) ms
          ≡ some (resent c ms))
        × (extract_message_data (resent c ms) ≡ some ms)
  unfolding create_retransmitted_data_message extract_message_data
  resent_lem c ms fits =
      let made =
        extract-create_data_message env.hashing (header_of_connection env c) ms
          (omega (arith, fits)) in
      (
        ap
            (λ (o : Option RastaPacket). elim o [
              | none ↦ none
              | some p ↦ some (record p { type = ConnType.retrdata })
            ])
            made.0,
        made.1,
      )

  -- The kept bytes of a packet that carries the messages `ms`.
  pub record Keeps (bytes : List ℕ) (ms : List (List ℕ)) : Type 0 where
    pub packet : RastaPacket
    pub stored : bytes_to_rasta_packet env.hashing bytes ≡ decoded packet
    pub carried : extract_message_data packet ≡ some ms
    pub fits : 36 + 8 * env.hashing.hash_length + message_length ms + crc_len env.crc < 2 ^ 16

  pub retransmit_one-packet :
      (c : Connection) (bytes : List ℕ) (ms : List (List ℕ))
      → Keeps bytes ms
      → retransmit_one env bytes c ≡ retransmit_packet env (some (resent c ms)) (tick c)
  unfolding retransmit_one
  retransmit_one-packet c bytes ms k =
      ap (λ d. retransmit_decoded env d (record c { lasterror = decode_error c.lasterror d }))
        k.stored
      ∙ ap (λ o. retransmit_messages env o c) k.carried
      ∙ ap (λ o. retransmit_packet env o (tick c)) (resent_lem c ms (omega (arith, k.fits))).0

  abbrev pub packed : RastaPacket → List ℕ
  packed p = pack_hashed env.hashing p p.payload

  -- What the repeated sending of one packet does.
  pub record Resends (c : Connection) (q : RastaPacket) (c' : Connection) : Type 0 where
    pub handed : c'.handed ≡ c.handed ++ (q ∷ [])
    pub kept : c'.fifo_retransmission.elements ≡ c.fifo_retransmission.elements ++ (packed q ∷ [])
    pub grown : c'.fifo_retransmission.size ≡ c.fifo_retransmission.size + 1
    pub capacity : c'.fifo_retransmission.max_size ≡ c.fifo_retransmission.max_size
    pub number : c'.sn_t ≡ u32 (c.sn_t + 1)
    pub no_fault : c'.fault ≡ c.fault
    pub ready : CanSend c'

  module _ (clocks : (n : ℕ) → env.clock n < 2 ^ 32) (c : Connection) (v : CanSend c)
      (room : c.fifo_retransmission.size < c.fifo_retransmission.max_size) (q : RastaPacket)
      (valid : IsPacket env.hashing q) (wire_fits : 8 + q.length + crc_len env.crc < 65536) where
    abbrev queued : Connection
    queued = record (tick c) {
      lasterror = no_error;
      fifo_retransmission = (fifo_push c.fifo_retransmission (packed q)).1;
    }

    enqueued : enqueue_retransmission env q (tick c) ≡ queued
    unfolding enqueue_retransmission
    enqueued = rw (v.clean, pack_lem env.hashing q v.hashing valid) refl

    pushed :
        ((fifo_push c.fifo_retransmission (packed q)).1.elements
          ≡ c.fifo_retransmission.elements ++ (packed q ∷ []))
        × ((fifo_push c.fifo_retransmission (packed q)).1.size ≡ c.fifo_retransmission.size + 1)
        × ((fifo_push c.fifo_retransmission (packed q)).1.max_size ≡ c.fifo_retransmission.max_size)
    unfolding fifo_push
    pushed = ground (
      arith,
      appended c.fifo_retransmission.elements (packed q) c.fifo_retransmission.size v.queue.counted,
    )

    sent-IsHeader : IsHeader (header_of_connection env (retransmit_packet env (some q) (tick c)))
    unfolding redundancy_mux_send
    sent-IsHeader =
        let h = v.header in
        rw enqueued (record {
          receiver_fits = h.receiver_fits;
          sender_fits = h.sender_fits;
          sequence_fits = omega arith;
          confirmed_fits = h.confirmed_fits;
          timestamp_fits = clocks _;
          confirmed_timestamp_fits = h.confirmed_timestamp_fits;
        })

    sent_clean :
        ((redundancy_mux_send env q queued).lasterror ≡ no_error)
        × ((redundancy_mux_send env q queued).fault ≡ c.fault)
    sent_clean = mux_send-clean env q queued v.hashing valid v.code_fits wire_fits refl

    pub retransmit_packet-Resends : Resends c q (retransmit_packet env (some q) (tick c))
    unfolding redundancy_mux_send
    retransmit_packet-Resends = record {
      handed = ap (λ d. d.handed ++ (q ∷ [])) enqueued;
      kept = ap (λ d. d.fifo_retransmission.elements) enqueued ∙ pushed.0;
      grown = ap (λ d. d.fifo_retransmission.size) enqueued ∙ pushed.1;
      capacity = ap (λ d. d.fifo_retransmission.max_size) enqueued ∙ pushed.2;
      number = refl;
      no_fault = ap (λ d. (redundancy_mux_send env q d).fault) enqueued ∙ sent_clean.1;
      ready = record {
        hashing = v.hashing;
        code_fits = v.code_fits;
        empty_fits = v.empty_fits;
        header = sent-IsHeader;
        clean = ap (λ d. (redundancy_mux_send env q d).lasterror) enqueued ∙ sent_clean.0;
        queue = rw enqueued (fifo_push-IsFifo c.fifo_retransmission (packed q) v.queue);
      };
    }
