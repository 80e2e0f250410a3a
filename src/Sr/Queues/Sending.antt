-- ===== src/Sr/Queues/Sending.antt =====
-- `data_send_event` of src/c/transport/events.c: the messages that one call sends.
use Prim.Native.Nat.{min}
use librasta.Packet.RedundancyCodec.{crc_len}
use librasta.Sr.Send.Wire.{mux_send-clean}
use librasta.Base.{
  ℕ, ◌-◌, zero, suc, ◌+◌, ◌*◌, ◌≡◌, ◌≤◌, ◌<◌, refl, ap, ◌∙◌, ◌==◌, true, some, List, [], ◌∷◌, ◌++◌,
  length, take, drop, arith, Bool-cases, inl, inr, u32, length-drop, lt→ltb,
}
use librasta.Packet.{RastaPacket, no_error, IsHashing, IsPacket}
use librasta.Packet.Codec.{pack_hashed}
use librasta.Packet.Roundtrip.{pack_lem}
use librasta.Factory.{message_length, extract_message_data, initialize_packet}
use librasta.Factory.Messages.{
  data_message, extract-create_data_message, IsHeader, data_message-IsPacket,
}
use librasta.Fifo.{Fifo, IsFifo, fifo_push, fifo_get_size}
use librasta.Fifo.Laws.{appended}
use librasta.Connection.{Connection, Env}
use librasta.Sr.Clock.{tick}
use librasta.Sr.Send.{header_of_connection, redundancy_mux_send}
use librasta.Sr.Queues.{
  pop_n, send_backlog, has_backlog, send_from_queue, send_packet, enqueue_retransmission,
  disable_when_empty, data_send_event,
}
use librasta.Sr.Queues.Confirmed.{counted_fifo, fifo_pop-counted, counted}

-- Popping `n` of at least `n` messages yields the first `n`.
pub pop_n-take :
    (n : ℕ) (ms : List (List ℕ)) (m : ℕ)
    → n ≤ length ms
    → pop_n n (counted_fifo ms m) ≡ (some (take n ms), counted_fifo (drop n ms) m)
unfolding pop_n
pop_n-take zero ms m h = refl
pop_n-take (suc n) [] m h = absurd (omega arith)
pop_n-take (suc n) (b ∷ bs) m h =
    ground (arith, fifo_pop-counted b bs m, pop_n-take n bs m (omega arith))

module _ (env : Env) where
  -- How many messages one call is to take: all that wait, but no more than a packet may hold, nor
  -- than places are left for retransmission.
  abbrev pub amount : Connection → ℕ
  amount c = min c.config.max_packet (
      min (length c.fifo_send.elements)
        (c.config.max_retransmission_queue_size - length c.fifo_retransmission.elements))

  send_backlog-amount :
      (c : Connection)
      → IsFifo c.fifo_send
      → IsFifo c.fifo_retransmission
      → send_backlog env c ≡ amount c
  unfolding fifo_get_size
  send_backlog-amount c v w = ground arith

  abbrev pub batch : Connection → List (List ℕ)
  batch c = take (amount c) c.fifo_send.elements

  abbrev pub batch_packet : Connection → RastaPacket
  batch_packet c = data_message env.hashing (header_of_connection env c) (batch c)

  -- What a call that sends does to the queues, the numbers and the layer below.
  pub record Sends (c c' : Connection) : Type 0 where
    pub handed : c'.handed ≡ c.handed ++ (batch_packet c ∷ [])
    pub readable : extract_message_data (batch_packet c) ≡ some (batch c)
    pub left : c'.fifo_send.elements ≡ drop (amount c) c.fifo_send.elements
    pub counted_left : IsFifo c'.fifo_send
    pub kept :
        c'.fifo_retransmission.elements
        ≡ c.fifo_retransmission.elements
          ++ (pack_hashed env.hashing (batch_packet c) ((batch_packet c).payload) ∷ [])
    pub number : c'.sn_t ≡ u32 (c.sn_t + 1)
    pub no_fault : c'.fault ≡ c.fault

  -- When a call has something to send and room to keep it.
  pub record Ready (c : Connection) : Type 0 where
    pub sending : IsFifo c.fifo_send
    pub keeping : IsFifo c.fifo_retransmission
    pub hashing : IsHashing env.hashing
    pub header : IsHeader (header_of_connection env c)
    pub code_fits : crc_len env.crc ≤ 4
    pub fits : 36 + 8 * env.hashing.hash_length + message_length (batch c) + crc_len env.crc < 65536
    pub clean : c.lasterror ≡ no_error
    pub room : c.fifo_retransmission.size < c.config.max_retransmission_queue_size
    pub space : c.fifo_retransmission.size < c.fifo_retransmission.max_size
    pub waiting : 0 < c.fifo_send.size

  -- The connection once its batch is taken.
  abbrev popped : Connection → Connection
  popped c = record c {
    fifo_send = counted_fifo (drop (amount c) c.fifo_send.elements) c.fifo_send.max_size;
  }

  send_from_queue-packet :
      (c : Connection) (v : Ready c)
      → send_from_queue env c ≡ send_packet env (some (batch_packet c)) (tick (popped c))
  unfolding send_from_queue
  send_from_queue-packet c v = ground (
    arith,
    send_backlog-amount c v.sending v.keeping,
    counted env c.fifo_send v.sending,
    pop_n-take (amount c) c.fifo_send.elements c.fifo_send.max_size (omega arith),
    (extract-create_data_message env.hashing (header_of_connection env c) (batch c)
        (omega (arith, v.fits))).0,
  )

  pushed :
      (f : Fifo (List ℕ)) (b : List ℕ)
      → IsFifo f
      → f.size < f.max_size
      → (fifo_push f b).1.elements ≡ f.elements ++ (b ∷ [])
  unfolding fifo_push
  pushed f b v h = ground (arith, appended f.elements b f.size v.counted)

  backlog_waits : (c : Connection) → Ready c → has_backlog env c ≡ true
  unfolding fifo_get_size
  backlog_waits c v = ground (arith, v.room, v.waiting)

  popped-IsFifo : (c : Connection) → Ready c → IsFifo (popped c).fifo_send
  popped-IsFifo c v =
      omega
        (arith, length-drop (amount c) c.fifo_send.elements, v.sending.counted, v.sending.bounded)

  -- The connection once its batch is packed and kept.
  abbrev packed_connection : Connection → Connection
  packed_connection c = record (tick (popped c)) {
    lasterror = no_error;
    fifo_retransmission =
        (fifo_push c.fifo_retransmission
          (pack_hashed env.hashing (batch_packet c) ((batch_packet c).payload))).1;
  }

  batch_packet-IsPacket : (c : Connection) → Ready c → IsPacket env.hashing (batch_packet c)
  batch_packet-IsPacket c v =
      data_message-IsPacket env.hashing (header_of_connection env c) (batch c) v.header
        (omega (arith, v.fits))

  enqueued :
      (c : Connection) (v : Ready c)
      → enqueue_retransmission env (batch_packet c) (tick (popped c)) ≡ packed_connection c
  unfolding enqueue_retransmission
  enqueued c v =
      rw (v.clean, pack_lem env.hashing (batch_packet c) v.hashing (batch_packet-IsPacket c v))

  sent_clean :
      (c : Connection) (v : Ready c)
      → (redundancy_mux_send env (batch_packet c) (packed_connection c)).fault ≡ c.fault
  unfolding initialize_packet
  sent_clean c v =
      (mux_send-clean env (batch_packet c) (packed_connection c) v.hashing
        (batch_packet-IsPacket c v) v.code_fits (omega (arith, v.fits)) refl).1

  send_packet-Sends :
      (c : Connection) (v : Ready c)
      → Sends c (send_packet env (some (batch_packet c)) (tick (popped c)))
  unfolding redundancy_mux_send initialize_packet
  send_packet-Sends c v =
      let e = enqueued c v in
      record {
        handed = ap (λ d. d.handed ++ (batch_packet c ∷ [])) e;
        readable =
            (extract-create_data_message env.hashing (header_of_connection env c) (batch c)
              (omega (arith, v.fits))).1;
        left = ap (λ d. d.fifo_send.elements) e;
        counted_left = rw e (popped-IsFifo c v);
        kept =
            ap (λ d. d.fifo_retransmission.elements) e
            ∙ pushed c.fifo_retransmission _ v.keeping v.space;
        number = refl;
        no_fault = ap (λ d. (redundancy_mux_send env (batch_packet c) d).fault) e ∙ sent_clean c v;
      }

  disable-Sends : (c d : Connection) → Sends c d → Sends c (disable_when_empty env d)
  unfolding fifo_get_size
  disable-Sends c d s = elim (Bool-cases (d.fifo_send.size == 0)) [
    | inl e ↦ rw e (record {
      handed = s.handed;
      readable = s.readable;
      left = s.left;
      counted_left = s.counted_left;
      kept = s.kept;
      number = s.number;
      no_fault = s.no_fault;
    })
    | inr e ↦ rw e s
  ]

  -- With a hash of the announced length, a check code of four bytes at most and header fields that
  -- fit their types: a call with messages waiting, room in the retransmission queue, no packing error pending and a
  -- batch that is short enough to be packed in both layers sends one data packet. It carries the
  -- first messages of the send queue, as many as wait, as `max_packet` allows and as the
  -- retransmission queue has places left, whichever is least. The packet has
  -- the current sequence number, which then moves on by one, and the messages are read back from it
  -- in order. Exactly these messages leave the send queue, and the packed packet is kept for retransmission behind the
  -- earlier ones. No access leaves an array.
  pub data_send_event-Sends : (c : Connection) (v : Ready c) → Sends c (data_send_event env c)
  unfolding data_send_event fifo_get_size
  data_send_event-Sends c v =
      rw
        (
          lt→ltb c.fifo_retransmission.size c.config.max_retransmission_queue_size v.room,
          backlog_waits c v,
          send_from_queue-packet c v,
        )
        (disable-Sends c _ (send_packet-Sends c v))
