-- ===== src/Sr/Queues.antt =====
-- The send and retransmission queues: `data_send_event` of src/c/transport/events.c,
-- `sr_remove_confirmed_messages` and `sr_retransmit_data` of
-- src/c/retransmission/safety_retransmission.c.
pub mod Confirmed
pub mod Sending
pub mod Resending
pub mod Retransmission
use librasta.Base.{
  ℕ, zero, suc, ◌+◌, ◌-◌, ltb, leb, ◌==◌, if◌then◌else◌, Bool, true, false, Option, none, some,
  List, [], ◌∷◌, u32,
}
use librasta.Packet.{RastaPacket, RastaError}
use librasta.Packet.Codec.{
  Decoded, too_short, overread, decoded, decode_error, rasta_module_to_bytes, bytes_to_rasta_packet,
}
use librasta.Factory.{create_data_message, create_retransmitted_data_message, extract_message_data}
use librasta.Fifo.{Fifo, fifo_pop, fifo_push, fifo_full, fifo_get_size}
use librasta.Connection.{Connection, Env}
use librasta.Sr.Clock.{tick, reschedule_heartbeat, disable_timed_event}
use librasta.Sr.Send.{header_of_connection, redundancy_mux_send, send_heartbeat}

abbrev pub faulted : Connection → Connection
faulted c = record c { fault = true }

-- `n` pops in a row; `none` is the use of a NULL element.
abbrev pub cons_popped :
    List ℕ → Option (List (List ℕ)) × Fifo (List ℕ) → Option (List (List ℕ)) × Fifo (List ℕ)
cons_popped m (none, f) = (none, f)
cons_popped m (some ms, f) = (some (m ∷ ms), f)

unfoldable pub pop_n : ℕ → Fifo (List ℕ) → Option (List (List ℕ)) × Fifo (List ℕ)
pop_n zero f = (some [], f)
pop_n (suc n) f = elim (fifo_pop f).0 [
  | none ↦ (none, f)
  | some m ↦ cons_popped m (pop_n n (fifo_pop f).1)
]

-- What one round of the confirmation loop leaves: the pending error and whether to go on, stop
-- at the confirmed packet, or fault.
pub data Round : Type 0 where
  another stop broken : RastaError → Round

-- What the whole loop leaves.
pub record Confirmation : Type 0 where
  pub rest : Fifo (List ℕ)
  pub lasterror : RastaError
  pub fault : Bool

module _ (env : Env) where
  -- Packing a packet and pushing the bytes to the retransmission queue, which drops them if full.
  abbrev pub push_retransmission : Option (List ℕ) → Connection → Connection
  push_retransmission none c = faulted c
  push_retransmission (some bytes) c = record c {
    fifo_retransmission = (fifo_push c.fifo_retransmission bytes).1;
  }

  unfoldable pub enqueue_retransmission : RastaPacket → Connection → Connection
  enqueue_retransmission packet c =
      let (error, bytes) = rasta_module_to_bytes env.hashing c.lasterror packet in
      push_retransmission bytes (record c { lasterror = error })

  -- The packet of one data message, from its construction to the rescheduled heartbeat.
  abbrev pub send_packet : Option RastaPacket → Connection → Connection
  send_packet none c = faulted c
  send_packet (some packet) c =
      let sent = redundancy_mux_send env packet (enqueue_retransmission packet c) in
      reschedule_heartbeat env (record sent { sn_t = u32 (packet.sequence_number + 1) })

  abbrev pub send_popped : Option (List (List ℕ)) → Connection → Connection
  send_popped none c = faulted c
  send_popped (some messages) c =
      send_packet (create_data_message env.hashing (header_of_connection env c) messages) (tick c)

  -- How many messages one call takes from the send queue.
  abbrev pub send_backlog : Connection → ℕ
  send_backlog c =
      let available =
        c.config.max_retransmission_queue_size - fifo_get_size c.fifo_retransmission in
      let queued = fifo_get_size c.fifo_send in
      let fitting = if ltb available queued then available else queued in
      if leb c.config.max_packet fitting then c.config.max_packet else fitting

  abbrev pub has_backlog : Connection → Bool
  has_backlog c =
      let available =
        c.config.max_retransmission_queue_size - fifo_get_size c.fifo_retransmission in
      ltb 0
        (if ltb available (fifo_get_size c.fifo_send) then available else fifo_get_size c.fifo_send)

  unfoldable pub send_from_queue : Connection → Connection
  send_from_queue c =
      let (messages, rest) = pop_n (send_backlog c) c.fifo_send in
      send_popped messages (record c { fifo_send = rest })

  abbrev pub disable_when_empty : Connection → Connection
  disable_when_empty c =
      if fifo_get_size c.fifo_send == 0
      then record c { send_event = disable_timed_event c.send_event }
      else c

  -- `data_send_event`
  unfoldable pub data_send_event : Connection → Connection
  data_send_event c = disable_when_empty (
      if ltb (fifo_get_size c.fifo_retransmission) c.config.max_retransmission_queue_size
      then (if has_backlog c then send_from_queue c else c)
      else c)

  unfoldable pub confirm_round : ℕ → RastaError → List ℕ → Round
  confirm_round cs_r last bytes = elim (bytes_to_rasta_packet env.hashing bytes) [
    | too_short ↦ broken (decode_error last too_short)
    | overread ↦ broken last
    | decoded packet ↦ if packet.sequence_number == cs_r then stop last else another last
  ]

  -- The loop of `sr_remove_confirmed_messages`. Each round pops, so the size of the queue bounds
  -- the rounds.
  unfoldable pub confirm_from : ℕ → ℕ → RastaError → Fifo (List ℕ) → Confirmation
  confirm_from zero cs_r last f = record { rest = f; lasterror = last; fault = false }
  confirm_from (suc fuel) cs_r last f = elim (fifo_pop f).0 [
    | none ↦ record { rest = (fifo_pop f).1; lasterror = last; fault = false }
    | some bytes ↦ elim (confirm_round cs_r last bytes) [
      | another error ↦ confirm_from fuel cs_r error (fifo_pop f).1
      | stop error ↦ record { rest = (fifo_pop f).1; lasterror = error; fault = false }
      | broken error ↦ record { rest = (fifo_pop f).1; lasterror = error; fault = true }
    ]
  ]

  unfoldable pub remove_confirmed : Connection → Connection
  remove_confirmed c =
      let r =
        confirm_from (fifo_get_size c.fifo_retransmission) c.cs_r c.lasterror
          c.fifo_retransmission in
      record c {
        fifo_retransmission = r.rest;
        lasterror = r.lasterror;
        fault = if r.fault then true else c.fault;
      }

  -- `sr_remove_confirmed_messages`
  unfoldable pub sr_remove_confirmed_messages : Connection → Connection
  sr_remove_confirmed_messages c =
      let confirmed = remove_confirmed c in
      if fifo_full confirmed.fifo_send then data_send_event confirmed else confirmed

  -- One round of the second loop of `sr_retransmit_data`.
  abbrev pub retransmit_packet : Option RastaPacket → Connection → Connection
  retransmit_packet none c = faulted c
  retransmit_packet (some packet) c =
      let sent = redundancy_mux_send env packet (enqueue_retransmission packet c) in
      reschedule_heartbeat env (record sent { sn_t = u32 (c.sn_t + 1) })

  abbrev pub retransmit_messages : Option (List (List ℕ)) → Connection → Connection
  retransmit_messages none c = faulted c
  retransmit_messages (some messages) c =
      retransmit_packet
        (create_retransmitted_data_message env.hashing (header_of_connection env c) messages)
        (tick c)

  abbrev pub retransmit_decoded : Decoded → Connection → Connection
  retransmit_decoded too_short c = faulted c
  retransmit_decoded overread c = faulted c
  retransmit_decoded (decoded old) c = retransmit_messages (extract_message_data old) c

  unfoldable pub retransmit_one : List ℕ → Connection → Connection
  retransmit_one bytes c =
      let old = bytes_to_rasta_packet env.hashing bytes in
      retransmit_decoded old (record c { lasterror = decode_error c.lasterror old })

  unfoldable pub retransmit_all : List (List ℕ) → Connection → Connection
  retransmit_all [] c = c
  retransmit_all (bytes ∷ rest) c = retransmit_all rest (retransmit_one bytes c)

  abbrev pub retransmit_popped : Option (List (List ℕ)) → Connection → Connection
  retransmit_popped none c = faulted c
  retransmit_popped (some packets) c = retransmit_all packets c

  -- `sr_retransmit_data`
  unfoldable pub sr_retransmit_data : Connection → Connection
  sr_retransmit_data c =
      let (packets, rest) = pop_n (fifo_get_size c.fifo_retransmission) c.fifo_retransmission in
      send_heartbeat env true (retransmit_popped packets (record c { fifo_retransmission = rest }))
