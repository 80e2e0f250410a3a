-- ===== src/Redundancy.antt =====
-- The receiving side of the redundancy layer: src/c/redundancy/rastaredundancy.c and `receive_packet`
-- of src/c/redundancy/rasta_red_multiplexer.c.
pub mod Accept
pub mod Deliver
pub mod Ends
pub mod Frames
pub mod Reseal
use librasta.Base.{
  ℕ, zero, suc, ◌+◌, ◌-◌, ◌*◌, ltb, leb, ◌==◌, if◌then◌else◌, Bool, true, false, not, ◌&&◌, ◌||◌,
  Option, none, some, List, [], ◌∷◌, length, get_elem?, slice?, u32, u64, sub64, le_short_to_host,
}
use librasta.Packet.{RastaPacket, RastaRedundancyPacket, RastaError}
use librasta.Packet.Codec.{
  Decoded, too_short, overread, decoded, decode_error, rasta_module_to_bytes, bytes_to_rasta_packet,
}
use librasta.Packet.RedundancyCodec.{RedundancyDecoded, bytes_to_rasta_redundancy_packet}
use librasta.DeferQueue.{
  DeferQueue, deferqueue_add, deferqueue_contains, deferqueue_isfull, deferqueue_get,
  deferqueue_get_ts, deferqueue_remove, deferqueue_smallest_seqnr, Wrapper,
}
use librasta.Transport.{Diagnostics, TransportChannel}
use librasta.Connection.{Connection, Channel, Env}
use librasta.Sr.Receive.{sr_receive}

-- The update of `transport_channels[i]`.
abbrev pub modify_at :
    (Diagnostics → Diagnostics) → ℕ → List TransportChannel → List TransportChannel
modify_at f i [] = []
modify_at f zero (t ∷ ts) = record t { diagnostics_data = f t.diagnostics_data } ∷ ts
modify_at f (suc i) (t ∷ ts) = t ∷ modify_at f i ts

abbrev pub diagnose : (Diagnostics → Diagnostics) → ℕ → Connection → Connection
diagnose f i c = record c {
  channel = record (c.channel) { transport_channels = modify_at f i c.channel.transport_channels };
}

abbrev pub count_received : Diagnostics → Diagnostics
count_received d = record d { received_packets = d.received_packets + 1 }

abbrev pub count_missed : Diagnostics → Diagnostics
count_missed d = record d { n_missed = d.n_missed + 1 }

abbrev pub count_drift : ℕ → Diagnostics → Diagnostics
count_drift delay d = record d {
  t_drift = u64 (d.t_drift + delay);
  t_drift2 = u64 (d.t_drift2 + u64 (delay * delay));
}

-- The packet of zeros that `deferqueue_get` returns for an absent number.
abbrev pub zero_packet : RastaRedundancyPacket
zero_packet = record {
  length = 0;
  reserve = 0;
  sequence_number = 0;
  inner = record {
    length = 0;
    type = 0;
    receiver_id = 0;
    sender_id = 0;
    sequence_number = 0;
    confirmed_sequence_number = 0;
    timestamp = 0;
    confirmed_timestamp = 0;
    payload = [];
    checksum = [];
    checksum_correct = false;
  };
  checksum_correct = false;
}

-- The last sequence number that may wait in the defer queue.
abbrev pub defer_limit : Connection → ℕ
defer_limit c = u64 (c.channel.seq_rx + u32 (c.config.n_deferqueue_size * 10))

-- The number of an array entry; a read outside the array leaves the counter.
abbrev pub entry_seqnr : ℕ → Option Wrapper → ℕ
entry_seqnr d none = d
entry_seqnr d (some w) = w.packet.sequence_number

-- `red_f_deferTmo` up to the delivery: the receive counter moves to the number that the search
-- for the smallest one finds in the array.
unfoldable pub skip_to_smallest : Connection → Connection
skip_to_smallest c =
    let q = c.channel.defer_q in
    record c {
      channel = record (c.channel) {
        seq_rx = entry_seqnr c.channel.seq_rx (get_elem? q.elements (deferqueue_smallest_seqnr q));
      };
    }

abbrev pub or_int : ℕ → ℕ → ℕ
or_int zero b = b
or_int (suc a) b = suc a

module _ (env : Env) where
  -- A packet that another transport channel brought before: only its delay counts.
  unfoldable pub receive_late : RastaRedundancyPacket → ℕ → Connection → Connection
  receive_late packet i c =
      let ts = deferqueue_get_ts c.channel.diagnostics_packet_buffer packet.sequence_number in
      let delay = sub64 (env.clock c.ticks) ts in
      let timed = record c { ticks = c.ticks + 1 } in
      if ts == 0
      then c
      else (if ltb c.config.t_seq delay
          then diagnose count_missed i timed
          else diagnose (count_drift delay) i timed)

  -- A packet into the defer queue; one that finds it full is dropped.
  unfoldable pub defer_packet : RastaRedundancyPacket → Connection → Connection
  defer_packet packet c = record c {
    channel = record (c.channel) {
      defer_q = (deferqueue_add env.qsort c.channel.defer_q packet (env.clock c.ticks)).1;
    };
    ticks = c.ticks + 1;
  }

  unfoldable pub note_arrival : RastaRedundancyPacket → Connection → Connection
  note_arrival packet c = record c {
    channel = record (c.channel) {
      diagnostics_packet_buffer =
          (deferqueue_add env.qsort c.channel.diagnostics_packet_buffer packet
            (env.clock c.ticks)).1;
    };
    ticks = c.ticks + 1;
  }

  -- The three cases of the sequence number.
  unfoldable pub receive_by_seq : RastaRedundancyPacket → ℕ → Connection → Connection × ℕ
  receive_by_seq packet i c =
      if ltb packet.sequence_number c.channel.seq_rx
      then (receive_late packet i c, 0)
      else if packet.sequence_number == c.channel.seq_rx
      then (defer_packet packet (note_arrival packet c), 1)
      else if leb packet.sequence_number (defer_limit c)
      then (if deferqueue_contains c.channel.defer_q packet.sequence_number
          then (c, 0)
          else (if deferqueue_isfull c.channel.defer_q then (c, 0) else (defer_packet packet c, 0)))
      else (c, 0)

  -- `red_f_receiveData`
  unfoldable pub red_f_receive_data : RastaRedundancyPacket → ℕ → Connection → Connection × ℕ
  red_f_receive_data packet i c =
      let counted = diagnose count_received i c in
      if packet.checksum_correct
      then (if c.channel.seq_rx == 0 && (c.channel.seq_tx == 0 && not (packet.sequence_number == 0))
          then (counted, 0)
          else receive_by_seq packet i counted)
      else (c, 0)

  -- `_deliver_message_to_upper_layer`; a packet that was not read is an unset one to the caller.
  abbrev pub deliver_decoded : Decoded → Connection → Connection × ℕ
  deliver_decoded too_short c = (record c { fault = true }, 0)
  deliver_decoded overread c = (record c { fault = true }, 0)
  deliver_decoded (decoded packet) c = sr_receive env c packet

  abbrev pub deliver_bytes : Option (List ℕ) → Connection → Connection × ℕ
  deliver_bytes none c = (record c { fault = true }, 0)
  deliver_bytes (some bytes) c =
      let packet = bytes_to_rasta_packet env.hashing bytes in
      deliver_decoded packet (record c { lasterror = decode_error c.lasterror packet })

  -- A queued packet is packed again, with a new safety code, and handed to `sr_receive`.
  unfoldable pub deliver_packet : RastaPacket → Connection → Connection × ℕ
  deliver_packet packet c =
      let (error, bytes) = rasta_module_to_bytes env.hashing c.lasterror packet in
      deliver_bytes bytes (record c { lasterror = error })

  abbrev pub drop_delivered : Connection → Connection
  drop_delivered c = record c {
    channel = record (c.channel) {
      defer_q = deferqueue_remove env.qsort c.channel.defer_q c.channel.seq_rx;
      seq_rx = u64 (c.channel.seq_rx + 1);
    };
  }

  -- One round of the loop of `red_f_deliverDeferQueue`.
  unfoldable pub deliver_one : Connection → Connection × ℕ
  deliver_one c =
      let packet = deferqueue_get zero_packet c.channel.defer_q c.channel.seq_rx in
      let (c', result) = deliver_packet packet.inner c in (drop_delivered c', result)

  -- The loop, on fuel: each round takes one entry from the queue. The Boolean tells that the loop
  -- ended by its test.
  unfoldable pub deliver_from : ℕ → ℕ → Connection → Connection × ℕ × Bool
  deliver_from zero result c =
      (c, result, not (deferqueue_contains c.channel.defer_q c.channel.seq_rx))
  deliver_from (suc fuel) result c =
      let (c', r) = deliver_one c in
      let rest = deliver_from fuel (or_int result r) c' in
      if deferqueue_contains c.channel.defer_q c.channel.seq_rx then rest else (c, result, true)

  -- `red_f_deliverDeferQueue`
  unfoldable pub red_f_deliver_defer_queue : Connection → Connection × ℕ × Bool
  red_f_deliver_defer_queue c = deliver_from c.channel.defer_q.count 0 c

  -- What `receive_packet` does with one decoded packet.
  unfoldable pub accept_packet : RastaRedundancyPacket → ℕ → Connection → Connection × ℕ
  accept_packet packet i c =
      if c.channel.associated_id == packet.inner.sender_id
      then (if deferqueue_isfull c.channel.defer_q then (c, 0) else red_f_receive_data packet i c)
      else (c, 0)

  -- `none` is an access outside the array.
  abbrev pub accept_decoded :
      RastaError × RedundancyDecoded → ℕ → Connection → Option (Connection × ℕ)
  accept_decoded (error, RedundancyDecoded.overread) i c = none
  accept_decoded (error, RedundancyDecoded.decoded packet) i c =
      some (accept_packet packet i (record c { lasterror = error }))

  -- `handle_received_data` on the claimed bytes, which may leave the buffer.
  unfoldable pub accept_slice : Option (List ℕ) → ℕ → Connection → Option (Connection × ℕ)
  accept_slice none i c = none
  accept_slice (some bytes) i c =
      accept_decoded
        (bytes_to_rasta_redundancy_packet env.hashing env.crc c.lasterror (env.stack c.ticks) bytes)
        i c

  -- The loop of `receive_packet` over the buffer, with `len_remaining` and `read_offset`; the
  -- remaining length is a `size_t`, which wraps. It stops at an access outside an array, after
  -- which the C program has no meaning. `none` is a loop that has not ended.
  unfoldable pub receive_from : ℕ → List ℕ → ℕ → ℕ → ℕ → ℕ → Connection → Option (Connection × ℕ)
  receive_from zero buffer remaining offset i result c =
      if remaining == 0 then some (c, result) else none
  receive_from (suc fuel) buffer remaining offset i result c =
      let size = le_short_to_host buffer offset in
      let rest : Option (Connection × ℕ) = elim (accept_slice (slice? buffer offset size) i c) [
        | none ↦ some (record c { fault = true }, result)
        | some (c', r) ↦
            receive_from fuel buffer (sub64 remaining size) (offset + size) i (or_int result r) c'
      ] in
      if remaining == 0 then some (c, result) else rest

  -- `receive_packet`: `len` bytes of the buffer were received. The offset grows in every round and
  -- stays inside the buffer, whose length is fuel enough.
  unfoldable pub receive_packet : List ℕ → ℕ → ℕ → Connection → Option (Connection × ℕ)
  receive_packet buffer len i c = receive_from (suc (length buffer)) buffer len 0 i 0 c

  -- `red_f_deferTmo`
  unfoldable pub red_f_defer_tmo : Connection → Connection × ℕ × Bool
  red_f_defer_tmo c = red_f_deliver_defer_queue (skip_to_smallest c)
