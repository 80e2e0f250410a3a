-- ===== src/Sr/Receiving.antt =====
-- `sr_add_app_messages_to_buffer` and the attribute updates of a valid packet
-- (src/c/retransmission/safety_retransmission.c and src/c/retransmission/handlers.c).
use librasta.Base.{ℕ, ◌+◌, if◌then◌else◌, Option, none, some, List, [], ◌∷◌, u32}
use librasta.Packet.{RastaPacket}
use librasta.Factory.{extract_message_data}
use librasta.Fifo.{fifo_push, fifo_full}
use librasta.Connection.{Connection, Env}
use librasta.Sr.Queues.{faulted}
use librasta.Sr.Diagnostics.{sr_update_timeout_interval, sr_diagnostic_update}

module _ (env : Env) where
  -- One message of the loop: into the receive queue, then timeout and diagnostics.
  unfoldable pub add_message : RastaPacket → List ℕ → Connection → Connection
  add_message packet m c = sr_diagnostic_update env packet (
      sr_update_timeout_interval env packet.confirmed_timestamp
        (record c { fifo_receive = (fifo_push c.fifo_receive m).1 }))

  -- The loop; a full queue ends it, and the messages left are dropped.
  unfoldable pub add_messages : RastaPacket → List (List ℕ) → Connection → Connection
  add_messages packet [] c = c
  add_messages packet (m ∷ ms) c =
      let rest = add_messages packet ms (add_message packet m c) in
      if fifo_full c.fifo_receive then c else rest

  abbrev pub add_extracted : RastaPacket → Option (List (List ℕ)) → Connection → Connection
  add_extracted packet none c = faulted c
  add_extracted packet (some ms) c = add_messages packet ms c

  unfoldable pub sr_add_app_messages_to_buffer : RastaPacket → Connection → Connection
  sr_add_app_messages_to_buffer packet c = add_extracted packet (extract_message_data packet) c

unfoldable pub update_connection_attrs : RastaPacket → Connection → Connection
update_connection_attrs packet c = record c {
  sn_r = u32 (packet.sequence_number + 1);
  cs_t = packet.sequence_number;
  ts_r = packet.timestamp;
}

unfoldable pub update_confirmed_attrs : RastaPacket → Connection → Connection
update_confirmed_attrs packet c = record c {
  cts_r = packet.confirmed_timestamp;
  cs_r = packet.confirmed_sequence_number;
}

abbrev pub set_cs_r : RastaPacket → Connection → Connection
set_cs_r packet c = record c { cs_r = packet.confirmed_sequence_number }
