-- ===== src/Sr/Keeps/Handling.antt =====
-- What the queues, the diagnostics and the closing leave alone.
use librasta.Base.{ℕ, true, Option, none, some, List, [], ◌∷◌, arith}
use librasta.Packet.{RastaPacket}
use librasta.Packet.Codec.{
  Decoded, too_short, overread, decoded, decode_error, bytes_to_rasta_packet,
}
use librasta.Sr.Clock.{tick}
use librasta.Fifo.{fifo_get_size}
use librasta.Connection.{Connection, Env}
use librasta.Sr.Send.{redundancy_mux_send, send_disconnection_request}
use librasta.Sr.Close.{sr_reset_connection, sr_close_connection, redundancy_channel_close}
use librasta.Sr.Queues.{
  data_send_event, send_from_queue, send_popped, send_packet, enqueue_retransmission, pop_n,
  send_backlog, remove_confirmed, sr_remove_confirmed_messages, retransmit_one, retransmit_all,
  retransmit_decoded, retransmit_messages, retransmit_packet, retransmit_popped, sr_retransmit_data,
  disable_when_empty,
}
use librasta.Sr.Diagnostics.{sr_update_timeout_interval, sr_diagnostic_update}
use librasta.Sr.Receiving.{add_message, add_messages, add_extracted, sr_add_app_messages_to_buffer}
use librasta.Sr.Keeps.{
  KeepsReceiving, Keeps, Keeps-refl, Keeps-trans, mux_send-Keeps, heartbeat-Keeps, enqueue-Keeps,
}

module _ (env : Env) where
  send_packet-Keeps : (o : Option RastaPacket) (c : Connection) → Keeps c (send_packet env o c)
  send_packet-Keeps none c = ground arith
  send_packet-Keeps (some p) c =
      ground (arith, enqueue-Keeps env p c, mux_send-Keeps env p (enqueue_retransmission env p c))

  send_popped-Keeps : (o : Option (List (List ℕ))) (c : Connection) → Keeps c (send_popped env o c)
  send_popped-Keeps none c = ground arith
  send_popped-Keeps (some ms) c = Keeps-trans {b = tick c} (ground arith) (send_packet-Keeps _ _)

  send_from_queue-Keeps : (c : Connection) → Keeps c (send_from_queue env c)
  unfolding send_from_queue
  send_from_queue-Keeps c =
      Keeps-trans {b = record c { fifo_send = (pop_n (send_backlog env c) c.fifo_send).1 }}
        (ground arith) (send_popped-Keeps _ _)

  disable_when_empty-Keeps : (c : Connection) → Keeps c (disable_when_empty env c)
  disable_when_empty-Keeps c = ground arith

  pub data_send_event-Keeps : (c : Connection) → Keeps c (data_send_event env c)
  unfolding data_send_event
  data_send_event-Keeps c =
      Keeps-trans (ground (arith, send_from_queue-Keeps c, Keeps-refl c))
        (disable_when_empty-Keeps _)

  remove_confirmed-Keeps : (c : Connection) → Keeps c (remove_confirmed env c)
  unfolding remove_confirmed
  remove_confirmed-Keeps c = ground arith

  pub sr_remove_confirmed_messages-Keeps :
      (c : Connection) → Keeps c (sr_remove_confirmed_messages env c)
  unfolding sr_remove_confirmed_messages
  sr_remove_confirmed_messages-Keeps c = Keeps-trans (remove_confirmed-Keeps c) (
      ground (
        arith,
        data_send_event-Keeps (remove_confirmed env c),
        Keeps-refl (remove_confirmed env c),
      ))

  retransmit_packet-Keeps :
      (o : Option RastaPacket) (c : Connection) → Keeps c (retransmit_packet env o c)
  retransmit_packet-Keeps none c = ground arith
  retransmit_packet-Keeps (some p) c =
      ground (arith, enqueue-Keeps env p c, mux_send-Keeps env p (enqueue_retransmission env p c))

  retransmit_messages-Keeps :
      (o : Option (List (List ℕ))) (c : Connection) → Keeps c (retransmit_messages env o c)
  retransmit_messages-Keeps none c = ground arith
  retransmit_messages-Keeps (some ms) c =
      Keeps-trans {b = tick c} (ground arith) (retransmit_packet-Keeps _ _)

  retransmit_decoded-Keeps : (d : Decoded) (c : Connection) → Keeps c (retransmit_decoded env d c)
  retransmit_decoded-Keeps too_short c = ground arith
  retransmit_decoded-Keeps overread c = ground arith
  retransmit_decoded-Keeps (decoded p) c = retransmit_messages-Keeps _ c

  retransmit_one-Keeps : (bytes : List ℕ) (c : Connection) → Keeps c (retransmit_one env bytes c)
  unfolding retransmit_one
  retransmit_one-Keeps bytes c =
      Keeps-trans
        {b = record c {
          lasterror = decode_error c.lasterror (bytes_to_rasta_packet env.hashing bytes);
        }}
        (ground arith) (retransmit_decoded-Keeps _ _)

  retransmit_all-Keeps :
      (packets : List (List ℕ)) (c : Connection) → Keeps c (retransmit_all env packets c)
  unfolding retransmit_all
  retransmit_all-Keeps [] c = Keeps-refl c
  retransmit_all-Keeps (bytes ∷ rest) c =
      Keeps-trans (retransmit_one-Keeps bytes c) (retransmit_all-Keeps rest _)

  retransmit_popped-Keeps :
      (o : Option (List (List ℕ))) (c : Connection) → Keeps c (retransmit_popped env o c)
  retransmit_popped-Keeps none c = ground arith
  retransmit_popped-Keeps (some ps) c = retransmit_all-Keeps ps c

  pub sr_retransmit_data-Keeps : (c : Connection) → Keeps c (sr_retransmit_data env c)
  unfolding sr_retransmit_data
  sr_retransmit_data-Keeps c =
      Keeps-trans
        (Keeps-trans
          {b = record c {
            fifo_retransmission =
                (pop_n (fifo_get_size c.fifo_retransmission) c.fifo_retransmission).1;
          }}
          (ground arith) (retransmit_popped-Keeps _ _))
        (heartbeat-Keeps env true _)

  pub timeout-Keeps : (n : ℕ) (c : Connection) → Keeps c (sr_update_timeout_interval env n c)
  unfolding sr_update_timeout_interval
  timeout-Keeps n c = ground arith

  pub diagnostic-Keeps : (p : RastaPacket) (c : Connection) → Keeps c (sr_diagnostic_update env p c)
  unfolding sr_diagnostic_update
  diagnostic-Keeps p c = ground arith

  add_message-Keeps :
      (p : RastaPacket) (m : List ℕ) (c : Connection) → Keeps c (add_message env p m c)
  unfolding add_message
  add_message-Keeps p m c =
      Keeps-trans (Keeps-trans (ground arith) (timeout-Keeps _ _)) (diagnostic-Keeps p _)

  add_messages-Keeps :
      (p : RastaPacket) (ms : List (List ℕ)) (c : Connection) → Keeps c (add_messages env p ms c)
  unfolding add_messages
  add_messages-Keeps p [] c = Keeps-refl c
  add_messages-Keeps p (m ∷ ms) c = ground (
    arith,
    Keeps-refl c,
    Keeps-trans (add_message-Keeps p m c) (add_messages-Keeps p ms (add_message env p m c)),
  )

  add_extracted-Keeps :
      (p : RastaPacket) (o : Option (List (List ℕ))) (c : Connection)
      → Keeps c (add_extracted env p o c)
  add_extracted-Keeps p none c = ground arith
  add_extracted-Keeps p (some ms) c = add_messages-Keeps p ms c

  pub sr_add_app_messages-Keeps :
      (p : RastaPacket) (c : Connection) → Keeps c (sr_add_app_messages_to_buffer env p c)
  unfolding sr_add_app_messages_to_buffer
  sr_add_app_messages-Keeps p c = add_extracted-Keeps p _ c

  pub close-KeepsReceiving :
      (r d : ℕ) (c : Connection) → KeepsReceiving c (sr_close_connection env r d c)
  unfolding sr_close_connection redundancy_channel_close send_disconnection_request
      redundancy_mux_send sr_reset_connection
  close-KeepsReceiving r d c = ground arith
