-- ===== src/Examples/Protocol.antt =====
-- The theorems about the safety and retransmission layer at concrete connections.
use librasta.Base.{
  ℕ, ◌≡◌, ◌↔◌, ◌++◌, refl, if◌then◌else◌, true, false, List, [], ◌∷◌, drop, replicate, arith,
}
use librasta.Packet.{RastaPacket}
use librasta.Packet.ConnType
use librasta.Packet.Codec.{pack_hashed, bytes_to_rasta_packet, pack_fields, header_of}
use librasta.Factory.{create_disconnection_request}
use librasta.Fifo.{fifo_get_size}
use librasta.Connection.{Connection, start, up}
use librasta.Sr.Checks.Spec.{IsValidData}
use librasta.Sr.Send.{
  header_of_connection, redundancy_mux_send, reason_timeout, reason_unexpected_type,
}
use librasta.Sr.Send.Wire.{AllConnected, Broadcast, mux_send-Broadcast}
use librasta.Sr.Close.{sr_close_connection}
use librasta.Sr.Close.Laws.{IsClosed, announces, close-IsClosed, close-announces}
use librasta.Sr.Queues.{remove_confirmed, data_send_event}
use librasta.Sr.Queues.Confirmed.{
  AllStored, Numbered, after, counted_fifo, remove_confirmed-after, remove_confirmed-drop,
  remove_confirmed-empties,
}
use librasta.Sr.Queues.Sending.{Ready, Sends, data_send_event-Sends}
use librasta.Sr.Handlers.Heartbeat.{handle_hb}
use librasta.Sr.Handlers.Heartbeat.Start.{handle_hb-reopens}
use librasta.Sr.Receive.{sr_receive}
use librasta.Sr.Checks.{sr_cts_in_seq, sr_sn_in_seq, sr_message_authentic}
use librasta.Sr.Receive.Refused.{Quiet, sr_receive-Quiet}
use librasta.Sr.Receive.Valid.{sr_receive-IsValidData}
use librasta.Sr.Receive.Edges.{Handled}
use librasta.Sr.Receive.States.{sr_receive-Handled}
use librasta.Sr.Api.{sr_send}
use librasta.Sr.Api.Sending.{Queues, sr_send-Queues}
use librasta.Examples.{counting_env, length_hashing, client_connection, up_connection, data_packet}

receive_example : Handled up_connection (sr_receive counting_env up_connection data_packet).0
receive_example = sr_receive-Handled counting_env up_connection data_packet

valid_example :
    ((sr_receive counting_env up_connection data_packet).1 ≡ 1)
    ↔ IsValidData up_connection data_packet
valid_example =
    sr_receive-IsValidData counting_env up_connection data_packet refl refl (omega arith)
      (omega arith)

-- A data packet from a stranger.
abbrev foreign_packet : RastaPacket
foreign_packet = record data_packet { sender_id = 3 }

foreign-refused : (sr_receive counting_env up_connection foreign_packet).1 ≡ 0
unfolding sr_receive sr_message_authentic
foreign-refused = refl

refused_example : Quiet up_connection (sr_receive counting_env up_connection foreign_packet).0
refused_example =
    sr_receive-Quiet counting_env up_connection foreign_packet refl refl foreign-refused

wire_example :
    (bytes : List ℕ) × Broadcast counting_env data_packet up_connection
      (redundancy_mux_send counting_env data_packet up_connection)
      bytes
unfolding AllConnected
wire_example =
    mux_send-Broadcast counting_env data_packet up_connection
      (record { digest_length = λ bytes. refl }) (omega arith) (omega arith) (omega arith) refl
      (refl, tt)

close_example : IsClosed (sr_close_connection counting_env reason_timeout 0 up_connection)
close_example = close-IsClosed counting_env reason_timeout 0 up_connection

announce_example : (sr_close_connection counting_env reason_timeout 0 up_connection).handed ≡ (
    if announces up_connection.current_state
    then up_connection.handed
      ++ (create_disconnection_request counting_env.hashing
            (header_of_connection counting_env up_connection)
            (record { details = 0; reason = reason_timeout })
          ∷ [])
    else up_connection.handed)
announce_example = close-announces counting_env reason_timeout 0 up_connection

-- Two messages wait in the send queue.
abbrev waiting_connection : Connection
waiting_connection = record up_connection {
  fifo_send = record { elements = (1 ∷ 2 ∷ []) ∷ (3 ∷ []) ∷ []; size = 2; max_size = 4 };
}

waiting-Ready : Ready counting_env waiting_connection
unfolding fifo_get_size
waiting-Ready = record {
  sending = omega arith;
  keeping = omega arith;
  hashing = record { digest_length = λ bytes. refl };
  header = omega arith;
  code_fits = omega arith;
  fits = omega arith;
  clean = refl;
  room = omega arith;
  space = omega arith;
  waiting = omega arith;
}

data_send_example :
    Sends counting_env waiting_connection (data_send_event counting_env waiting_connection)
data_send_example = data_send_event-Sends counting_env waiting_connection waiting-Ready

send_example :
    Queues counting_env
      ((4 ∷ []) ∷ [])
      waiting_connection
      (sr_send counting_env waiting_connection ((4 ∷ []) ∷ []))
send_example =
    sr_send-Queues counting_env waiting_connection ((4 ∷ []) ∷ []) refl (omega arith) (omega arith)
      (omega arith)

-- The packets 7 and 8 wait for their confirmation.
abbrev kept_packet : ℕ → RastaPacket
kept_packet n = record data_packet {
  receiver_id = 2;
  sender_id = 1;
  sequence_number = n;
  checksum = 28 ∷ replicate 7 0;
}

abbrev keeping_connection : ℕ → Connection
keeping_connection cs_r = record up_connection {
  cs_r = cs_r;
  fifo_retransmission = record {
    elements =
        pack_hashed length_hashing (kept_packet 7) []
        ∷ pack_hashed length_hashing (kept_packet 8) []
        ∷ [];
    size = 2;
    max_size = 4;
  };
}

kept-AllStored :
    AllStored length_hashing
      (keeping_connection 7).fifo_retransmission.elements
      (kept_packet 7 ∷ kept_packet 8 ∷ [])
unfolding AllStored bytes_to_rasta_packet pack_fields header_of
kept-AllStored = (refl, (refl, tt))

kept-Numbered : Numbered 7 (kept_packet 7 ∷ kept_packet 8 ∷ [])
unfolding Numbered
kept-Numbered = (refl, (refl, tt))

confirm_example :
    remove_confirmed counting_env (keeping_connection 7) ≡ record (keeping_connection 7) {
      fifo_retransmission =
          counted_fifo
            (after 7
              (kept_packet 7 ∷ kept_packet 8 ∷ [])
              (keeping_connection 7).fifo_retransmission.elements)
            4;
    }
confirm_example =
    remove_confirmed-after counting_env (keeping_connection 7) (kept_packet 7 ∷ kept_packet 8 ∷ [])
      (omega arith) kept-AllStored

drop_example :
    (remove_confirmed counting_env (keeping_connection 7)).fifo_retransmission.elements
    ≡ drop 1 (keeping_connection 7).fifo_retransmission.elements
drop_example =
    remove_confirmed-drop counting_env (keeping_connection 7) (kept_packet 7 ∷ kept_packet 8 ∷ []) 7
      0 (omega arith) kept-AllStored kept-Numbered refl

empties_example :
    (remove_confirmed counting_env (keeping_connection 6)).fifo_retransmission.elements ≡ []
empties_example =
    remove_confirmed-empties counting_env (keeping_connection 6)
      (kept_packet 7 ∷ kept_packet 8 ∷ []) 7 (omega arith) kept-AllStored kept-Numbered
      (omega arith)

-- A client that awaits the connection response, and a heartbeat for it.
abbrev starting_connection : Connection
starting_connection = record client_connection { current_state = start; sn_t = 8; sn_r = 5 }

abbrev early_heartbeat : RastaPacket
early_heartbeat = record data_packet { type = ConnType.hb }

early_in_seq : sr_sn_in_seq starting_connection early_heartbeat ≡ true
unfolding sr_sn_in_seq
early_in_seq = refl

early_in_time : sr_cts_in_seq starting_connection early_heartbeat ≡ true
unfolding sr_cts_in_seq
early_in_time = refl

reopen_example :
    ((handle_hb counting_env starting_connection early_heartbeat).0.current_state ≡ up)
    × ((handle_hb counting_env starting_connection early_heartbeat).0.hb_locked ≡ false)
    × ((handle_hb counting_env starting_connection early_heartbeat).0.timeout_event.enabled ≡ true)
    × ((handle_hb counting_env starting_connection early_heartbeat).0.handed
        ≡ starting_connection.handed
          ++ (create_disconnection_request counting_env.hashing
                (header_of_connection counting_env starting_connection)
                (record { details = 0; reason = reason_unexpected_type })
              ∷ []))
reopen_example =
    handle_hb-reopens counting_env starting_connection early_heartbeat refl refl refl early_in_seq
      early_in_time
