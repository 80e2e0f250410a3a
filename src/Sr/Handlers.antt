-- ===== src/Sr/Handlers.antt =====
-- The packet handlers of src/c/retransmission/handlers.c for an established connection. Each
-- returns the connection and the `int` that ends the event loop.
pub mod Heartbeat
use librasta.Base.{ℕ, ◌+◌, ◌==◌, if◌then◌else◌, true, false, u32}
use librasta.Packet.{RastaPacket}
use librasta.Connection.{
  Connection, SrState, closed, down, start, kex_req, kex_resp, kex_auth, up, retrreq, retrrun, Env,
}
use librasta.Sr.Checks.{sr_cts_in_seq, sr_sn_in_seq}
use librasta.Sr.Send.{
  send_retransmission_request, send_retransmission_response, reason_unexpected_type,
  reason_protocol_error, reason_retr_failed,
}
use librasta.Sr.Close.{sr_reset_connection, sr_close_connection, redundancy_channel_close}
use librasta.Sr.Queues.{sr_remove_confirmed_messages, sr_retransmit_data}
use librasta.Sr.Receiving.{
  sr_add_app_messages_to_buffer, update_connection_attrs, update_confirmed_attrs, set_cs_r,
}

abbrev pub count_type_error : Connection → Connection
count_type_error c = record c { errors = record (c.errors) { type = u32 (c.errors.type + 1) } }

abbrev pub count_sn_error : Connection → Connection
count_sn_error c = record c { errors = record (c.errors) { sn = u32 (c.errors.sn + 1) } }

abbrev pub count_cs_error : Connection → Connection
count_cs_error c = record c { errors = record (c.errors) { cs = u32 (c.errors.cs + 1) } }

abbrev pub set_state : SrState → Connection → Connection
set_state s c = record c { current_state = s }

module _ (env : Env) where
  -- `handle_discreq`
  unfoldable pub handle_discreq : Connection → RastaPacket → Connection × ℕ
  handle_discreq c packet =
      (redundancy_channel_close env (sr_reset_connection (set_state closed c)), 1)

  -- A valid data packet in state UP.
  unfoldable pub accept_data : Connection → RastaPacket → Connection
  accept_data c packet = sr_remove_confirmed_messages env (
      update_confirmed_attrs packet
        (update_connection_attrs packet (sr_add_app_messages_to_buffer env packet c)))

  abbrev pub close_unexpected : Connection → Connection × ℕ
  close_unexpected c = (sr_close_connection env reason_unexpected_type 0 c, 0)

  abbrev pub data_in_seq : SrState → Connection → RastaPacket → Connection × ℕ
  data_in_seq start c packet = close_unexpected c
  data_in_seq kex_req c packet = close_unexpected c
  data_in_seq kex_resp c packet = close_unexpected c
  data_in_seq kex_auth c packet = close_unexpected c
  data_in_seq up c packet =
      if sr_cts_in_seq c packet
      then (accept_data c packet, 1)
      else (sr_close_connection env reason_protocol_error 0 (count_cs_error c), 0)
  data_in_seq retrrun c packet =
      if sr_cts_in_seq c packet
      then (update_connection_attrs packet c, 0)
      else (sr_close_connection env reason_protocol_error 0 c, 0)
  data_in_seq closed c packet = (c, 0)
  data_in_seq down c packet = (c, 0)
  data_in_seq retrreq c packet = (c, 0)

  abbrev pub request_retransmission : Connection → Connection
  request_retransmission c = set_state retrreq (send_retransmission_request env c)

  abbrev pub data_out_of_seq : SrState → Connection → Connection × ℕ
  data_out_of_seq start c = close_unexpected c
  data_out_of_seq retrrun c = (request_retransmission (count_sn_error c), 0)
  data_out_of_seq up c = (request_retransmission (count_sn_error c), 0)
  data_out_of_seq closed c = (c, 0)
  data_out_of_seq down c = (c, 0)
  data_out_of_seq kex_req c = (c, 0)
  data_out_of_seq kex_resp c = (c, 0)
  data_out_of_seq kex_auth c = (c, 0)
  data_out_of_seq retrreq c = (c, 0)

  -- `handle_data`
  unfoldable pub handle_data : Connection → RastaPacket → Connection × ℕ
  handle_data c packet =
      if sr_sn_in_seq c packet
      then data_in_seq c.current_state c packet
      else data_out_of_seq c.current_state c

  -- A retransmission request while retransmitted data is awaited closes the connection first.
  abbrev pub retrreq_conflict : SrState → Connection → Connection
  retrreq_conflict retrrun c = sr_close_connection env reason_retr_failed 0 c
  retrreq_conflict closed c = c
  retrreq_conflict down c = c
  retrreq_conflict start c = c
  retrreq_conflict kex_req c = c
  retrreq_conflict kex_resp c = c
  retrreq_conflict kex_auth c = c
  retrreq_conflict up c = c
  retrreq_conflict retrreq c = c

  -- What both branches of `handle_retrreq` do once `cs_r` is set.
  unfoldable pub answer_retrreq : Connection → Connection
  answer_retrreq c =
      sr_retransmit_data env (send_retransmission_response env (sr_remove_confirmed_messages env c))

  -- `handle_retrreq`; after the branch in sequence the state is set to what it is.
  unfoldable pub handle_retrreq : Connection → RastaPacket → Connection × ℕ
  handle_retrreq c packet =
      if sr_sn_in_seq c packet
      then (
        answer_retrreq
            (set_cs_r packet (update_connection_attrs packet (retrreq_conflict c.current_state c))),
        0,
      )
      else (set_state retrreq (answer_retrreq (set_cs_r packet c)), 0)

  abbrev pub retrresp_in : SrState → Connection → RastaPacket → Connection × ℕ
  retrresp_in retrreq c packet =
      (update_confirmed_attrs packet (update_connection_attrs packet (set_state retrrun c)), 0)
  retrresp_in closed c packet = close_unexpected c
  retrresp_in down c packet = close_unexpected c
  retrresp_in start c packet = close_unexpected c
  retrresp_in kex_req c packet = close_unexpected c
  retrresp_in kex_resp c packet = close_unexpected c
  retrresp_in kex_auth c packet = close_unexpected c
  retrresp_in up c packet = close_unexpected c
  retrresp_in retrrun c packet = close_unexpected c

  -- `handle_retrresp`
  unfoldable pub handle_retrresp : Connection → RastaPacket → Connection × ℕ
  handle_retrresp c packet = retrresp_in c.current_state c packet

  unfoldable pub accept_retrdata : Connection → RastaPacket → Connection
  accept_retrdata c packet =
      set_cs_r packet (update_connection_attrs packet (sr_add_app_messages_to_buffer env packet c))

  abbrev pub retrdata_in_seq : SrState → Connection → RastaPacket → Connection × ℕ
  retrdata_in_seq up c packet = close_unexpected c
  retrdata_in_seq retrrun c packet =
      if sr_cts_in_seq c packet
      then (accept_retrdata c packet, 1)
      else (sr_close_connection env reason_protocol_error 0 c, 0)
  retrdata_in_seq closed c packet = (c, 0)
  retrdata_in_seq down c packet = (c, 0)
  retrdata_in_seq start c packet = (c, 0)
  retrdata_in_seq kex_req c packet = (c, 0)
  retrdata_in_seq kex_resp c packet = (c, 0)
  retrdata_in_seq kex_auth c packet = (c, 0)
  retrdata_in_seq retrreq c packet = (c, 0)

  abbrev pub retrdata_out_of_seq : SrState → Connection → Connection × ℕ
  retrdata_out_of_seq up c = close_unexpected c
  retrdata_out_of_seq retrrun c = (request_retransmission c, 0)
  retrdata_out_of_seq closed c = (c, 0)
  retrdata_out_of_seq down c = (c, 0)
  retrdata_out_of_seq start c = (c, 0)
  retrdata_out_of_seq kex_req c = (c, 0)
  retrdata_out_of_seq kex_resp c = (c, 0)
  retrdata_out_of_seq kex_auth c = (c, 0)
  retrdata_out_of_seq retrreq c = (c, 0)

  -- `handle_retrdata`
  unfoldable pub handle_retrdata : Connection → RastaPacket → Connection × ℕ
  handle_retrdata c packet =
      if sr_sn_in_seq c packet
      then retrdata_in_seq c.current_state c packet
      else retrdata_out_of_seq c.current_state c
