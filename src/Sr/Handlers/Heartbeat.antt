-- ===== src/Sr/Handlers/Heartbeat.antt =====
-- `handle_hb` of src/c/retransmission/handlers.c.
pub mod Start
use librasta.Base.{ℕ, ◌==◌, if◌then◌else◌, true, false}
use librasta.Packet.{RastaPacket}
use librasta.Connection.{
  Connection, SrState, closed, down, start, kex_req, kex_resp, kex_auth, up, retrreq, retrrun, Role,
  client, server, Env,
}
use librasta.Sr.Clock.{enable_heartbeat, enable_timeout}
use librasta.Sr.Checks.{sr_cts_in_seq, sr_sn_in_seq}
use librasta.Sr.Send.{
  reason_unexpected_type, reason_seqn_error, reason_timeout, reason_protocol_error,
}
use librasta.Sr.Close.{sr_close_connection}
use librasta.Sr.Queues.{sr_remove_confirmed_messages}
use librasta.Sr.Diagnostics.{sr_update_timeout_interval, sr_diagnostic_update}
use librasta.Sr.Receiving.{update_connection_attrs, update_confirmed_attrs, set_cs_r}
use librasta.Sr.Handlers.{set_state}

module _ (env : Env) where
  -- The reason for a heartbeat that is out of sequence during the handshake.
  abbrev pub hb_reason : Role → ℕ
  hb_reason server = reason_seqn_error
  hb_reason client = reason_unexpected_type

  abbrev pub close_client : Role → Connection → Connection
  close_client client c = sr_close_connection env reason_unexpected_type 0 c
  close_client server c = c

  -- The state that the handshake ends in.
  abbrev pub established_state : ℕ → SrState
  established_state kex_mode = if kex_mode == 0 then up else kex_req

  unfoldable pub establish : Connection → RastaPacket → Connection
  establish c packet =
      let updated = set_cs_r packet (update_connection_attrs packet c) in
      let opened = record updated {
        current_state = established_state updated.config.kex_mode;
        hb_locked = false;
      } in
      record (enable_timeout env (enable_heartbeat env opened)) { is_new = true }

  -- The branch for START. Neither of the first two checks returns.
  unfoldable pub hb_start : Connection → RastaPacket → Connection × ℕ
  hb_start c packet =
      let ordered =
        if sr_sn_in_seq c packet then c else sr_close_connection env (hb_reason c.role) 0 c in
      let checked = close_client ordered.role ordered in
      if sr_cts_in_seq checked packet
      then (establish checked packet, 1)
      else (sr_close_connection env reason_protocol_error 0 checked, 0)

  abbrev pub finish_retransmission : SrState → Connection → Connection
  finish_retransmission retrrun c = set_state up c
  finish_retransmission closed c = c
  finish_retransmission down c = c
  finish_retransmission start c = c
  finish_retransmission kex_req c = c
  finish_retransmission kex_resp c = c
  finish_retransmission kex_auth c = c
  finish_retransmission up c = c
  finish_retransmission retrreq c = c

  unfoldable pub accept_hb : Connection → RastaPacket → Connection
  accept_hb c packet =
      let confirmed = sr_remove_confirmed_messages env (
        update_confirmed_attrs packet (
          update_connection_attrs packet (
            sr_diagnostic_update env packet
              (sr_update_timeout_interval env packet.confirmed_timestamp c)))) in
      finish_retransmission confirmed.current_state confirmed

  abbrev pub hb_checked : Connection → RastaPacket → Connection × ℕ
  hb_checked c packet =
      if sr_cts_in_seq c packet
      then (accept_hb c packet, 0)
      else (sr_close_connection env reason_timeout 0 c, 0)

  abbrev pub hb_in_seq : SrState → Connection → RastaPacket → Connection × ℕ
  hb_in_seq up c packet = hb_checked c packet
  hb_in_seq retrrun c packet = hb_checked c packet
  hb_in_seq kex_req c packet = hb_checked c packet
  hb_in_seq kex_resp c packet = hb_checked c packet
  hb_in_seq kex_auth c packet = hb_checked c packet
  hb_in_seq closed c packet = (c, 0)
  hb_in_seq down c packet = (c, 0)
  hb_in_seq start c packet = (c, 0)
  hb_in_seq retrreq c packet = (c, 0)

  -- The state changes, and no request is sent.
  abbrev pub hb_out_of_seq : SrState → Connection → Connection × ℕ
  hb_out_of_seq up c = (set_state retrreq c, 0)
  hb_out_of_seq retrrun c = (set_state retrreq c, 0)
  hb_out_of_seq closed c = (c, 0)
  hb_out_of_seq down c = (c, 0)
  hb_out_of_seq start c = (c, 0)
  hb_out_of_seq kex_req c = (c, 0)
  hb_out_of_seq kex_resp c = (c, 0)
  hb_out_of_seq kex_auth c = (c, 0)
  hb_out_of_seq retrreq c = (c, 0)

  unfoldable pub hb_running : Connection → RastaPacket → Connection × ℕ
  hb_running c packet =
      if sr_sn_in_seq c packet
      then hb_in_seq c.current_state c packet
      else hb_out_of_seq c.current_state c

  abbrev pub hb_by_state : SrState → Connection → RastaPacket → Connection × ℕ
  hb_by_state start c packet = hb_start c packet
  hb_by_state closed c packet = hb_running c packet
  hb_by_state down c packet = hb_running c packet
  hb_by_state kex_req c packet = hb_running c packet
  hb_by_state kex_resp c packet = hb_running c packet
  hb_by_state kex_auth c packet = hb_running c packet
  hb_by_state up c packet = hb_running c packet
  hb_by_state retrreq c packet = hb_running c packet
  hb_by_state retrrun c packet = hb_running c packet

  -- `handle_hb`
  unfoldable pub handle_hb : Connection → RastaPacket → Connection × ℕ
  handle_hb c packet = hb_by_state c.current_state c packet
