-- ===== src/Sr/Api.antt =====
-- The calls of the user and the timed events: `sr_send`, `sr_connect` and `sr_disconnect` of
-- src/c/retransmission/safety_retransmission.c, `redundancy_channel_connect` of
-- src/c/redundancy/rasta_redundancy_channel.c, the timer callbacks of src/c/transport/events.c.
pub mod Sending
pub mod Transports
use librasta.Base.{
  ℕ, ◌+◌, ltb, ◌==◌, if◌then◌else◌, Bool, true, false, ◌||◌, Option, none, some, List, [], ◌∷◌,
  length, u32,
}
use librasta.Factory.{create_connection_request}
use librasta.DeferQueue.{deferqueue_clear}
use librasta.Fifo.{fifo_push, fifo_full}
use librasta.Transport.{TransportChannel}
use librasta.Connection.{
  Connection, Channel, SrState, closed, down, start, kex_req, kex_resp, kex_auth, up, retrreq,
  retrrun, client, Env,
}
use librasta.Sr.Clock.{
  cur_timestamp, tick, disable_timed_event, enable_send, enable_handshake_timeout,
}
use librasta.Sr.Send.{
  redundancy_mux_send, send_heartbeat, send_disconnection_request, header_of_connection,
  reason_user_request, reason_timeout, reason_service_not_allowed,
}
use librasta.Sr.Close.{
  sr_init_connection, sr_close_connection, redundancy_channel_close, sr_closed_connection,
}
use librasta.Sr.Queues.{data_send_event}
use librasta.Sr.Handlers.{set_state}
use librasta.Sr.Handshake.{rasta_version}

-- `redundancy_channel_init`
unfoldable pub redundancy_channel_init : Channel → Channel
redundancy_channel_init ch = record ch {
  seq_rx = 0;
  seq_tx = 0;
  defer_q = deferqueue_clear ch.defer_q;
  diagnostics_packet_buffer = deferqueue_clear ch.diagnostics_packet_buffer;
}

abbrev pub any_connected : List TransportChannel → Bool
any_connected [] = false
any_connected (t ∷ ts) = t.connected || any_connected ts

module _ (env : Env) where
  abbrev pub connect_all : ℕ → List TransportChannel → List TransportChannel
  connect_all n [] = []
  connect_all n (t ∷ ts) = env.transport.connect n t ∷ connect_all n ts

  -- `redundancy_channel_connect`: the channel, and whether the call returned 0.
  unfoldable pub redundancy_channel_connect : ℕ → Channel → Channel × Bool
  redundancy_channel_connect n ch =
      let ts = connect_all n ch.transport_channels in
      (record (redundancy_channel_init ch) { transport_channels = ts }, any_connected ts)

  -- `handle_closed_transport` of src/c/redundancy/rasta_red_multiplexer.c: true ends the event loop.
  unfoldable pub handle_closed_transport : Connection → Connection × Bool
  handle_closed_transport c =
      if any_connected c.channel.transport_channels
      then (c, false)
      else (sr_closed_connection env c, true)

  -- One message of the loop of `sr_send`; false is the return of -1.
  abbrev pub push_send : Bool × Connection → Connection × Bool
  push_send (true, c) = (enable_send env c, true)
  push_send (false, c) = (c, false)

  abbrev pub push_message : List ℕ → Connection → Bool × Connection
  push_message m c =
      let (pushed, f) = fifo_push c.fifo_send m in (pushed, record c { fifo_send = f })

  unfoldable pub send_message : List ℕ → Connection → Connection × Bool
  send_message m c =
      let flushed = if fifo_full c.fifo_send then data_send_event env c else c in
      push_send (push_message m flushed)

  unfoldable pub send_messages : List (List ℕ) → Connection → Connection × Bool
  send_messages [] c = (c, true)
  send_messages (m ∷ ms) c =
      let next = send_message m c in
      let rest = send_messages ms next.0 in if next.1 then rest else next

  abbrev pub send_in : SrState → List (List ℕ) → Connection → Connection × Bool
  send_in up messages c =
      if ltb c.config.max_packet (length messages) then (c, false) else send_messages messages c
  send_in closed messages c = (set_state closed c, true)
  send_in down messages c = (set_state closed c, true)
  send_in start messages c =
      (set_state closed (send_disconnection_request env reason_service_not_allowed 0 c), false)
  send_in kex_req messages c =
      (set_state closed (send_disconnection_request env reason_service_not_allowed 0 c), false)
  send_in kex_resp messages c =
      (set_state closed (send_disconnection_request env reason_service_not_allowed 0 c), false)
  send_in kex_auth messages c =
      (set_state closed (send_disconnection_request env reason_service_not_allowed 0 c), false)
  send_in retrreq messages c =
      (set_state closed (send_disconnection_request env reason_service_not_allowed 0 c), false)
  send_in retrrun messages c =
      (set_state closed (send_disconnection_request env reason_service_not_allowed 0 c), false)

  -- `sr_send`: true is the return of 0, false that of -1.
  unfoldable pub sr_send : Connection → List (List ℕ) → Connection × Bool
  sr_send c messages = send_in c.current_state messages c

  -- `sr_connect` up to the event loop; `none` if no transport channel connects.
  unfoldable pub connect_request : Connection → Connection
  connect_request c =
      let fresh = sr_init_connection client c in
      let numbered = record fresh {
        sn_t = fresh.config.initial_sequence_number;
        cs_t = 0;
        cts_r = cur_timestamp env fresh;
        t_i = fresh.config.t_max;
        ticks = fresh.ticks + 1;
      } in
      let conreq =
        create_connection_request env.hashing (header_of_connection env numbered)
          numbered.config.send_max rasta_version in
      let sent = redundancy_mux_send env conreq (record (tick numbered) { sn_i = numbered.sn_t }) in
      enable_handshake_timeout env
        (record sent { sn_t = u32 (sent.sn_t + 1); current_state = start })

  abbrev pub connect_outcome : SrState → Connection → Connection × Bool
  connect_outcome up c = (c, true)
  connect_outcome closed c = (redundancy_channel_close env c, false)
  connect_outcome down c = (redundancy_channel_close env c, false)
  connect_outcome start c = (redundancy_channel_close env c, false)
  connect_outcome kex_req c = (redundancy_channel_close env c, false)
  connect_outcome kex_resp c = (redundancy_channel_close env c, false)
  connect_outcome kex_auth c = (redundancy_channel_close env c, false)
  connect_outcome retrreq c = (redundancy_channel_close env c, false)
  connect_outcome retrrun c = (redundancy_channel_close env c, false)

  -- `sr_connect` where the handle's remote id is the configured one. `event_loop` stands for the
  -- run of the event system; true means that the connection is returned, false NULL.
  unfoldable pub sr_connect : (Connection → Connection) → Connection → Connection × Bool
  sr_connect event_loop c =
      let (ch, connected) = redundancy_channel_connect c.ticks c.channel in
      let opened = record c { channel = ch; ticks = c.ticks + 1 } in
      let after = event_loop (connect_request opened) in
      let quiet = record after {
        handshake_timeout_event = disable_timed_event after.handshake_timeout_event;
      } in
      if connected then connect_outcome quiet.current_state quiet else (opened, false)

  -- `sr_disconnect`
  unfoldable pub sr_disconnect : Connection → Connection
  sr_disconnect c =
      let ended = sr_close_connection env reason_user_request 0 c in
      record ended {
        timeout_event = disable_timed_event ended.timeout_event;
        send_heartbeat_event = disable_timed_event ended.send_heartbeat_event;
      }

  abbrev pub is_open : SrState → Bool
  is_open up = true
  is_open retrreq = true
  is_open retrrun = true
  is_open closed = false
  is_open down = false
  is_open start = false
  is_open kex_req = false
  is_open kex_resp = false
  is_open kex_auth = false

  -- `event_connection_expired`
  unfoldable pub event_connection_expired : Connection → Connection × ℕ
  event_connection_expired c =
      let ended =
        if is_open c.current_state then sr_close_connection env reason_timeout 0 c else c in
      if c.hb_locked then (c, 0) else (
        record ended {
          send_heartbeat_event = disable_timed_event ended.send_heartbeat_event;
          timeout_event = disable_timed_event ended.timeout_event;
        },
        1,
      )

  -- `heartbeat_send_event`
  unfoldable pub heartbeat_send_event : Connection → Connection
  heartbeat_send_event c =
      if c.hb_locked then c else (if is_open c.current_state then send_heartbeat env false c else c)
