-- ===== src/Sr/Close.antt =====
-- Resetting and closing a connection: src/c/retransmission/safety_retransmission.c and
-- `redundancy_channel_close` of src/c/redundancy/rasta_redundancy_channel.c.
pub mod Laws
use librasta.Base.{ℕ, Bool, true, false, none, List, [], ◌∷◌, if◌then◌else◌}
use librasta.Transport.{TransportChannel}
use librasta.Connection.{
  Connection, Channel, ErrorCounters, SrState, closed, down, start, kex_req, kex_resp, kex_auth, up,
  retrreq, retrrun, Role, client, server, Env,
}
use librasta.Sr.Clock.{disable_timed_event}
use librasta.Sr.Send.{send_disconnection_request}

abbrev pub no_errors : ErrorCounters
no_errors = record { safety = 0; address = 0; type = 0; sn = 0; cs = 0 }

unfoldable pub sr_reset_connection : Connection → Connection
sr_reset_connection c = record c {
  current_state = closed;
  connected_recv_buffer_size = none;
  hb_locked = true;
  send_heartbeat_event = disable_timed_event c.send_heartbeat_event;
  timeout_event = disable_timed_event c.timeout_event;
  errors = no_errors;
}

unfoldable pub sr_init_connection : Role → Connection → Connection
unfolding sr_reset_connection
sr_init_connection role c = record (sr_reset_connection c) { role = role }

-- A client that closed the channel has no valid socket either.
abbrev pub close_socket : Role → TransportChannel → TransportChannel
close_socket client t = if t.connected then t else record t { socket_open = false }
close_socket server t = t

module _ (env : Env) where
  unfoldable pub close_all : Role → List TransportChannel → List TransportChannel
  close_all role [] = []
  close_all role (t ∷ ts) = close_socket role (env.transport.close_channel t) ∷ close_all role ts

  unfoldable pub redundancy_channel_close : Connection → Connection
  redundancy_channel_close c = record c {
    channel = record (c.channel) {
      transport_channels = close_all c.role c.channel.transport_channels;
    };
  }

  -- The branch that tells the peer.
  abbrev pub close_with_request : ℕ → ℕ → Connection → Connection
  close_with_request reason details c =
      redundancy_channel_close
        (record (send_disconnection_request env reason details (sr_reset_connection c)) {
          current_state = closed;
        })

  abbrev pub close_by_state : SrState → ℕ → ℕ → Connection → Connection
  close_by_state closed reason details c = redundancy_channel_close (sr_reset_connection c)
  close_by_state down reason details c = redundancy_channel_close (sr_reset_connection c)
  close_by_state start reason details c = close_with_request reason details c
  close_by_state kex_req reason details c = close_with_request reason details c
  close_by_state kex_resp reason details c = close_with_request reason details c
  close_by_state kex_auth reason details c = close_with_request reason details c
  close_by_state up reason details c = close_with_request reason details c
  close_by_state retrreq reason details c = close_with_request reason details c
  close_by_state retrrun reason details c = close_with_request reason details c

  unfoldable pub sr_close_connection : ℕ → ℕ → Connection → Connection
  sr_close_connection reason details c = close_by_state c.current_state reason details c

  -- `sr_closed_connection`: the transport is gone, so nothing is sent.
  unfoldable pub sr_closed_connection : Connection → Connection
  sr_closed_connection c =
      redundancy_channel_close (sr_reset_connection (record c { current_state = closed }))
