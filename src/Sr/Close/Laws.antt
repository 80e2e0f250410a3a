-- ===== src/Sr/Close/Laws.antt =====
-- What `sr_close_connection` leaves in every state.
use librasta.Base.{ℕ, ◌≡◌, Bool, true, false, none, [], ◌∷◌, ◌++◌, if◌then◌else◌, arith}
use librasta.Connection.{
  Connection, SrState, closed, down, start, kex_req, kex_resp, kex_auth, up, retrreq, retrrun, Env,
}
use librasta.Sr.Send.{redundancy_mux_send, send_disconnection_request, header_of_connection}
use librasta.Factory.{create_disconnection_request}
use librasta.Sr.Close.{
  sr_close_connection, sr_reset_connection, redundancy_channel_close, close_with_request,
  close_by_state, no_errors, sr_closed_connection,
}

pub record IsClosed (c : Connection) : Type 0 where
  pub state : c.current_state ≡ closed
  pub locked : c.hb_locked ≡ true
  pub silent : c.send_heartbeat_event.enabled ≡ false
  pub unsupervised : c.timeout_event.enabled ≡ false
  pub unlimited : c.connected_recv_buffer_size ≡ none
  pub counters : c.errors ≡ no_errors

-- Whether the peer is told.
abbrev pub announces : SrState → Bool
announces closed = false
announces down = false
announces start = true
announces kex_req = true
announces kex_resp = true
announces kex_auth = true
announces up = true
announces retrreq = true
announces retrrun = true

module _ (env : Env) where
  close_with_request-IsClosed :
      (reason details : ℕ) (c : Connection) → IsClosed (close_with_request env reason details c)
  unfolding redundancy_channel_close send_disconnection_request redundancy_mux_send
      sr_reset_connection
  close_with_request-IsClosed reason details c = ground arith

  close_silent-IsClosed :
      (c : Connection) → IsClosed (redundancy_channel_close env (sr_reset_connection c))
  unfolding redundancy_channel_close sr_reset_connection
  close_silent-IsClosed c = ground arith

  pub sr_closed_connection-IsClosed : (c : Connection) → IsClosed (sr_closed_connection env c)
  unfolding sr_closed_connection
  sr_closed_connection-IsClosed c = close_silent-IsClosed (record c { current_state = closed })

  close_by_state-IsClosed :
      (s : SrState) (reason details : ℕ) (c : Connection)
      → IsClosed (close_by_state env s reason details c)
  close_by_state-IsClosed closed reason details c = close_silent-IsClosed c
  close_by_state-IsClosed down reason details c = close_silent-IsClosed c
  close_by_state-IsClosed start reason details c = close_with_request-IsClosed reason details c
  close_by_state-IsClosed kex_req reason details c = close_with_request-IsClosed reason details c
  close_by_state-IsClosed kex_resp reason details c = close_with_request-IsClosed reason details c
  close_by_state-IsClosed kex_auth reason details c = close_with_request-IsClosed reason details c
  close_by_state-IsClosed up reason details c = close_with_request-IsClosed reason details c
  close_by_state-IsClosed retrreq reason details c = close_with_request-IsClosed reason details c
  close_by_state-IsClosed retrrun reason details c = close_with_request-IsClosed reason details c

  -- Closing a connection, in whatever state it is, leaves it closed, with its heartbeats locked and
  -- both timers off, no buffer size of a peer, and all error counters at 0.
  pub close-IsClosed :
      (reason details : ℕ) (c : Connection) → IsClosed (sr_close_connection env reason details c)
  unfolding sr_close_connection
  close-IsClosed reason details c = close_by_state-IsClosed c.current_state reason details c

  -- Closing hands the redundancy layer one packet, the disconnection request with the reason and
  -- the next sequence number, exactly if the connection was neither closed nor down.
  pub close-announces :
      (reason details : ℕ) (c : Connection)
      → (sr_close_connection env reason details c).handed ≡ (
          if announces c.current_state
          then c.handed
            ++ (create_disconnection_request env.hashing
                  (header_of_connection env c)
                  (record { details = details; reason = reason })
                ∷ [])
          else c.handed)
  unfolding sr_close_connection redundancy_channel_close send_disconnection_request
      redundancy_mux_send sr_reset_connection
  close-announces reason details c = ground arith
