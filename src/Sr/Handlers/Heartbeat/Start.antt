-- ===== src/Sr/Handlers/Heartbeat/Start.antt =====
-- A heartbeat in state START (`handle_hb` of src/c/retransmission/handlers.c).
use librasta.Base.{◌≡◌, ◌++◌, ◌∷◌, [], true, false, arith}
use librasta.Packet.{RastaPacket}
use librasta.Factory.{create_disconnection_request}
use librasta.Connection.{Connection, start, up, client, Env}
use librasta.Sr.Checks.{sr_sn_in_seq, sr_cts_in_seq}
use librasta.Sr.Send.{
  header_of_connection, redundancy_mux_send, send_disconnection_request, reason_unexpected_type,
}
use librasta.Sr.Close.{sr_close_connection, sr_reset_connection, redundancy_channel_close}
use librasta.Sr.Receiving.{update_connection_attrs}
use librasta.Sr.Handlers.Heartbeat.{handle_hb, hb_start, establish}

-- A client that awaits the connection response and gets a heartbeat, in sequence and in time,
-- sends a disconnection request, and is nevertheless established: the state is UP, with its
-- heartbeats unlocked and its supervision on.
pub handle_hb-reopens :
    (env : Env) (c : Connection) (p : RastaPacket) (role : c.role ≡ client)
    (state : c.current_state ≡ start) (plain : c.config.kex_mode ≡ 0)
    (order : sr_sn_in_seq c p ≡ true) (time : sr_cts_in_seq c p ≡ true)
    → ((handle_hb env c p).0.current_state ≡ up)
      × ((handle_hb env c p).0.hb_locked ≡ false)
      × ((handle_hb env c p).0.timeout_event.enabled ≡ true)
      × ((handle_hb env c p).0.handed
          ≡ c.handed
            ++ (create_disconnection_request env.hashing
                  (header_of_connection env c)
                  (record { details = 0; reason = reason_unexpected_type })
                ∷ []))
unfolding handle_hb hb_start establish sr_close_connection sr_reset_connection
    redundancy_channel_close send_disconnection_request redundancy_mux_send update_connection_attrs
    sr_cts_in_seq
handle_hb-reopens env c p role state plain order time = ground arith
