-- ===== src/Sr/Handshake.antt =====
-- Connection establishment: `handle_conreq` and `handle_conresp` of src/c/retransmission/handlers.c,
-- `version_accepted` of src/c/retransmission/protocol.c.
pub mod Laws
pub mod Whole
use librasta.Base.{ℕ, ◌+◌, ◌==◌, if◌then◌else◌, Bool, true, false, ◌||◌, some, List, [], ◌∷◌, u32}
use librasta.Packet.{RastaPacket, RastaError, no_error}
use librasta.Factory.{
  Header, RastaConnectionData, extract_rasta_connection_data, create_connection_response,
}
use librasta.Connection.{
  Connection, SrState, closed, down, start, kex_req, kex_resp, kex_auth, up, retrreq, retrrun, Role,
  client, server, VersionOrder, equal, minus_one, other, Env,
}
use librasta.Sr.Clock.{cur_timestamp, tick, enable_heartbeat, enable_timeout}
use librasta.Sr.Checks.{sr_check_packet}
use librasta.Sr.Send.{
  redundancy_mux_send, send_heartbeat, header_of_connection, reason_unexpected_type,
  reason_incompatible_version, reason_protocol_error,
}
use librasta.Sr.Close.{sr_init_connection, sr_close_connection}
use librasta.Sr.Receiving.{update_connection_attrs, update_confirmed_attrs, set_cs_r}
use librasta.Sr.Handlers.{set_state}

-- `RASTA_VERSION`, "0303"
abbrev pub rasta_version : List ℕ
rasta_version = b'0' ∷ b'3' ∷ b'0' ∷ b'3' ∷ []

abbrev pub is_equal : VersionOrder → Bool
is_equal equal = true
is_equal minus_one = false
is_equal other = false

abbrev pub is_minus_one : VersionOrder → Bool
is_minus_one equal = false
is_minus_one minus_one = true
is_minus_one other = false

module _ (env : Env) where
  abbrev pub compare_version : List ℕ → List ℕ → VersionOrder
  compare_version local_version remote_version = env.strncmp local_version remote_version 4

  -- The loop of `version_accepted` over the configured versions.
  unfoldable pub version_accepted : List (List ℕ) → List ℕ → Bool
  version_accepted [] version = false
  version_accepted (v ∷ vs) version =
      if is_equal (compare_version v version) then true else version_accepted vs version

  unfoldable pub conreq_version_ok : Connection → List ℕ → Bool
  conreq_version_ok c version =
      is_equal (compare_version rasta_version version)
      || (is_minus_one (compare_version rasta_version version)
          || version_accepted c.config.accepted_versions version)

  -- The connection request is answered and the server waits for the first heartbeat.
  unfoldable pub send_conresp : Connection → RastaPacket → RastaConnectionData → Connection
  send_conresp c packet peer =
      let updated = update_confirmed_attrs packet (update_connection_attrs packet c) in
      let ready = record updated {
        connected_recv_buffer_size = some peer.send_max;
        t_i = updated.config.t_max;
      } in
      let conresp =
        create_connection_response env.hashing
          (record (header_of_connection env ready) { confirmed_timestamp = ready.cts_r })
          ready.config.send_max rasta_version in
      redundancy_mux_send env conresp
        (record (tick ready) { sn_t = u32 (ready.sn_t + 1); current_state = start })

  abbrev pub init_server : Connection → Connection
  init_server c = record (sr_init_connection server c) {
    sn_t = c.config.initial_sequence_number;
    sn_i = c.config.initial_sequence_number;
    current_state = down;
  }

  unfoldable pub conreq_in_closed : Connection → RastaPacket → Connection
  conreq_in_closed c packet =
      let fresh = init_server c in
      let peer = (extract_rasta_connection_data no_error packet).0 in
      if sr_check_packet fresh packet
      then (if conreq_version_ok fresh peer.version
          then send_conresp fresh packet peer
          else sr_close_connection env reason_incompatible_version 0 fresh)
      else sr_close_connection env reason_protocol_error 0 fresh

  abbrev pub conreq_by_state : SrState → Connection → RastaPacket → Connection
  conreq_by_state closed c packet = conreq_in_closed c packet
  conreq_by_state down c packet = conreq_in_closed c packet
  conreq_by_state start c packet = sr_close_connection env reason_unexpected_type 0 c
  conreq_by_state kex_req c packet = sr_close_connection env reason_unexpected_type 0 c
  conreq_by_state kex_resp c packet = sr_close_connection env reason_unexpected_type 0 c
  conreq_by_state kex_auth c packet = sr_close_connection env reason_unexpected_type 0 c
  conreq_by_state up c packet = sr_close_connection env reason_unexpected_type 0 c
  conreq_by_state retrreq c packet = sr_close_connection env reason_unexpected_type 0 c
  conreq_by_state retrrun c packet = sr_close_connection env reason_unexpected_type 0 c

  -- `handle_conreq`
  unfoldable pub handle_conreq : Connection → RastaPacket → Connection
  handle_conreq c packet = conreq_by_state c.current_state c packet

  -- The client's end of the handshake.
  unfoldable pub complete_handshake : Connection → RastaPacket → RastaConnectionData → Connection
  complete_handshake c packet peer =
      let updated = set_cs_r packet (update_connection_attrs packet c) in
      let greeted = send_heartbeat env true (set_state up updated) in
      let beating = enable_heartbeat env greeted in
      enable_timeout env
        (record beating { hb_locked = false; connected_recv_buffer_size = some peer.send_max })

  abbrev pub conresp_by_role : Role → Connection → RastaPacket → Connection
  conresp_by_role server c packet = sr_close_connection env reason_unexpected_type 0 c
  conresp_by_role client c packet =
      let peer = (extract_rasta_connection_data no_error packet).0 in
      if version_accepted c.config.accepted_versions peer.version
      then complete_handshake c packet peer
      else sr_close_connection env reason_incompatible_version 0 c

  abbrev pub conresp_by_state : SrState → Connection → RastaPacket → Connection
  conresp_by_state start c packet = conresp_by_role c.role c packet
  conresp_by_state retrreq c packet = sr_close_connection env reason_unexpected_type 0 c
  conresp_by_state retrrun c packet = sr_close_connection env reason_unexpected_type 0 c
  conresp_by_state up c packet = sr_close_connection env reason_unexpected_type 0 c
  conresp_by_state closed c packet = c
  conresp_by_state down c packet = c
  conresp_by_state kex_req c packet = c
  conresp_by_state kex_resp c packet = c
  conresp_by_state kex_auth c packet = c

  -- `handle_conresp`
  unfoldable pub handle_conresp : Connection → RastaPacket → Connection
  handle_conresp c packet =
      if sr_check_packet c packet
      then conresp_by_state c.current_state c packet
      else sr_close_connection env reason_protocol_error 0 c
