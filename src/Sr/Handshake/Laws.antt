-- ===== src/Sr/Handshake/Laws.antt =====
-- The steps of the handshake between a client and a server, from `sr_connect` on.
use librasta.Base.{ℕ, ◌+◌, ◌≡◌, ◌<◌, refl, sym, ◌∙◌, [], ◌∷◌, ◌++◌, true, u32, arith}
use librasta.Packet.{RastaPacket, no_error, IsHashing}
use librasta.Packet.ConnType
use librasta.Packet.Roundtrip.{sealed}
use librasta.Factory.{
  RastaConnectionData, create_connection_request, create_connection_response, create_heartbeat,
  extract_rasta_connection_data, initialize_packet,
}
use librasta.Factory.Connection.{
  extract-create_connection_request, extract-create_connection_response,
}
use librasta.Connection.{Connection, closed, start, up, client, server, equal, Env}
use librasta.Sr.Clock.{cur_timestamp}
use librasta.Sr.Checks.{
  sr_check_packet, sr_message_authentic, sr_sn_range_valid, sr_cs_valid, sr_sn_in_seq,
  sr_cts_in_seq,
}
use librasta.Sr.Send.{header_of_connection, redundancy_mux_send, send_heartbeat}
use librasta.Sr.Close.{sr_reset_connection, sr_init_connection}
use librasta.Sr.Receiving.{update_connection_attrs, update_confirmed_attrs, set_cs_r}
use librasta.Sr.Handshake.{
  rasta_version, compare_version, version_accepted, conreq_version_ok, conreq_in_closed,
  handle_conreq, handle_conresp, send_conresp, init_server, complete_handshake, conresp_by_state,
}
use librasta.Sr.Handlers.{set_state}
use librasta.Sr.Handlers.Heartbeat.{handle_hb, hb_start, establish}
use librasta.Sr.Receive.{sr_receive, handle_received_packet}
use librasta.Sr.Api.{connect_request}

-- A client before `sr_connect` and a server that is closed, configured for each other.
pub record Peers (e f : Env) (c s : Connection) : Type 0 where
  pub server_closed : s.current_state ≡ closed
  pub to_server : c.remote_id ≡ s.my_id
  pub to_client : s.remote_id ≡ c.my_id
  pub client_number : c.config.initial_sequence_number < 4294967296
  pub server_number : s.config.initial_sequence_number + 1 < 4294967296
  pub client_limit : c.config.send_max < 65536
  pub server_limit : s.config.send_max < 65536
  pub server_version : compare_version f rasta_version rasta_version ≡ equal
  pub server_plain : s.config.kex_mode ≡ 0
  pub same_hashing : e.hashing ≡ f.hashing
  pub hashing : IsHashing e.hashing
  pub hash_length_small : e.hashing.hash_length < 3
  pub client_id : c.my_id < 4294967296
  pub server_id : s.my_id < 4294967296
  pub client_clock : (n : ℕ) → e.clock n < 4294967296
  pub server_clock : (n : ℕ) → f.clock n < 4294967296
  pub client_version : version_accepted e c.config.accepted_versions rasta_version ≡ true

-- The client's heartbeat at the end of its handshake.
greeting_handed :
    (e : Env) (d : Connection) (p : RastaPacket) (peer : RastaConnectionData)
    → ((complete_handshake e d p peer).handed
        ≡ d.handed
          ++ (create_heartbeat e.hashing
                (header_of_connection e (set_state up (set_cs_r p (update_connection_attrs p d))))
              ∷ []))
      × ((complete_handshake e d p peer).current_state ≡ up)
unfolding complete_handshake send_heartbeat redundancy_mux_send update_connection_attrs
greeting_handed e d p peer = (refl, refl)

-- A server that awaits the first heartbeat is established by one that passes all checks.
server_up :
    (f : Env) (d : Connection) (p : RastaPacket)
    → d.current_state ≡ start
    → d.role ≡ server
    → d.config.kex_mode ≡ 0
    → p.type ≡ ConnType.hb
    → p.checksum_correct ≡ true
    → p.sender_id ≡ d.remote_id
    → p.receiver_id ≡ d.my_id
    → p.sequence_number ≡ d.sn_r
    → d.cs_r ≡ 0
    → d.cts_r ≡ 0
    → p.confirmed_sequence_number < d.sn_t
    → d.sn_t < 4294967296
    → (sr_receive f d p).0.current_state ≡ up
unfolding sr_receive handle_received_packet handle_hb hb_start establish sr_message_authentic
    sr_sn_range_valid sr_cs_valid sr_sn_in_seq sr_cts_in_seq update_connection_attrs
server_up f d p state role plain kind intact sender receiver number cs cts low high = ground arith

-- The packets of the handshake, as each end builds them.
module _ (e f : Env) (c s : Connection) where
  abbrev pub numbered : Connection
  numbered = record (sr_init_connection client c) {
    sn_t = c.config.initial_sequence_number;
    cs_t = 0;
    cts_r = cur_timestamp e c;
    t_i = c.config.t_max;
    ticks = c.ticks + 1;
  }

  abbrev pub request : RastaPacket
  request =
      create_connection_request e.hashing (header_of_connection e numbered) c.config.send_max
        rasta_version

  -- The server when it answers.
  abbrev pub asked : Connection
  asked =
      update_confirmed_attrs (sealed e.hashing request)
        (update_connection_attrs (sealed e.hashing request) (init_server f s))

  abbrev pub response : RastaPacket
  response =
      create_connection_response f.hashing
        (record (header_of_connection f asked) { confirmed_timestamp = asked.cts_r })
        s.config.send_max rasta_version

  -- The client when it sends its first heartbeat.
  abbrev pub joined : Connection
  joined = set_state up (
      set_cs_r (sealed f.hashing response)
        (update_connection_attrs (sealed f.hashing response) (connect_request e c)))

  abbrev pub greeting : RastaPacket
  greeting = create_heartbeat e.hashing (header_of_connection e joined)

  module _ (v : Peers e f c s) where
    request_checked : sr_check_packet (init_server f s) (sealed e.hashing request) ≡ true
    unfolding sr_check_packet sr_message_authentic sr_sn_range_valid sr_cs_valid sr_sn_in_seq
        sr_cts_in_seq create_connection_request initialize_packet sr_init_connection
        sr_reset_connection
    request_checked = ground arith

    request_read :
        extract_rasta_connection_data no_error (sealed e.hashing request)
        ≡ (record { version = rasta_version; send_max = c.config.send_max }, no_error)
    request_read =
        extract-create_connection_request e.hashing _ no_error b'0' b'3' b'0' b'3' c.config.send_max
          v.client_limit

    request_version : conreq_version_ok f (init_server f s) rasta_version ≡ true
    unfolding conreq_version_ok
    request_version = rw v.server_version

    answered :
        handle_conreq f s (sealed e.hashing request)
        ≡ send_conresp f
            (init_server f s)
            (sealed e.hashing request)
            (record { version = rasta_version; send_max = c.config.send_max })
    unfolding handle_conreq conreq_in_closed
    answered = ground (arith, v.server_closed, request_checked, request_read, request_version)

    pub sent_request : (connect_request e c).handed ≡ c.handed ++ (request ∷ [])
    unfolding connect_request redundancy_mux_send sr_init_connection sr_reset_connection
    sent_request = refl

    response_handed :
        (send_conresp f
          (init_server f s)
          (sealed e.hashing request)
          (record { version = rasta_version; send_max = c.config.send_max })).handed
        ≡ s.handed ++ (response ∷ [])
    unfolding send_conresp redundancy_mux_send sr_init_connection sr_reset_connection
        update_confirmed_attrs update_connection_attrs create_connection_response
    response_handed = refl

    pub sent_response :
        (handle_conreq f s (sealed e.hashing request)).handed ≡ s.handed ++ (response ∷ [])
    sent_response = rw answered response_handed

    response_checked : sr_check_packet (connect_request e c) (sealed f.hashing response) ≡ true
    unfolding sr_check_packet sr_message_authentic sr_sn_range_valid sr_cs_valid sr_sn_in_seq
        sr_cts_in_seq create_connection_response create_connection_request initialize_packet
        connect_request redundancy_mux_send sr_init_connection sr_reset_connection
        update_confirmed_attrs update_connection_attrs
    response_checked = ground arith

    response_read :
        extract_rasta_connection_data no_error (sealed f.hashing response)
        ≡ (record { version = rasta_version; send_max = s.config.send_max }, no_error)
    response_read =
        extract-create_connection_response f.hashing _ no_error b'0' b'3' b'0' b'3'
          s.config.send_max v.server_limit

    requested_config : (connect_request e c).config ≡ c.config
    unfolding connect_request redundancy_mux_send sr_init_connection sr_reset_connection
    requested_config = refl

    requested_state : (connect_request e c).current_state ≡ start
    unfolding connect_request
    requested_state = refl

    requested_role : (connect_request e c).role ≡ client
    unfolding connect_request redundancy_mux_send sr_init_connection
    requested_role = refl

    completed_by :
        (c' : Connection)
        → c'.current_state ≡ start
        → c'.role ≡ client
        → c'.config ≡ c.config
        → conresp_by_state e c'.current_state c' (sealed f.hashing response)
          ≡ complete_handshake e c'
              (sealed f.hashing response)
              (record { version = rasta_version; send_max = s.config.send_max })
    completed_by c' a b d = rw (a, b, response_read, d, v.client_version) refl

    completed :
        handle_conresp e (connect_request e c) (sealed f.hashing response)
        ≡ complete_handshake e
            (connect_request e c)
            (sealed f.hashing response)
            (record { version = rasta_version; send_max = s.config.send_max })
    unfolding handle_conresp
    completed =
        rw response_checked
          (completed_by (connect_request e c) requested_state requested_role requested_config)

    pub sent_greeting :
        (handle_conresp e (connect_request e c) (sealed f.hashing response)).handed
        ≡ (connect_request e c).handed ++ (greeting ∷ [])
    sent_greeting =
        rw completed (greeting_handed e (connect_request e c) (sealed f.hashing response) _).0

    pub client_up :
        (handle_conresp e (connect_request e c) (sealed f.hashing response)).current_state ≡ up
    client_up =
        rw completed (greeting_handed e (connect_request e c) (sealed f.hashing response) _).1

    -- The server's side of the numbers.
    answer_fields :
        let d =
          send_conresp f
            (init_server f s)
            (sealed e.hashing request)
            (record { version = rasta_version; send_max = c.config.send_max }) in
        (d.current_state ≡ start)
        × (d.role ≡ server)
        × (d.config.kex_mode ≡ 0)
        × (d.remote_id ≡ s.remote_id)
        × (d.my_id ≡ s.my_id)
        × (d.sn_r ≡ u32 (c.config.initial_sequence_number + 1))
        × (d.cs_r ≡ 0)
        × (d.cts_r ≡ 0)
        × (d.sn_t ≡ u32 (s.config.initial_sequence_number + 1))
    unfolding send_conresp redundancy_mux_send sr_init_connection sr_reset_connection
        update_confirmed_attrs update_connection_attrs create_connection_request initialize_packet
    answer_fields = (refl, refl, v.server_plain, refl, refl, refl, refl, refl, refl)

    greeting_fields :
        (greeting.type ≡ ConnType.hb)
        × (greeting.sender_id ≡ c.my_id)
        × (greeting.receiver_id ≡ c.remote_id)
        × (greeting.sequence_number ≡ u32 (c.config.initial_sequence_number + 1))
        × (greeting.confirmed_sequence_number ≡ s.config.initial_sequence_number)
    unfolding create_heartbeat initialize_packet update_connection_attrs connect_request
        redundancy_mux_send sr_init_connection sr_reset_connection create_connection_response
        update_confirmed_attrs
    greeting_fields = (refl, refl, refl, refl, refl)

    pub server_joined :
        (sr_receive f
          (handle_conreq f s (sealed e.hashing request))
          (sealed e.hashing greeting)).0.current_state
        ≡ up
    server_joined =
        let a = answer_fields in
        let g = greeting_fields in
        rw answered (
          server_up f _ (sealed e.hashing greeting) a.0 a.1 a.2 g.0 refl
            (g.1 ∙ sym v.to_client ∙ sym a.3) (g.2 ∙ v.to_server ∙ sym a.4) (g.3 ∙ sym a.5) a.6 a.7
            (omega (arith, g.4, a.8, v.server_number)) (omega (arith, a.8)))
