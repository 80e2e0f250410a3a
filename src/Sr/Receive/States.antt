-- ===== src/Sr/Receive/States.antt =====
-- The state diagram that received packets obey.
use librasta.Base.{◌⊎◌}
use librasta.Sr.Keeps.Handling.{close-KeepsReceiving}
use librasta.Connection.{ErrorCounters}
use librasta.Sr.Handlers.{count_type_error, count_sn_error, count_cs_error}
use librasta.Sr.Receive.{count_safety_error, count_address_error}
use librasta.Sr.Receive.Data.{data-Handled, retrreq-Handled, retrresp_in-Handled, retrdata-Handled}
use librasta.Sr.Receive.Opening.{hb_by_state-Handled}
use librasta.Base.{ℕ, ◌≡◌, refl, arith, Bool-cases, inl, inr}
use librasta.Packet.{RastaPacket, no_error}
use librasta.Factory.{RastaConnectionData, extract_rasta_connection_data}
use librasta.Connection.{
  Connection, SrState, closed, down, start, kex_req, kex_resp, kex_auth, up, retrreq, retrrun, Role,
  client, server, Env,
}
use librasta.Sr.Checks.{sr_check_packet}
use librasta.Sr.Send.{send_heartbeat, redundancy_mux_send}
use librasta.Sr.Close.{sr_close_connection, sr_init_connection, sr_reset_connection}
use librasta.Sr.Close.Laws.{IsClosed, close-IsClosed}
use librasta.Sr.Receiving.{update_connection_attrs, update_confirmed_attrs}
use librasta.Sr.Handlers.{handle_retrresp}
use librasta.Sr.Handlers.Heartbeat.{handle_hb}
use librasta.Sr.Handshake.{
  handle_conreq, handle_conresp, conreq_by_state, conreq_in_closed, conresp_by_state,
  conresp_by_role, complete_handshake, send_conresp, init_server, version_accepted,
  conreq_version_ok,
}
use librasta.Sr.Receive.{sr_receive, handle_received_packet}
use librasta.Sr.Keeps.{KeepsReceiving, KeepsReceiving-trans}
use librasta.Sr.Receive.Edges.{
  Edge, closes, opens, answers_closed, answers_down, Handled, Keeps-Handled, close-Handled,
  discreq-Handled, same,
}

module _ (env : Env) where
  answer-Edge : (s : SrState) → ((s ≡ closed) ⊎ (s ≡ down)) → Edge s start
  answer-Edge s (inl e) = rw e answers_closed
  answer-Edge s (inr e) = rw e answers_down

  init-KeepsReceiving : (c : Connection) → KeepsReceiving c (init_server env c)
  unfolding sr_init_connection sr_reset_connection
  init-KeepsReceiving c = ground arith

  conresp-KeepsReceiving :
      (c : Connection) (p : RastaPacket) (peer : RastaConnectionData)
      → KeepsReceiving c (send_conresp env c p peer)
  unfolding send_conresp redundancy_mux_send update_connection_attrs update_confirmed_attrs
  conresp-KeepsReceiving c p peer = ground arith

  conresp-state :
      (c : Connection) (p : RastaPacket) (peer : RastaConnectionData)
      → (send_conresp env c p peer).current_state ≡ start
  unfolding send_conresp redundancy_mux_send
  conresp-state c p peer = refl

  answered :
      (c : Connection) (p : RastaPacket) (peer : RastaConnectionData)
      (e : (c.current_state ≡ closed) ⊎ (c.current_state ≡ down))
      → Handled c (send_conresp env (init_server env c) p peer)
  answered c p peer e = record {
    edge = rw (conresp-state (init_server env c) p peer) (answer-Edge _ e);
    receiving = KeepsReceiving-trans (init-KeepsReceiving c) (conresp-KeepsReceiving _ p peer);
  }

  refused : (r d : ℕ) (c : Connection) → Handled c (sr_close_connection env r d (init_server env c))
  refused r d c = record {
    edge =
        rw (IsClosed.state (close-IsClosed env r d (init_server env c))) (closes c.current_state);
    receiving = KeepsReceiving-trans (init-KeepsReceiving c) (close-KeepsReceiving env r d _);
  }

  conreq_in_closed-Handled :
      (c : Connection) (p : RastaPacket) (e : (c.current_state ≡ closed) ⊎ (c.current_state ≡ down))
      → Handled c (conreq_in_closed env c p)
  unfolding conreq_in_closed
  conreq_in_closed-Handled c p e = elim (Bool-cases (sr_check_packet (init_server env c) p)) [
    | inl k ↦
        elim (Bool-cases (
          conreq_version_ok env (init_server env c)
            (extract_rasta_connection_data no_error p).0.version)) [
              | inl m ↦ rw (k, m) (answered c p _ e)
              | inr m ↦ rw (k, m) (refused _ _ c)
            ]
    | inr k ↦ rw k (refused _ _ c)
  ]

  conreq-Handled :
      (s : SrState) (c : Connection) (p : RastaPacket) (e : c.current_state ≡ s)
      → Handled c (conreq_by_state env s c p)
  conreq-Handled closed c p e = conreq_in_closed-Handled c p (inl e)
  conreq-Handled down c p e = conreq_in_closed-Handled c p (inr e)
  conreq-Handled start c p e = close-Handled env _ _ c
  conreq-Handled kex_req c p e = close-Handled env _ _ c
  conreq-Handled kex_resp c p e = close-Handled env _ _ c
  conreq-Handled kex_auth c p e = close-Handled env _ _ c
  conreq-Handled up c p e = close-Handled env _ _ c
  conreq-Handled retrreq c p e = close-Handled env _ _ c
  conreq-Handled retrrun c p e = close-Handled env _ _ c

  complete-Handled :
      (c : Connection) (p : RastaPacket) (peer : RastaConnectionData) (e : c.current_state ≡ start)
      → Handled c (complete_handshake env c p peer)
  unfolding complete_handshake send_heartbeat redundancy_mux_send update_connection_attrs
  complete-Handled c p peer e = record { edge = rw e opens; receiving = ground arith }

  conresp_role-Handled :
      (r : Role) (c : Connection) (p : RastaPacket) (e : c.current_state ≡ start)
      → Handled c (conresp_by_role env r c p)
  conresp_role-Handled server c p e = close-Handled env _ _ c
  conresp_role-Handled client c p e =
      elim (Bool-cases (
        version_accepted env c.config.accepted_versions
          (extract_rasta_connection_data no_error p).0.version)) [
            | inl k ↦ rw k (complete-Handled c p _ e)
            | inr k ↦ rw k (close-Handled env _ _ c)
          ]

  conresp_state-Handled :
      (s : SrState) (c : Connection) (p : RastaPacket) (e : c.current_state ≡ s)
      → Handled c (conresp_by_state env s c p)
  conresp_state-Handled closed c p e = same env c
  conresp_state-Handled down c p e = same env c
  conresp_state-Handled start c p e = conresp_role-Handled c.role c p e
  conresp_state-Handled kex_req c p e = same env c
  conresp_state-Handled kex_resp c p e = same env c
  conresp_state-Handled kex_auth c p e = same env c
  conresp_state-Handled up c p e = close-Handled env _ _ c
  conresp_state-Handled retrreq c p e = close-Handled env _ _ c
  conresp_state-Handled retrrun c p e = close-Handled env _ _ c

  conresp-Handled : (c : Connection) (p : RastaPacket) → Handled c (handle_conresp env c p)
  unfolding handle_conresp
  conresp-Handled c p = elim (Bool-cases (sr_check_packet c p)) [
    | inl k ↦ rw k (conresp_state-Handled c.current_state c p refl)
    | inr k ↦ rw k (close-Handled env _ _ c)
  ]

  -- Counting an error is no transition.
  counted-Handled : (c : Connection) (e : ErrorCounters) → Handled c (record c { errors = e })
  counted-Handled c e = Keeps-Handled (ground arith)

  received-Handled :
      (c : Connection) (p : RastaPacket) → Handled c (handle_received_packet env c p).0
  unfolding handle_received_packet handle_hb handle_retrresp
  received-Handled c p = ground (
    arith,
    retrdata-Handled env c p,
    data-Handled env c p,
    retrreq-Handled env c p,
    retrresp_in-Handled env c.current_state c p refl,
    discreq-Handled env c p,
    hb_by_state-Handled env c.current_state c p refl,
    counted-Handled c (count_type_error c).errors,
  )

  -- Every packet that the safety layer receives moves the state along an edge of the diagram or
  -- leaves it, and leaves the receiving side of the redundancy channel, both ids and the
  -- configuration as they are.
  pub sr_receive-Handled : (c : Connection) (p : RastaPacket) → Handled c (sr_receive env c p).0
  unfolding sr_receive handle_conreq
  sr_receive-Handled c p = ground (
    arith,
    conreq-Handled c.current_state c p refl,
    conresp-Handled c p,
    received-Handled c p,
    counted-Handled c (count_cs_error c).errors,
    counted-Handled c (count_sn_error c).errors,
    counted-Handled c (count_safety_error c).errors,
    counted-Handled c (count_address_error c).errors,
  )
