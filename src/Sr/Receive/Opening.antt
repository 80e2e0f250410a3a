-- ===== src/Sr/Receive/Opening.antt =====
-- The edges that heartbeats and the packets of the handshake follow.
use librasta.Base.{◌⊎◌}
use librasta.Sr.Keeps.{KeepsReceiving-refl}
use librasta.Sr.Keeps.Handling.{close-KeepsReceiving}
use librasta.Base.{ℕ, ◌≡◌, refl, if◌then◌else◌, Bool, true, false, arith, Bool-cases, inl, inr}
use librasta.Packet.{RastaPacket}
use librasta.Connection.{
  Connection, SrState, closed, down, start, kex_req, kex_resp, kex_auth, up, retrreq, retrrun, Role,
  client, server, Env,
}
use librasta.Sr.Checks.{sr_cts_in_seq, sr_sn_in_seq}
use librasta.Sr.Send.{reason_protocol_error}
use librasta.Sr.Close.{sr_close_connection}
use librasta.Sr.Close.Laws.{IsClosed, close-IsClosed}
use librasta.Sr.Receiving.{update_connection_attrs}
use librasta.Sr.Handlers.{set_state}
use librasta.Sr.Handlers.Heartbeat.{
  hb_start, hb_reason, close_client, establish, accept_hb, hb_checked, hb_in_seq, hb_out_of_seq,
  hb_running, finish_retransmission, hb_by_state,
}
use librasta.Sr.Keeps.{KeepsReceiving, KeepsReceiving-trans, Keeps-trans}
use librasta.Sr.Keeps.Handling.{sr_remove_confirmed_messages-Keeps, timeout-Keeps, diagnostic-Keeps}
use librasta.Sr.Receive.Edges.{
  Edge, closes, misses, recovers, opens, negotiates, Handled, keeps-Handled, close-Handled,
  attrs-Keeps, confirmed-Keeps, same,
}

module _ (env : Env) where
  ordered-KeepsReceiving :
      (b : Bool) (r d : ℕ) (c : Connection)
      → KeepsReceiving c (if b then c else sr_close_connection env r d c)
  ordered-KeepsReceiving true r d c = KeepsReceiving-refl c
  ordered-KeepsReceiving false r d c = close-KeepsReceiving env r d c

  client-KeepsReceiving : (r : Role) (c : Connection) → KeepsReceiving c (close_client env r c)
  client-KeepsReceiving client c = close-KeepsReceiving env _ _ c
  client-KeepsReceiving server c = KeepsReceiving-refl c

  establish-KeepsReceiving :
      (c : Connection) (p : RastaPacket) → KeepsReceiving c (establish env c p)
  unfolding establish update_connection_attrs
  establish-KeepsReceiving c p = ground arith

  establish-state :
      (c : Connection) (p : RastaPacket)
      → ((establish env c p).current_state ≡ up) ⊎ ((establish env c p).current_state ≡ kex_req)
  unfolding establish update_connection_attrs
  establish-state c p = ground arith

  established-Edge : (s t : SrState) → s ≡ start → ((t ≡ up) ⊎ (t ≡ kex_req)) → Edge s t
  established-Edge s t e (inl k) = rw (e, k) opens
  established-Edge s t e (inr k) = rw (e, k) negotiates

  -- What the first two checks of the branch for START leave.
  start_checked : Connection → RastaPacket → Connection
  start_checked c p =
      let ordered =
        if sr_sn_in_seq c p then c else sr_close_connection env (hb_reason env c.role) 0 c in
      close_client env ordered.role ordered

  start_checked-KeepsReceiving :
      (c : Connection) (p : RastaPacket) → KeepsReceiving c (start_checked c p)
  unfolding start_checked
  start_checked-KeepsReceiving c p =
      KeepsReceiving-trans (ordered-KeepsReceiving (sr_sn_in_seq c p) _ _ c)
        (client-KeepsReceiving _ _)

  hb_start-Handled :
      (c : Connection) (p : RastaPacket) (e : c.current_state ≡ start)
      → Handled c (hb_start env c p).0
  unfolding hb_start start_checked
  hb_start-Handled c p e = elim (Bool-cases (sr_cts_in_seq (start_checked c p) p)) [
    | inl k ↦ rw k (record {
      edge = established-Edge _ _ e (establish-state (start_checked c p) p);
      receiving =
          KeepsReceiving-trans (start_checked-KeepsReceiving c p)
            (establish-KeepsReceiving (start_checked c p) p);
    })
    | inr k ↦ rw k (record {
      edge =
          rw (IsClosed.state (close-IsClosed env reason_protocol_error 0 (start_checked c p)))
            (closes c.current_state);
      receiving =
          KeepsReceiving-trans (start_checked-KeepsReceiving c p)
            (close-KeepsReceiving env _ _ (start_checked c p));
    })
  ]

  finish-Handled :
      (s : SrState) (c : Connection) (e : c.current_state ≡ s)
      → Handled c (finish_retransmission env s c)
  finish-Handled closed c e = same env c
  finish-Handled down c e = same env c
  finish-Handled start c e = same env c
  finish-Handled kex_req c e = same env c
  finish-Handled kex_resp c e = same env c
  finish-Handled kex_auth c e = same env c
  finish-Handled up c e = same env c
  finish-Handled retrreq c e = same env c
  finish-Handled retrrun c e = record { edge = rw e recovers; receiving = ground arith }

  accept_hb-Handled : (c : Connection) (p : RastaPacket) → Handled c (accept_hb env c p)
  unfolding accept_hb
  accept_hb-Handled c p =
      keeps-Handled
        (Keeps-trans (timeout-Keeps env _ c) (
          Keeps-trans (diagnostic-Keeps env p _) (
            Keeps-trans (attrs-Keeps env p _)
              (Keeps-trans (confirmed-Keeps env p _) (sr_remove_confirmed_messages-Keeps env _)))))
        (finish-Handled _ _ refl)

  hb_checked-Handled : (c : Connection) (p : RastaPacket) → Handled c (hb_checked env c p).0
  hb_checked-Handled c p = elim (Bool-cases (sr_cts_in_seq c p)) [
    | inl k ↦ rw k (accept_hb-Handled c p)
    | inr k ↦ rw k (close-Handled env _ _ c)
  ]

  hb_in_seq-Handled :
      (s : SrState) (c : Connection) (p : RastaPacket) → Handled c (hb_in_seq env s c p).0
  hb_in_seq-Handled closed c p = same env c
  hb_in_seq-Handled down c p = same env c
  hb_in_seq-Handled start c p = same env c
  hb_in_seq-Handled kex_req c p = hb_checked-Handled c p
  hb_in_seq-Handled kex_resp c p = hb_checked-Handled c p
  hb_in_seq-Handled kex_auth c p = hb_checked-Handled c p
  hb_in_seq-Handled up c p = hb_checked-Handled c p
  hb_in_seq-Handled retrreq c p = same env c
  hb_in_seq-Handled retrrun c p = hb_checked-Handled c p

  missed : (c : Connection) → Handled c (set_state retrreq c)
  missed c = record { edge = misses c.current_state; receiving = ground arith }

  hb_out_of_seq-Handled : (s : SrState) (c : Connection) → Handled c (hb_out_of_seq env s c).0
  hb_out_of_seq-Handled closed c = same env c
  hb_out_of_seq-Handled down c = same env c
  hb_out_of_seq-Handled start c = same env c
  hb_out_of_seq-Handled kex_req c = same env c
  hb_out_of_seq-Handled kex_resp c = same env c
  hb_out_of_seq-Handled kex_auth c = same env c
  hb_out_of_seq-Handled up c = missed c
  hb_out_of_seq-Handled retrreq c = same env c
  hb_out_of_seq-Handled retrrun c = missed c

  hb_running-Handled : (c : Connection) (p : RastaPacket) → Handled c (hb_running env c p).0
  unfolding hb_running
  hb_running-Handled c p = elim (Bool-cases (sr_sn_in_seq c p)) [
    | inl e ↦ rw e (hb_in_seq-Handled c.current_state c p)
    | inr e ↦ rw e (hb_out_of_seq-Handled c.current_state c)
  ]

  pub hb_by_state-Handled :
      (s : SrState) (c : Connection) (p : RastaPacket) (e : c.current_state ≡ s)
      → Handled c (hb_by_state env s c p).0
  hb_by_state-Handled closed c p e = hb_running-Handled c p
  hb_by_state-Handled down c p e = hb_running-Handled c p
  hb_by_state-Handled start c p e = hb_start-Handled c p e
  hb_by_state-Handled kex_req c p e = hb_running-Handled c p
  hb_by_state-Handled kex_resp c p e = hb_running-Handled c p
  hb_by_state-Handled kex_auth c p e = hb_running-Handled c p
  hb_by_state-Handled up c p e = hb_running-Handled c p
  hb_by_state-Handled retrreq c p e = hb_running-Handled c p
  hb_by_state-Handled retrrun c p e = hb_running-Handled c p
