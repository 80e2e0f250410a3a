-- ===== src/Sr/Receive/Data.antt =====
-- The edges that the handlers of data and retransmission packets follow.
use librasta.Base.{◌≡◌, arith, Bool-cases, inl, inr}
use librasta.Packet.{RastaPacket}
use librasta.Connection.{
  Connection, SrState, closed, down, start, kex_req, kex_resp, kex_auth, up, retrreq, retrrun, Env,
}
use librasta.Sr.Checks.{sr_cts_in_seq, sr_sn_in_seq}
use librasta.Sr.Receiving.{update_connection_attrs, update_confirmed_attrs, set_cs_r}
use librasta.Sr.Handlers.{
  handle_data, handle_retrreq, handle_retrdata, retrreq_conflict, data_in_seq, data_out_of_seq,
  retrresp_in, retrdata_in_seq, retrdata_out_of_seq,
}
use librasta.Sr.Keeps.{Keeps, Keeps-trans}
use librasta.Sr.Receive.Edges.{
  misses, runs, Handled, Keeps-Handled, Handled-keeps, close-Handled, attrs-Keeps, set_cs_r-Keeps,
  accept_data-Keeps, accept_retrdata-Keeps, answer_retrreq-Keeps, counted_close-Handled,
  request-Handled, counted_request-Handled, same,
}

module _ (env : Env) where
  data_in_seq-Handled :
      (s : SrState) (c : Connection) (p : RastaPacket) → Handled c (data_in_seq env s c p).0
  data_in_seq-Handled closed c p = same env c
  data_in_seq-Handled down c p = same env c
  data_in_seq-Handled start c p = close-Handled env _ _ c
  data_in_seq-Handled kex_req c p = close-Handled env _ _ c
  data_in_seq-Handled kex_resp c p = close-Handled env _ _ c
  data_in_seq-Handled kex_auth c p = close-Handled env _ _ c
  data_in_seq-Handled up c p = elim (Bool-cases (sr_cts_in_seq c p)) [
    | inl e ↦ rw e (Keeps-Handled (accept_data-Keeps env p c))
    | inr e ↦ rw e (counted_close-Handled env _ _ c)
  ]
  data_in_seq-Handled retrreq c p = same env c
  data_in_seq-Handled retrrun c p = elim (Bool-cases (sr_cts_in_seq c p)) [
    | inl e ↦ rw e (Keeps-Handled (attrs-Keeps env p c))
    | inr e ↦ rw e (close-Handled env _ _ c)
  ]

  data_out_of_seq-Handled : (s : SrState) (c : Connection) → Handled c (data_out_of_seq env s c).0
  data_out_of_seq-Handled closed c = same env c
  data_out_of_seq-Handled down c = same env c
  data_out_of_seq-Handled start c = close-Handled env _ _ c
  data_out_of_seq-Handled kex_req c = same env c
  data_out_of_seq-Handled kex_resp c = same env c
  data_out_of_seq-Handled kex_auth c = same env c
  data_out_of_seq-Handled up c = counted_request-Handled env c
  data_out_of_seq-Handled retrreq c = same env c
  data_out_of_seq-Handled retrrun c = counted_request-Handled env c

  pub data-Handled : (c : Connection) (p : RastaPacket) → Handled c (handle_data env c p).0
  unfolding handle_data
  data-Handled c p = elim (Bool-cases (sr_sn_in_seq c p)) [
    | inl e ↦ rw e (data_in_seq-Handled c.current_state c p)
    | inr e ↦ rw e (data_out_of_seq-Handled c.current_state c)
  ]

  conflict-Handled : (s : SrState) (c : Connection) → Handled c (retrreq_conflict env s c)
  conflict-Handled closed c = same env c
  conflict-Handled down c = same env c
  conflict-Handled start c = same env c
  conflict-Handled kex_req c = same env c
  conflict-Handled kex_resp c = same env c
  conflict-Handled kex_auth c = same env c
  conflict-Handled up c = same env c
  conflict-Handled retrreq c = same env c
  conflict-Handled retrrun c = close-Handled env _ _ c

  pub retrreq-Handled : (c : Connection) (p : RastaPacket) → Handled c (handle_retrreq env c p).0
  unfolding handle_retrreq
  retrreq-Handled c p = elim (Bool-cases (sr_sn_in_seq c p)) [
    | inl e ↦ rw e (
        Handled-keeps (conflict-Handled c.current_state c) (
          Keeps-trans (attrs-Keeps env p _)
            (Keeps-trans (set_cs_r-Keeps env p _) (answer_retrreq-Keeps env _))))
    | inr e ↦ rw e (record {
      edge = misses c.current_state;
      receiving = ground (
        arith,
        Keeps.receiving
            (Keeps-trans (set_cs_r-Keeps env p c) (answer_retrreq-Keeps env (set_cs_r p c))),
      );
    })
  ]

  pub retrresp_in-Handled :
      (s : SrState) (c : Connection) (p : RastaPacket) (e : c.current_state ≡ s)
      → Handled c (retrresp_in env s c p).0
  unfolding update_connection_attrs update_confirmed_attrs
  retrresp_in-Handled closed c p e = close-Handled env _ _ c
  retrresp_in-Handled down c p e = close-Handled env _ _ c
  retrresp_in-Handled start c p e = close-Handled env _ _ c
  retrresp_in-Handled kex_req c p e = close-Handled env _ _ c
  retrresp_in-Handled kex_resp c p e = close-Handled env _ _ c
  retrresp_in-Handled kex_auth c p e = close-Handled env _ _ c
  retrresp_in-Handled up c p e = close-Handled env _ _ c
  retrresp_in-Handled retrreq c p e = record { edge = rw e runs; receiving = ground arith }
  retrresp_in-Handled retrrun c p e = close-Handled env _ _ c

  retrdata_in_seq-Handled :
      (s : SrState) (c : Connection) (p : RastaPacket) → Handled c (retrdata_in_seq env s c p).0
  retrdata_in_seq-Handled closed c p = same env c
  retrdata_in_seq-Handled down c p = same env c
  retrdata_in_seq-Handled start c p = same env c
  retrdata_in_seq-Handled kex_req c p = same env c
  retrdata_in_seq-Handled kex_resp c p = same env c
  retrdata_in_seq-Handled kex_auth c p = same env c
  retrdata_in_seq-Handled up c p = close-Handled env _ _ c
  retrdata_in_seq-Handled retrreq c p = same env c
  retrdata_in_seq-Handled retrrun c p = elim (Bool-cases (sr_cts_in_seq c p)) [
    | inl e ↦ rw e (Keeps-Handled (accept_retrdata-Keeps env p c))
    | inr e ↦ rw e (close-Handled env _ _ c)
  ]

  retrdata_out_of_seq-Handled :
      (s : SrState) (c : Connection) → Handled c (retrdata_out_of_seq env s c).0
  retrdata_out_of_seq-Handled closed c = same env c
  retrdata_out_of_seq-Handled down c = same env c
  retrdata_out_of_seq-Handled start c = same env c
  retrdata_out_of_seq-Handled kex_req c = same env c
  retrdata_out_of_seq-Handled kex_resp c = same env c
  retrdata_out_of_seq-Handled kex_auth c = same env c
  retrdata_out_of_seq-Handled up c = close-Handled env _ _ c
  retrdata_out_of_seq-Handled retrreq c = same env c
  retrdata_out_of_seq-Handled retrrun c = request-Handled env c

  pub retrdata-Handled : (c : Connection) (p : RastaPacket) → Handled c (handle_retrdata env c p).0
  unfolding handle_retrdata
  retrdata-Handled c p = elim (Bool-cases (sr_sn_in_seq c p)) [
    | inl e ↦ rw e (retrdata_in_seq-Handled c.current_state c p)
    | inr e ↦ rw e (retrdata_out_of_seq-Handled c.current_state c)
  ]
