-- ===== src/Sr/Receive/Edges.antt =====
-- The steps that the packet handlers of src/c/retransmission/handlers.c are made of, as edges of the
-- state diagram.
use librasta.Base.{ℕ, arith}
use librasta.Packet.{RastaPacket}
use librasta.Connection.{
  Connection, SrState, closed, down, start, kex_req, up, retrreq, retrrun, Env,
}
use librasta.Sr.Close.{sr_close_connection, sr_reset_connection, redundancy_channel_close}
use librasta.Sr.Close.Laws.{IsClosed, close-IsClosed}
use librasta.Sr.Receiving.{update_connection_attrs, update_confirmed_attrs, set_cs_r}
use librasta.Sr.Handlers.{
  handle_discreq, accept_data, answer_retrreq, accept_retrdata, count_cs_error, count_sn_error,
  request_retransmission,
}
use librasta.Sr.Keeps.{
  KeepsReceiving, KeepsReceiving-trans, Keeps, Keeps-refl, Keeps-trans, retrreq-Keeps,
  retrresp-Keeps,
}
use librasta.Sr.Keeps.Handling.{
  sr_remove_confirmed_messages-Keeps, sr_retransmit_data-Keeps, sr_add_app_messages-Keeps,
  close-KeepsReceiving,
}

-- The edges of the state diagram.
pub data Edge : SrState → SrState → Type 0 where
  stays : (s : SrState) → Edge s s
  closes : (s : SrState) → Edge s closed
  -- A packet out of sequence, and the retransmission request of a peer that lost one.
  misses : (s : SrState) → Edge s retrreq
  runs : Edge retrreq retrrun
  recovers : Edge retrrun up
  opens : Edge start up
  negotiates : Edge start kex_req
  answers_closed : Edge closed start
  answers_down : Edge down start

-- What the handling of a packet may do: follow an edge and keep the receiving side.
pub record Handled (c c' : Connection) : Type 0 where
  pub edge : Edge c.current_state c'.current_state
  pub receiving : KeepsReceiving c c'

pub Keeps-Handled : {c c' : Connection} → Keeps c c' → Handled c c'
Keeps-Handled {c} {c'} k = record {
  edge = rw (Keeps.state k) (stays c.current_state);
  receiving = Keeps.receiving k;
}

pub Handled-keeps : {a b c : Connection} → Handled a b → Keeps b c → Handled a c
Handled-keeps {a} {b} {c} h k = record {
  edge = rw (Keeps.state k) (Handled.edge h);
  receiving = KeepsReceiving-trans (Handled.receiving h) (Keeps.receiving k);
}

pub keeps-Handled : {a b c : Connection} → Keeps a b → Handled b c → Handled a c
keeps-Handled {a} {b} {c} k h = record {
  edge = rw (← Keeps.state k) (Handled.edge h);
  receiving = KeepsReceiving-trans (Keeps.receiving k) (Handled.receiving h);
}

module _ (env : Env) where
  pub close-Handled : (r d : ℕ) (c : Connection) → Handled c (sr_close_connection env r d c)
  close-Handled r d c = record {
    edge = rw (IsClosed.state (close-IsClosed env r d c)) (closes c.current_state);
    receiving = close-KeepsReceiving env r d c;
  }

  pub discreq-Handled : (c : Connection) (p : RastaPacket) → Handled c (handle_discreq env c p).0
  unfolding handle_discreq sr_reset_connection redundancy_channel_close
  discreq-Handled c p = record { edge = closes c.current_state; receiving = ground arith }

  pub attrs-Keeps : (p : RastaPacket) (c : Connection) → Keeps c (update_connection_attrs p c)
  unfolding update_connection_attrs
  attrs-Keeps p c = ground arith

  pub confirmed-Keeps : (p : RastaPacket) (c : Connection) → Keeps c (update_confirmed_attrs p c)
  unfolding update_confirmed_attrs
  confirmed-Keeps p c = ground arith

  pub set_cs_r-Keeps : (p : RastaPacket) (c : Connection) → Keeps c (set_cs_r p c)
  set_cs_r-Keeps p c = ground arith

  pub accept_data-Keeps : (p : RastaPacket) (c : Connection) → Keeps c (accept_data env c p)
  unfolding accept_data
  accept_data-Keeps p c = Keeps-trans (sr_add_app_messages-Keeps env p c) (
      Keeps-trans (attrs-Keeps p _)
        (Keeps-trans (confirmed-Keeps p _) (sr_remove_confirmed_messages-Keeps env _)))

  pub accept_retrdata-Keeps : (p : RastaPacket) (c : Connection) → Keeps c (accept_retrdata env c p)
  unfolding accept_retrdata
  accept_retrdata-Keeps p c =
      Keeps-trans (sr_add_app_messages-Keeps env p c)
        (Keeps-trans (attrs-Keeps p _) (set_cs_r-Keeps p _))

  pub answer_retrreq-Keeps : (c : Connection) → Keeps c (answer_retrreq env c)
  unfolding answer_retrreq
  answer_retrreq-Keeps c =
      Keeps-trans (sr_remove_confirmed_messages-Keeps env c)
        (Keeps-trans (retrresp-Keeps env _) (sr_retransmit_data-Keeps env _))

  pub counted_close-Handled :
      (r d : ℕ) (c : Connection) → Handled c (sr_close_connection env r d (count_cs_error c))
  counted_close-Handled r d c =
      keeps-Handled {b = count_cs_error c} (ground arith) (close-Handled r d _)

  pub request-Handled : (c : Connection) → Handled c (request_retransmission env c)
  request-Handled c = record {
    edge = misses c.current_state;
    receiving = ground (arith, Keeps.receiving (retrreq-Keeps env c));
  }

  pub counted_request-Handled :
      (c : Connection) → Handled c (request_retransmission env (count_sn_error c))
  counted_request-Handled c =
      keeps-Handled {b = count_sn_error c} (ground arith) (request-Handled _)

  pub same : (c : Connection) → Handled c c
  same c = Keeps-Handled (Keeps-refl c)
