-- ===== src/Sr/Receive/Refused.antt =====
-- What a data packet that `sr_receive` of src/c/retransmission does not accept in state UP leaves alone.
use librasta.Base.{
  ℕ, ◌≡◌, ◌∙◌, sym, ap, refl, ◌==◌, if◌then◌else◌, Bool, true, false, ◌&&◌, arith, Bool-cases, inl,
  inr,
}
use librasta.Packet.{RastaPacket}
use librasta.Packet.ConnType
use librasta.Connection.{
  Connection, SrState, closed, down, start, kex_req, kex_resp, kex_auth, up, retrreq, retrrun, Env,
}
use librasta.Sr.Close.{
  sr_close_connection, sr_reset_connection, redundancy_channel_close, close_by_state,
  close_with_request,
}
use librasta.Sr.Handshake.{handle_conreq, handle_conresp}
use librasta.Sr.Checks.{
  sr_check_packet, sr_message_authentic, sr_sn_range_valid, sr_cs_valid, sr_sn_in_seq,
  sr_cts_in_seq,
}
use librasta.Sr.Send.{
  redundancy_mux_send, send_disconnection_request, send_retransmission_request,
  reason_protocol_error,
}
use librasta.Sr.Handlers.{handle_data, data_in_seq, data_out_of_seq, count_cs_error, count_sn_error}
use librasta.Sr.Receive.{
  sr_receive, handle_received_packet, count_safety_error, count_address_error,
}
use librasta.Sr.Receive.Valid.{flag, received-data, accepted-flag}

-- No message is delivered, none is taken from the send queue, and none counts as confirmed.
pub record Quiet (c c' : Connection) : Type 0 where
  pub undelivered : c'.fifo_receive ≡ c.fifo_receive
  pub unconfirmed : c'.fifo_retransmission ≡ c.fifo_retransmission
  pub unqueued : c'.fifo_send ≡ c.fifo_send

module _ (env : Env) where
  request-Quiet :
      (reason details : ℕ) (c : Connection) → Quiet c (close_with_request env reason details c)
  unfolding redundancy_channel_close send_disconnection_request redundancy_mux_send
      sr_reset_connection
  request-Quiet reason details c = record {
    undelivered = refl;
    unconfirmed = refl;
    unqueued = refl;
  }

  silent-Quiet : (c : Connection) → Quiet c (redundancy_channel_close env (sr_reset_connection c))
  unfolding redundancy_channel_close sr_reset_connection
  silent-Quiet c = record { undelivered = refl; unconfirmed = refl; unqueued = refl }

  close_by_state-Quiet :
      (s : SrState) (reason details : ℕ) (c : Connection)
      → Quiet c (close_by_state env s reason details c)
  close_by_state-Quiet closed reason details c = silent-Quiet c
  close_by_state-Quiet down reason details c = silent-Quiet c
  close_by_state-Quiet start reason details c = request-Quiet reason details c
  close_by_state-Quiet kex_req reason details c = request-Quiet reason details c
  close_by_state-Quiet kex_resp reason details c = request-Quiet reason details c
  close_by_state-Quiet kex_auth reason details c = request-Quiet reason details c
  close_by_state-Quiet up reason details c = request-Quiet reason details c
  close_by_state-Quiet retrreq reason details c = request-Quiet reason details c
  close_by_state-Quiet retrrun reason details c = request-Quiet reason details c

  -- Closing after the error was counted.
  counted_close-Quiet :
      (c : Connection)
      → Quiet c (sr_close_connection env reason_protocol_error 0 (count_cs_error c))
  unfolding sr_close_connection
  counted_close-Quiet c =
      let q = close_by_state-Quiet c.current_state reason_protocol_error 0 (count_cs_error c) in
      record { undelivered = q.undelivered; unconfirmed = q.unconfirmed; unqueued = q.unqueued }

  data-Quiet :
      (s : SrState) (c : Connection) (p : RastaPacket)
      → s ≡ up
      → (sr_sn_in_seq c p && sr_cts_in_seq c p) ≡ false
      → Quiet c (if sr_sn_in_seq c p then data_in_seq env s c p else data_out_of_seq env s c).0
  unfolding redundancy_mux_send send_retransmission_request
  data-Quiet s c p u h = elim (Bool-cases (sr_sn_in_seq c p)) [
    | inr e ↦ rw (u, e) (record { undelivered = refl; unconfirmed = refl; unqueued = refl })
    | inl e ↦ elim (Bool-cases (sr_cts_in_seq c p)) [
      | inl f ↦ absurd (ground (arith, h, e, f))
      | inr f ↦ rw (u, e, f) (counted_close-Quiet c)
    ]
  ]

  handled-Quiet :
      (c : Connection) (p : RastaPacket)
      → c.current_state ≡ up
      → p.type ≡ ConnType.data_message
      → (sr_sn_in_seq c p && sr_cts_in_seq c p) ≡ false
      → Quiet c (handle_received_packet env c p).0
  unfolding handle_data
  handled-Quiet c p u kind h = rw (received-data env c p kind) (data-Quiet c.current_state c p u h)

  chain-Quiet :
      (c : Connection) (a b d e f : Bool) (w x y z : Connection) (r : Connection × ℕ)
      → Quiet c w
      → Quiet c x
      → Quiet c y
      → Quiet c z
      → (f ≡ false → Quiet c r.0)
      → (a && (b && (d && (e && f)))) ≡ false
      → Quiet c
          (if a
            then (if b then (if d then (if e then r else (w, 0)) else (x, 0)) else (y, 0))
            else (z, 0)).0
  chain-Quiet c true true true true f w x y z r qw qx qy qz qr h = qr h
  chain-Quiet c true true true false f w x y z r qw qx qy qz qr h = qw
  chain-Quiet c true true false e f w x y z r qw qx qy qz qr h = qx
  chain-Quiet c true false d e f w x y z r qw qx qy qz qr h = qy
  chain-Quiet c false b d e f w x y z r qw qx qy qz qr h = qz

  dispatched-Quiet :
      (c : Connection) (p : RastaPacket) (a b : Bool) (r : Connection × ℕ)
      → a ≡ false
      → b ≡ false
      → Quiet c r.0
      → Quiet c
          (if a then (handle_conreq env c p, 0) else if b then (handle_conresp env c p, 1) else r).0
  dispatched-Quiet c p a b r h k q = rw (h, k) q

  unchecked-Quiet :
      (c : Connection) (p : RastaPacket)
      → c.current_state ≡ up
      → p.type ≡ ConnType.data_message
      → sr_check_packet c p ≡ false
      → Quiet c (sr_receive env c p).0
  unfolding sr_receive sr_check_packet
  unchecked-Quiet c p u kind h =
      dispatched-Quiet c p (p.type == ConnType.connreq) (p.type == ConnType.connresp) _
        (ground (arith, kind)) (ground (arith, kind))
        (chain-Quiet c p.checksum_correct (sr_message_authentic c p) (sr_sn_range_valid c p)
          (sr_cs_valid c p) (sr_sn_in_seq c p && sr_cts_in_seq c p) (count_cs_error c)
          (count_sn_error c) (count_address_error c) (count_safety_error c)
          (handle_received_packet env c p)
          (record { undelivered = refl; unconfirmed = refl; unqueued = refl })
          (record { undelivered = refl; unconfirmed = refl; unqueued = refl })
          (record { undelivered = refl; unconfirmed = refl; unqueued = refl })
          (record { undelivered = refl; unconfirmed = refl; unqueued = refl })
          (handled-Quiet c p u kind) h)

  -- A data packet that is not accepted in state UP delivers no message, takes none from the send
  -- queue, and confirms none of those kept for retransmission, whatever else is wrong with it.
  pub sr_receive-Quiet :
      (c : Connection) (p : RastaPacket) (established : c.current_state ≡ up)
      (kind : p.type ≡ ConnType.data_message) (refused : (sr_receive env c p).1 ≡ 0)
      → Quiet c (sr_receive env c p).0
  sr_receive-Quiet c p established kind refused = elim (Bool-cases (sr_check_packet c p)) [
    | inr e ↦ unchecked-Quiet c p established kind e
    | inl e ↦
        absurd (omega (arith, sym (accepted-flag env c p established kind) ∙ refused, ap flag e))
  ]
