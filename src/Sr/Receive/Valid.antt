-- ===== src/Sr/Receive/Valid.antt =====
-- Which data packets `sr_receive` and `handle_data` of src/c/retransmission accept in state UP.
use librasta.Base.{
  ℕ, ◌≡◌, ◌≤◌, ◌<◌, ◌↔◌, ◌∙◌, sym, ap, refl, ◌==◌, if◌then◌else◌, Bool, true, false, ◌&&◌, arith,
  Bool-cases, inl, inr,
}
use librasta.Packet.{RastaPacket}
use librasta.Packet.ConnType
use librasta.Connection.{Connection, SrState, up, Env}
use librasta.Sr.Handshake.{handle_conreq, handle_conresp}
use librasta.Sr.Checks.{
  sr_check_packet, sr_message_authentic, sr_sn_range_valid, sr_cs_valid, sr_sn_in_seq,
  sr_cts_in_seq,
}
use librasta.Sr.Checks.Spec.{IsValidData, sr_check_packet-IsValidData}
use librasta.Sr.Handlers.{handle_data, data_in_seq, data_out_of_seq}
use librasta.Sr.Receive.{sr_receive, handle_received_packet}

abbrev pub flag : Bool → ℕ
flag b = if b then 1 else 0

module _ (env : Env) where
  -- The chain of checks behind the dispatch.
  pub received-data :
      (c : Connection) (p : RastaPacket)
      → p.type ≡ ConnType.data_message
      → (handle_received_packet env c p) ≡ handle_data env c p
  unfolding handle_received_packet
  received-data c p kind = rw kind refl

  data-flag :
      (s : SrState) (c : Connection) (p : RastaPacket)
      → s ≡ up
      → (if sr_sn_in_seq c p then data_in_seq env s c p else data_out_of_seq env s c).1
        ≡ flag (sr_sn_in_seq c p && sr_cts_in_seq c p)
  data-flag s c p u = elim (Bool-cases (sr_sn_in_seq c p)) [
    | inr e ↦ rw (u, e) refl
    | inl e ↦ elim (Bool-cases (sr_cts_in_seq c p)) [
      | inl f ↦ rw (u, e, f) refl
      | inr f ↦ rw (u, e, f) refl
    ]
  ]

  handled-data :
      (c : Connection) (p : RastaPacket)
      → c.current_state ≡ up
      → p.type ≡ ConnType.data_message
      → (handle_received_packet env c p).1 ≡ flag (sr_sn_in_seq c p && sr_cts_in_seq c p)
  unfolding handle_data
  handled-data c p u kind = ap (λ r. r.1) (received-data c p kind) ∙ data-flag c.current_state c p u

  -- A chain of checks, each with an outcome of its own if it fails.
  chain-flag :
      (a b d e f : Bool) (w x y z : Connection) (r : Connection × ℕ)
      → r.1 ≡ flag f
      → (if a
          then (if b then (if d then (if e then r else (w, 0)) else (x, 0)) else (y, 0))
          else (z, 0)).1
        ≡ flag (a && (b && (d && (e && f))))
  chain-flag true true true true f w x y z r h = h
  chain-flag true true true false f w x y z r h = refl
  chain-flag true true false e f w x y z r h = refl
  chain-flag true false d e f w x y z r h = refl
  chain-flag false b d e f w x y z r h = refl

  dispatched :
      (c : Connection) (p : RastaPacket) (a b : Bool) (r : Connection × ℕ)
      → a ≡ false
      → b ≡ false
      → (if a then (handle_conreq env c p, 0) else if b then (handle_conresp env c p, 1) else r).1
        ≡ r.1
  dispatched c p a b r h k = rw (h, k) refl

  -- `sr_receive` ends the event loop exactly for a packet that passes all six checks.
  pub accepted-flag :
      (c : Connection) (p : RastaPacket)
      → c.current_state ≡ up
      → p.type ≡ ConnType.data_message
      → (sr_receive env c p).1 ≡ flag (sr_check_packet c p)
  unfolding sr_receive sr_check_packet
  accepted-flag c p u kind =
      dispatched c p (p.type == ConnType.connreq) (p.type == ConnType.connresp) _
        (ground (arith, kind)) (ground (arith, kind))
      ∙ chain-flag p.checksum_correct (sr_message_authentic c p) (sr_sn_range_valid c p)
          (sr_cs_valid c p) (sr_sn_in_seq c p && sr_cts_in_seq c p) _ _ _ _
          (handle_received_packet env c p) (handled-data c p u kind)

  flag-true : (b : Bool) → (flag b ≡ 1) ↔ (b ≡ true)
  flag-true true = (λ h. refl, λ h. refl)
  flag-true false = (λ h. absurd (omega (arith, h)), λ h. absurd (cc h))

  -- In state UP, where the last confirmed number `cs_r` is not past the next one `sn_t`, a received
  -- data packet is accepted, which `sr_receive` tells by the result 1, exactly if it is intact,
  -- comes from the peer, has the number awaited, confirms a number from `cs_r` to before `sn_t`,
  -- and carries a confirmed time that is less than `t_max` past the last one, if there is a last
  -- one.
  pub sr_receive-IsValidData :
      (c : Connection) (p : RastaPacket) (established : c.current_state ≡ up)
      (kind : p.type ≡ ConnType.data_message) (ordered : c.cs_r ≤ c.sn_t)
      (bounded : c.sn_t < 4294967296)
      → ((sr_receive env c p).1 ≡ 1) ↔ IsValidData c p
  sr_receive-IsValidData c p established kind ordered bounded =
      let e = accepted-flag c p established kind in
      let (sound, complete) = sr_check_packet-IsValidData c p kind ordered bounded in
      let (one, back) = flag-true (sr_check_packet c p) in
      (λ h. sound (one (sym e ∙ h)), λ v. e ∙ back (complete v))
