-- ===== src/Redundancy/Accept.antt =====
-- Which packets `receive_packet` and `red_f_receiveData` put in the defer queue
-- (src/c/redundancy).
use librasta.Base.{ℕ, ◌+◌, ◌≡◌, ltb, leb, ◌==◌, if◌then◌else◌, Bool, not, ◌&&◌, ◌||◌, arith}
use librasta.Packet.{RastaRedundancyPacket}
use librasta.DeferQueue.{IsDeferQueue, deferqueue_contains, deferqueue_isfull}
use librasta.DeferQueue.Sort.{Rearranges}
use librasta.DeferQueue.Multiset.{queued, queued-add}
use librasta.Connection.{Connection, Env}
use librasta.Redundancy.{
  accept_packet, red_f_receive_data, receive_by_seq, receive_late, defer_packet, note_arrival,
  defer_limit,
}

-- Whether a packet is queued: intact, from the peer, room in the queue, not the out-of-order first
-- packet of a fresh channel, and either the number awaited or one of the window that is not
-- queued yet.
unfoldable pub takes : Connection → RastaRedundancyPacket → Bool
takes c p =
    let q = c.channel.defer_q in
    c.channel.associated_id == p.inner.sender_id
    && (not (deferqueue_isfull q)
        && (p.checksum_correct
            && (not
                  (c.channel.seq_rx == 0 && (c.channel.seq_tx == 0 && not (p.sequence_number == 0)))
                && (p.sequence_number == c.channel.seq_rx
                    || (ltb c.channel.seq_rx p.sequence_number
                        && (leb p.sequence_number (defer_limit c)
                            && not (deferqueue_contains q p.sequence_number)))))))

module _ (env : Env) (r : Rearranges env.qsort) where
  -- With a well-formed defer queue, `receive_packet` queues a packet exactly if it comes from the
  -- peer, the queue has room, its check code is right, it is not a first packet with a number other
  -- than 0 on a fresh channel, and its number is the awaited one or lies ahead of it within the
  -- window and is not queued; no other number is queued or removed, and the counter stays.
  pub accept-queued :
      (c : Connection) (p : RastaRedundancyPacket) (i s : ℕ) (v : IsDeferQueue c.channel.defer_q)
      → (queued (accept_packet env p i c).0.channel.defer_q s
          ≡ queued c.channel.defer_q s + (if takes c p && (p.sequence_number == s) then 1 else 0))
        × ((accept_packet env p i c).0.channel.seq_rx ≡ c.channel.seq_rx)
  unfolding accept_packet red_f_receive_data receive_by_seq receive_late defer_packet note_arrival
      takes
  accept-queued c p i s v = ground (
    arith,
    (queued-add env.qsort r c.channel.defer_q p (env.clock c.ticks) s v).1,
    (queued-add env.qsort r c.channel.defer_q p (env.clock (c.ticks + 1)) s v).1,
  )
