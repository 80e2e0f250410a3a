-- ===== src/Redundancy/Deliver.antt =====
-- `red_f_deliverDeferQueue` of src/c/redundancy/rastaredundancy.c: which packets it delivers.

use librasta.Base.{
  ℕ, zero, suc, ◌+◌, ◌-◌, ◌≡◌, ◌≤◌, ◌<◌, refl, ap, ltb, leb, ◌==◌, if◌then◌else◌, Bool, true, false,
  ◌&&◌, Option, none, some, List, [], ◌∷◌, length, arith, Bool-cases, inl, inr, u64, length-take,
}
use librasta.Packet.{RastaPacket, RastaRedundancyPacket}
use librasta.Packet.Codec.{
  Decoded, too_short, overread, decoded, decode_error, rasta_module_to_bytes, bytes_to_rasta_packet,
}
use librasta.DeferQueue.{
  DeferQueue, Wrapper, IsDeferQueue, live, deferqueue_contains, deferqueue_remove, deferqueue_get,
}
use librasta.DeferQueue.Sort.{Rearranges, occurrences}
use librasta.DeferQueue.Multiset.{queued, contains_iff, queued-remove}
use librasta.DeferQueue.Search.{Holds, get-Holds}
use librasta.Connection.{Connection, Env}
use librasta.Sr.Keeps.{KeepsReceiving, KeepsReceiving-trans}
use librasta.Sr.Receive.Edges.{Handled}
use librasta.Sr.Receive.States.{sr_receive-Handled}
use librasta.Redundancy.{
  zero_packet, deliver_decoded, deliver_bytes, deliver_packet, deliver_one, deliver_from, or_int,
  red_f_deliver_defer_queue, drop_delivered,
}

-- A run of `k` deliveries from `c` to `c'`.
pub record Delivery (c c' : Connection) (k : ℕ) : Type 0 where
  pub advance : c'.channel.seq_rx ≡ c.channel.seq_rx + k
  pub contiguous : (j : ℕ) → j < k → 0 < queued c.channel.defer_q (c.channel.seq_rx + j)
  pub gap : queued c.channel.defer_q (c.channel.seq_rx + k) ≡ 0
  pub taken :
      (s : ℕ)
      → queued c'.channel.defer_q s
        ≡ queued c.channel.defer_q s
          - (if leb c.channel.seq_rx s && ltb s (c.channel.seq_rx + k) then 1 else 0)
  pub size : c'.channel.defer_q.count + k ≡ c.channel.defer_q.count
  pub valid : IsDeferQueue c'.channel.defer_q

occurrences_bounded : (s : ℕ) (ws : List Wrapper) → occurrences s ws ≤ length ws
occurrences_bounded s [] = omega arith
occurrences_bounded s (w ∷ ws) = ground (arith, occurrences_bounded s ws)

queued_bounded : (s : ℕ) (q : DeferQueue) → IsDeferQueue q → queued q s ≤ q.count
queued_bounded s q v = omega (
  arith,
  occurrences_bounded s (live q),
  length-take q.count q.elements (omega (arith, v.allocated, v.bounded)),
)

module _ (env : Env) where
  deliver_decoded-Keeps :
      (d : Decoded) (c : Connection) → KeepsReceiving c (deliver_decoded env d c).0
  deliver_decoded-Keeps too_short c = ground arith
  deliver_decoded-Keeps overread c = ground arith
  deliver_decoded-Keeps (decoded p) c = Handled.receiving (sr_receive-Handled env c p)

  deliver_bytes-Keeps :
      (o : Option (List ℕ)) (c : Connection) → KeepsReceiving c (deliver_bytes env o c).0
  deliver_bytes-Keeps none c = ground arith
  deliver_bytes-Keeps (some bytes) c =
      KeepsReceiving-trans
        {b = record c {
          lasterror = decode_error c.lasterror (bytes_to_rasta_packet env.hashing bytes);
        }}
        (ground arith) (deliver_decoded-Keeps _ _)

  pub deliver_packet-Keeps :
      (p : RastaPacket) (c : Connection) → KeepsReceiving c (deliver_packet env p c).0
  unfolding deliver_packet
  deliver_packet-Keeps p c =
      KeepsReceiving-trans
        {b = record c { lasterror = (rasta_module_to_bytes env.hashing c.lasterror p).0 }}
        (ground arith) (deliver_bytes-Keeps _ _)

  deliver_one-seq_rx :
      (c : Connection) → (deliver_one env c).0.channel.seq_rx ≡ u64 (c.channel.seq_rx + 1)
  unfolding deliver_one
  deliver_one-seq_rx c = ground (
    arith,
    deliver_packet-Keeps (deferqueue_get zero_packet c.channel.defer_q c.channel.seq_rx).inner c,
  )

  deliver_one-defer_q :
      (c : Connection)
      → (deliver_one env c).0.channel.defer_q
        ≡ deferqueue_remove env.qsort c.channel.defer_q c.channel.seq_rx
  unfolding deliver_one
  deliver_one-defer_q c = ground (
    arith,
    deliver_packet-Keeps (deferqueue_get zero_packet c.channel.defer_q c.channel.seq_rx).inner c,
  )

  -- The packets are handed up one after the other by `deliver_packet`, each with the awaited number
  -- and from an entry of the queue, in the state that is left once the one before it was taken out.
  unfoldable pub Delivered : Connection → List RastaRedundancyPacket → Connection → Type 0
  Delivered c [] c' = c' ≡ c
  Delivered c (p ∷ ps) c' =
      Holds p (live c.channel.defer_q)
      × (p.sequence_number ≡ c.channel.seq_rx)
      × Delivered (drop_delivered env (deliver_packet env p.inner c).0) ps c'

  Delivery-stop :
      (c : Connection) (v : IsDeferQueue c.channel.defer_q)
      (absent : deferqueue_contains c.channel.defer_q c.channel.seq_rx ≡ false)
      → Delivery c c 0
  Delivery-stop c v absent =
      let e = contains_iff c.channel.defer_q c.channel.seq_rx in
      record {
        advance = omega arith;
        contiguous = λ j h. absurd (omega arith);
        gap = ground (arith, e, absent);
        taken = λ s. ground arith;
        size = omega arith;
        valid = v;
      }

  module _ (r : Rearranges env.qsort) where
    queued-rest :
        (c d : Connection) (v : IsDeferQueue c.channel.defer_q)
        (rest : d.channel.defer_q ≡ deferqueue_remove env.qsort c.channel.defer_q c.channel.seq_rx)
        (s : ℕ)
        → queued d.channel.defer_q s
          ≡ queued c.channel.defer_q s - (if c.channel.seq_rx == s then 1 else 0)
    queued-rest c d v rest s =
        rw rest (queued-remove env.qsort r c.channel.defer_q c.channel.seq_rx s v).0

    count-rest :
        (c d : Connection) (v : IsDeferQueue c.channel.defer_q)
        (present : 0 < queued c.channel.defer_q c.channel.seq_rx)
        (rest : d.channel.defer_q ≡ deferqueue_remove env.qsort c.channel.defer_q c.channel.seq_rx)
        → d.channel.defer_q.count + 1 ≡ c.channel.defer_q.count
    count-rest c d v present rest = rw rest (
        omega (
          arith,
          (queued-remove env.qsort r c.channel.defer_q c.channel.seq_rx 0 v).1,
          queued_bounded c.channel.seq_rx c.channel.defer_q v,
        ))

    contiguous-step :
        (c d c' : Connection) (k : ℕ) (v : IsDeferQueue c.channel.defer_q)
        (present : 0 < queued c.channel.defer_q c.channel.seq_rx)
        (next : d.channel.seq_rx ≡ c.channel.seq_rx + 1)
        (rest : d.channel.defer_q ≡ deferqueue_remove env.qsort c.channel.defer_q c.channel.seq_rx)
        (run : Delivery d c' k) (j : ℕ)
        → j < suc k
        → 0 < queued c.channel.defer_q (c.channel.seq_rx + j)
    contiguous-step c d c' k v present next rest run zero h = omega (
      arith,
      ap (queued c.channel.defer_q) {x = c.channel.seq_rx + 0} {y = c.channel.seq_rx} (omega arith),
    )
    contiguous-step c d c' k v present next rest run (suc j) h = omega (
      arith,
      Delivery.contiguous run j (omega arith),
      queued-rest c d v rest (d.channel.seq_rx + j),
      ap (queued c.channel.defer_q) {x = d.channel.seq_rx + j} {y = c.channel.seq_rx + suc j}
          (omega arith),
    )

    -- One packet in front of a run.
    Delivery-step :
        (c d c' : Connection) (k : ℕ) (v : IsDeferQueue c.channel.defer_q)
        (present : 0 < queued c.channel.defer_q c.channel.seq_rx)
        (next : d.channel.seq_rx ≡ c.channel.seq_rx + 1)
        (rest : d.channel.defer_q ≡ deferqueue_remove env.qsort c.channel.defer_q c.channel.seq_rx)
        (run : Delivery d c' k)
        → Delivery c c' (suc k)
    Delivery-step c d c' k v present next rest run = record {
      advance = omega (arith, run.advance);
      contiguous = contiguous-step c d c' k v present next rest run;
      gap = ground (
        arith,
        run.gap,
        queued-rest c d v rest (d.channel.seq_rx + k),
        ap (queued c.channel.defer_q) {x = d.channel.seq_rx + k} {y = c.channel.seq_rx + suc k}
            (omega arith),
      );
      taken = λ s. ground (arith, run.taken s, queued-rest c d v rest s, next);
      size = omega (arith, run.size, count-rest c d v present rest);
      valid = run.valid;
    }

    -- The outcome of the loop: it ended by its test, after a run of deliveries.
    abbrev pub Outcome : Connection → Connection × ℕ × Bool → Type 0
    Outcome c o =
        (o.2 ≡ true)
        × ((ps : List RastaRedundancyPacket) × Delivered c ps o.0 × Delivery c o.0 (length ps))

    Outcome-step :
        (c : Connection) (v : IsDeferQueue c.channel.defer_q)
        (small : c.channel.seq_rx + c.channel.defer_q.count < 18446744073709551616)
        (present : 0 < queued c.channel.defer_q c.channel.seq_rx)
        (found : Holds
            (deferqueue_get zero_packet c.channel.defer_q c.channel.seq_rx)
            (live c.channel.defer_q)
          × ((deferqueue_get zero_packet c.channel.defer_q c.channel.seq_rx).sequence_number
              ≡ c.channel.seq_rx))
        (o : Connection × ℕ × Bool)
        → Outcome (deliver_one env c).0 o
        → Outcome c o
    unfolding Delivered deliver_one
    Outcome-step c v small present found o (ended, (ps, given, run)) = (
      ended,
      (
        deferqueue_get zero_packet c.channel.defer_q c.channel.seq_rx ∷ ps,
        (found.0, found.1, given),
        Delivery-step c (deliver_one env c).0 o.0 (length ps) v present
            (omega (
              arith,
              deliver_one-seq_rx c,
              count-rest c (deliver_one env c).0 v present (deliver_one-defer_q c),
            ))
            (deliver_one-defer_q c) run,
      ),
    )

    deliver_one-size :
        (c : Connection) (v : IsDeferQueue c.channel.defer_q)
        (present : 0 < queued c.channel.defer_q c.channel.seq_rx)
        → (deliver_one env c).0.channel.defer_q.count + 1 ≡ c.channel.defer_q.count
    deliver_one-size c v present =
        count-rest c (deliver_one env c).0 v present (deliver_one-defer_q c)

    deliver_one-valid :
        (c : Connection) (v : IsDeferQueue c.channel.defer_q)
        → IsDeferQueue (deliver_one env c).0.channel.defer_q
    deliver_one-valid c v =
        rw (deliver_one-defer_q c)
          (queued-remove env.qsort r c.channel.defer_q c.channel.seq_rx 0 v).2

    contains-present : (q : DeferQueue) (s : ℕ) → deferqueue_contains q s ≡ true → 0 < queued q s
    contains-present q s e = ground (arith, contains_iff q s, e)

    empty-absent :
        (q : DeferQueue) (s : ℕ) (v : IsDeferQueue q)
        → q.count ≤ 0
        → deferqueue_contains q s ≡ false
    empty-absent q s v e = ground (arith, contains_iff q s, queued_bounded s q v)

    deliver_from-Outcome :
        (fuel result : ℕ) (c : Connection) (v : IsDeferQueue c.channel.defer_q)
        (enough : c.channel.defer_q.count ≤ fuel)
        (small : c.channel.seq_rx + c.channel.defer_q.count < 18446744073709551616)
        → Outcome c (deliver_from env fuel result c)
    unfolding deliver_from Delivered
    deliver_from-Outcome zero result c v enough small =
        let e = empty-absent c.channel.defer_q c.channel.seq_rx v enough in
        (rw e refl, ([], refl, Delivery-stop c v e))
    deliver_from-Outcome (suc fuel) result c v enough small =
        elim (Bool-cases (deferqueue_contains c.channel.defer_q c.channel.seq_rx)) [
          | inr e ↦ rw e (refl, ([], refl, Delivery-stop c v e))
          | inl e ↦
              let present = contains-present c.channel.defer_q c.channel.seq_rx e in
              rw e (
                Outcome-step c v small present
                  (get-Holds zero_packet c.channel.defer_q c.channel.seq_rx e)
                  (deliver_from env fuel (or_int result (deliver_one env c).1)
                    (deliver_one env c).0)
                  (deliver_from-Outcome fuel (or_int result (deliver_one env c).1)
                    (deliver_one env c).0 (deliver_one-valid c v)
                    (omega (arith, deliver_one-size c v present))
                    (omega (arith, deliver_one-size c v present, deliver_one-seq_rx c))))
        ]

    -- With a well-formed defer queue and a receive counter that does not wrap, the loop of
    -- `red_f_deliverDeferQueue` ends within as many rounds as the queue has entries. It hands
    -- packets up by `deliver_packet`, one after the other, each an entry of the queue with the
    -- number that the counter has reached. Their numbers are exactly those that follow the counter
    -- without a gap: each was queued, the number after them was not, every one of them loses one
    -- entry of the queue and no other number loses any, and the counter moves past them, whatever
    -- the upper layer does with each.
    pub deliver_defer_queue-Delivery :
        (c : Connection) (v : IsDeferQueue c.channel.defer_q)
        (small : c.channel.seq_rx + c.channel.defer_q.count < 18446744073709551616)
        → Outcome c (red_f_deliver_defer_queue env c)
    unfolding red_f_deliver_defer_queue
    deliver_defer_queue-Delivery c v small =
        deliver_from-Outcome c.channel.defer_q.count 0 c v (omega arith) small
