-- ===== src/Entry/Receiving.antt =====
-- `rasta_recv` of src/c/rasta.c hands the messages over in order.
use librasta.Base.{
  ℕ, zero, suc, ◌-◌, ◌≡◌, refl, ap, ◌∙◌, ltb, ◌==◌, if◌then◌else◌, false, ◌&&◌, Option, none, some,
  List, [], ◌∷◌, ◌++◌, length, take, arith,
}
use Prim.Native.Nat.{min}
use librasta.Fifo.{Fifo, IsFifo, fifo_pop, fifo_get_size}
use librasta.Fifo.Laws.{fifo_pop-cons}
use librasta.Connection.{Connection, up}
use librasta.Entry.{
  is_up, await_message, Received, not_up, bytes, receive_now, receive_popped, rasta_recv,
}

-- A message as far as it fits into `len` bytes.
abbrev pub handed_over : ℕ → List ℕ → Received
handed_over len m = bytes (take (min len (length m)) m)

abbrev pub handed_over_all : ℕ → List (List ℕ) → List Received
handed_over_all len [] = []
handed_over_all len (m ∷ ms) = handed_over len m ∷ handed_over_all len ms

-- The connection without the first messages of its receive queue.
abbrev pub with_received : Connection → List (List ℕ) → ℕ → Connection
with_received c ms size = record c {
  fifo_receive = record c.fifo_receive { elements = ms; size = size };
}

receive_now-up :
    (len : ℕ) (c : Connection) (m : List ℕ) (ms : List (List ℕ))
    → c.current_state ≡ up
    → IsFifo c.fifo_receive
    → c.fifo_receive.elements ≡ m ∷ ms
    → receive_now len c ≡ (with_received c ms (c.fifo_receive.size - 1), handed_over len m)
unfolding receive_now
receive_now-up len c m ms u v e =
    ap
      (λ b.
        if b
        then receive_popped len (record c { fifo_receive = (fifo_pop c.fifo_receive).1 })
            (fifo_pop c.fifo_receive).0
        else (c, not_up))
      (ap is_up u)
    ∙ ap
        (λ (p : Option (List ℕ) × Fifo (List ℕ)).
          receive_popped len (record c { fifo_receive = p.1 }) p.0)
        (fifo_pop-cons c.fifo_receive m ms v e)
    ∙ ap (λ n. (with_received c ms (c.fifo_receive.size - 1), bytes (take n m)))
        {x = if ltb len (length m) then len else length m} {y = min len (length m)} (ground arith)

await_message-ready :
    (fuel : ℕ) (event_loop : Connection → Connection) (c : Connection)
    → (is_up c.current_state && (fifo_get_size c.fifo_receive == 0)) ≡ false
    → await_message (suc fuel) event_loop c ≡ some c
unfolding await_message
await_message-ready fuel event_loop c h = rw h refl

rasta_recv-up :
    (fuel : ℕ) (event_loop : Connection → Connection) (len : ℕ) (c : Connection) (m : List ℕ)
    (ms : List (List ℕ))
    → c.current_state ≡ up
    → IsFifo c.fifo_receive
    → c.fifo_receive.elements ≡ m ∷ ms
    → rasta_recv (suc fuel) event_loop c len
      ≡ some (with_received c ms (c.fifo_receive.size - 1), handed_over len m)
unfolding rasta_recv fifo_get_size
rasta_recv-up fuel event_loop len c m ms u v e =
    let filled : (c.fifo_receive.size == 0) ≡ false = ground (arith, v.counted, ap length e) in
    let ready : (is_up c.current_state && (c.fifo_receive.size == 0)) ≡ false =
      ap (λ b. is_up c.current_state && b) filled ∙ ap (λ t. is_up t && false) u in
    ap (λ (o : Option Connection). elim o [ none ↦ none | some r ↦ some (receive_now len r) ])
      (await_message-ready fuel event_loop c ready)
    ∙ ap some (receive_now-up len c m ms u v e)

abbrev more : Option (Connection × List Received) → Received → Option (Connection × List Received)
more none r = none
more (some (last, rs)) r = some (last, r ∷ rs)

module _ (event_loop : Connection → Connection) (fuel len : ℕ) where
  -- The results of `n` calls of `rasta_recv`.
  pub recv_times : ℕ → Connection → Option (Connection × List Received)
  recv_times zero c = some (c, [])
  recv_times (suc n) c = elim (rasta_recv (suc fuel) event_loop c len) [
    | none ↦ none
    | some r ↦ more (recv_times n r.0) r.1
  ]

  -- On an established connection the first messages of the receive queue are handed over in their
  -- order, each cut to the caller's buffer, and taken off the queue; nothing else changes, and the
  -- event loop is not run.
  pub recv_times_lem :
      (c : Connection) (ms rest : List (List ℕ))
      → c.current_state ≡ up
      → IsFifo c.fifo_receive
      → c.fifo_receive.elements ≡ ms ++ rest
      → recv_times (length ms) c ≡ some (with_received c rest (length rest), handed_over_all len ms)
  unfolding recv_times
  recv_times_lem c [] rest u v e =
      ap (λ q. some (with_received c q c.fifo_receive.size, [])) e
      ∙ ap (λ n. some (with_received c rest n, [])) (v.counted ∙ ap length e)
  recv_times_lem c (m ∷ ms) rest u v e =
      let after = with_received c (ms ++ rest) (c.fifo_receive.size - 1) in
      let queue : IsFifo after.fifo_receive = record {
        counted = omega (arith, v.counted, ap length e);
        bounded = omega (arith, v.bounded);
      } in
      ap
        (λ (o : Option (Connection × Received)). elim o [
          | none ↦ none
          | some r ↦ more (recv_times (length ms) r.0) r.1
        ])
        (rasta_recv-up fuel event_loop len c m (ms ++ rest) u v e)
      ∙ ap (λ o. more o (handed_over len m)) (recv_times_lem after ms rest u queue refl)
