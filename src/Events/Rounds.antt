-- ===== src/Events/Rounds.antt =====
-- What one round of `event_system_start` of src/c/util/event_system.c does.
use librasta.Base.{
  ℕ, ◌+◌, ◌*◌, ◌/◌, ◌%◌, ◌≤◌, ◌<◌, ◌≡◌, ◌≢◌, ◌⊎◌, inl, inr, Bool-cases, sym, ap, ◌∙◌, Option, some,
  List, if◌then◌else◌, arith, length, ◌==◌, u64,
}
use librasta.Events.{uint64_max}
use librasta.Events.Links.{Represents}
use librasta.Events.Next.{soonest, IsDue, calc_next_timed_event-eq-soonest}
use librasta.Events.Loop.{
  World, Calls, event_round, event_system_sleep, after_sleep, after_fire, round_at, fire_next,
  timeout_of,
}

-- The time that `select` is given is the time to wait in whole microseconds.
pub timeout_of-value :
    (time_to_wait : ℕ)
    → time_to_wait < uint64_max
    → (seconds : ℕ) × (micros : ℕ) × (timeout_of time_to_wait ≡ some (seconds, micros))
      × (micros < 1000000)
      × (seconds * 1000000 + micros ≡ time_to_wait / 1000)
unfolding timeout_of
timeout_of-value t h = (t / 1000000000, t / 1000 % 1000000, ground arith, omega arith, omega arith)

module _ {W : Type 0} (c : Calls W) where
  -- The world after the clock is read, and the time that was read.
  abbrev pub at_clock : World W → World W
  at_clock w = record w { rest = (c.nanotime w.rest).1 }

  abbrev pub clock_time : World W → ℕ
  clock_time w = (c.nanotime w.rest).0

  -- The least time until an enabled timer is due.
  abbrev pub wait_time : World W → List ℕ → ℕ
  wait_time w xs = soonest w.timers.node (clock_time w) xs

  -- A round either calls an enabled timer of the list that is due, and then notes the time that was
  -- read as the time of its last call unless the callback stops the loop, or no timer is due and it
  -- sleeps until the soonest one. It never calls through the pointer that was not set.
  pub event_round_lem :
      (fuel : ℕ) (stale : Option ℕ) (w : World W) (xs : List ℕ)
      → Represents w.timers xs
      → length xs ≤ fuel
      → ((wait_time w xs ≡ 0)
          × (x : ℕ) × IsDue w.timers.node (clock_time w) xs x 0
          × (event_round c fuel stale w
              ≡ some (after_fire c x (u64 (clock_time w)) (c.fire x (at_clock w)))))
        ⊎ ((wait_time w xs ≢ 0)
            × (event_round c fuel stale w
                ≡ after_sleep c (event_system_sleep c fuel (wait_time w xs) (at_clock w))))
  unfolding event_round
  event_round_lem fuel stale w xs r f =
      let time = clock_time w in
      let t = wait_time w xs in
      let (o, found, which) = calc_next_timed_event-eq-soonest fuel w.timers xs stale time r f in
      let ran : event_round c fuel stale w ≡ round_at c fuel time (at_clock w) (some (o, t)) =
        ap (round_at c fuel time (at_clock w)) found in
      elim (Bool-cases (t == 0)) [
        | inl now ↦
            let zero_time : t ≡ 0 = ground arith in
            elim which [
              | inl kept ↦ absurd (omega (arith, kept.1))
              | inr (x, at, due) ↦ inl (
                zero_time,
                x,
                record {
                  member = due.member;
                  enabled = due.enabled;
                  after = due.after ∙ zero_time;
                },
                ran
                    ∙ ap (λ p. round_at c fuel time (at_clock w) (some (p, t))) at
                    ∙ ap (λ k. round_at c fuel time (at_clock w) (some (some x, k))) zero_time
                    ∙ ap (λ k. some (after_fire c x (u64 k) (c.fire x (at_clock w)))) {x = time + 0}
                        {y = time} (omega arith),
              )
            ]
        | inr ahead ↦ inr (
          (λ z. cc (sym ahead ∙ ap (λ k. k == 0) z)),
          ran
              ∙ ap
                  (λ b.
                    if b
                    then some (fire_next c o (u64 (time + t)) (at_clock w))
                    else after_sleep c (event_system_sleep c fuel t (at_clock w)))
                  ahead,
        )
      ]
