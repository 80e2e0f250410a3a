-- ===== src/Events/Loop.antt =====
-- `event_system_sleep` and `event_system_start` of src/c/util/event_system.c. The callbacks, the
-- clock and `select` are parameters that act on the world: the two lists and what else there is.
-- File descriptors are not negative.
use librasta.Base.{
  ℕ, zero, suc, ◌+◌, ◌/◌, ◌%◌, Bool, true, false, ◌&&◌, Option, none, some, List, [], ◌∷◌,
  if◌then◌else◌, leb, ◌==◌, u64, bit_and,
}
use librasta.Events.{Events, Timer, Watch, update, uint64_max, calc_next_timed_event, get_max_nfds}

pub record World (W : Type 0) : Type 0 where
  pub timers : Events Timer
  pub watches : Events Watch
  pub rest : W

-- The three sets of descriptors that `select` takes and changes.
pub record FdSets : Type 0 where
  pub readable : List ℕ
  pub writable : List ℕ
  pub exceptional : List ℕ

-- A callback returns whether the loop is to stop. `select` returns no count for -1.
pub record Calls (W : Type 0) : Type 0 where
  pub nanotime : W → ℕ × W
  pub fire : ℕ → World W → World W × Bool
  pub watch : ℕ → World W → World W × Bool
  pub select : ℕ → FdSets → Option (ℕ × ℕ) → W → Option (ℕ × FdSets) × W

abbrev pub is_set : ℕ → List ℕ → Bool
is_set fd [] = false
is_set fd (x ∷ xs) = if fd == x then true else is_set fd xs

-- `if (current->options & flag) FD_SET(current->fd, &set)`
abbrev pub set_if : ℕ → Watch → List ℕ → List ℕ
set_if flag w fds = if bit_and w.options flag == 0 then fds else w.fd ∷ fds

abbrev pub watch_sets : Watch → FdSets → FdSets
watch_sets w sets =
    if w.enabled
    then record {
      readable = set_if 1 w sets.readable;
      writable = set_if 2 w sets.writable;
      exceptional = set_if 4 w sets.exceptional;
    }
    else sets

pub sets_from : ℕ → Events Watch → Option ℕ → FdSets → Option FdSets
sets_from fuel s none sets = some sets
sets_from zero s (some p) sets = none
sets_from (suc fuel) s (some p) sets =
    sets_from fuel s (s.node p).next (watch_sets (s.node p).event sets)

-- `tv`, or the null pointer for the greatest time: seconds and microseconds.
unfoldable pub timeout_of : ℕ → Option (ℕ × ℕ)
timeout_of time_to_wait =
    if time_to_wait == uint64_max
    then none
    else some (time_to_wait / 1000000000, time_to_wait / 1000 % 1000000)

-- How a round of the event loop ends. `wild` calls through the pointer that was never set.
pub data Round (W : Type 0) : Type 0 where
  stopped : World W → Round W
  goes_on : World W → Round W
  wild : Round W

module _ {W : Type 0} (c : Calls W) where
  -- The event is called if it is enabled and its descriptor is in the set.
  abbrev pub call_if : List ℕ → ℕ → World W → World W × Bool
  call_if ready p w =
      let e = (w.watches.node p).event in
      if e.enabled && is_set e.fd ready then c.watch p w else (w, false)

  abbrev pub call_unless : World W × Bool → List ℕ → ℕ → World W × Bool
  call_unless (w, true) ready p = (w, true)
  call_unless (w, false) ready p = call_if ready p w

  abbrev pub call_watch : FdSets → ℕ → World W → World W × Bool
  call_watch sets p w =
      call_unless (call_unless (call_if sets.readable p w) sets.writable p) sets.exceptional p

  -- The outer `none` is too little fuel for the list, the inner one the result -1.
  pub call_watches : ℕ → ℕ → FdSets → Option ℕ → World W → Option (World W × Option ℕ)
  call_watches fuel result sets none w = some (w, some result)
  call_watches zero result sets (some p) w = none
  call_watches (suc fuel) result sets (some p) w =
      let (after, stop) = call_watch sets p w in
      let next = call_watches fuel result sets (after.watches.node p).next after in
      if stop then some (after, none) else next

  abbrev pub after_select : ℕ → World W → Option (ℕ × FdSets) × W → Option (World W × Option ℕ)
  after_select fuel w (none, rest) = some (record w { rest = rest }, none)
  after_select fuel w (some (result, sets), rest) =
      call_watches fuel result sets w.watches.first (record w { rest = rest })

  abbrev pub no_sets : FdSets
  no_sets = record { readable = []; writable = []; exceptional = [] }

  pub sleep_with : ℕ → ℕ → World W → Option ℕ → Option FdSets → Option (World W × Option ℕ)
  sleep_with fuel time_to_wait w none sets = none
  sleep_with fuel time_to_wait w (some nfds) none = none
  sleep_with fuel time_to_wait w (some nfds) (some sets) =
      if leb 1024 nfds
      then some (w, none)
      else after_select fuel w (c.select nfds sets (timeout_of time_to_wait) w.rest)

  unfoldable pub event_system_sleep : ℕ → ℕ → World W → Option (World W × Option ℕ)
  unfolding sleep_with
  event_system_sleep fuel time_to_wait w =
      sleep_with fuel time_to_wait w (get_max_nfds fuel w.watches)
        (sets_from fuel w.watches w.watches.first no_sets)

  abbrev pub write_last_call : ℕ → ℕ → World W → World W
  write_last_call p time w =
      let n = w.timers.node p in
      let called = record n { event = record n.event { last_call = time } } in
      record w { timers = record w.timers { node = update w.timers.node p called } }

  pub reset_from : ℕ → Option ℕ → ℕ → World W → Option (World W)
  reset_from fuel none time w = some w
  reset_from zero (some p) time w = none
  reset_from (suc fuel) (some p) time w =
      reset_from fuel (w.timers.node p).next time (write_last_call p time w)

  -- -1 ends the loop; any other result of the sleep starts the next round.
  abbrev pub after_sleep : Option (World W × Option ℕ) → Option (Round W)
  after_sleep none = none
  after_sleep (some (w, none)) = some (stopped w)
  after_sleep (some (w, some result)) = some (goes_on w)

  abbrev pub after_fire : ℕ → ℕ → World W × Bool → Round W
  after_fire p time (w, true) = stopped w
  after_fire p time (w, false) = goes_on (write_last_call p time w)

  abbrev pub fire_next : Option ℕ → ℕ → World W → Round W
  fire_next none time w = wild
  fire_next (some p) time w = after_fire p time (c.fire p w)

  abbrev pub round_at : ℕ → ℕ → World W → Option (Option ℕ × ℕ) → Option (Round W)
  round_at fuel cur_time w none = none
  round_at fuel cur_time w (some (next, time_to_wait)) =
      if time_to_wait == 0
      then some (fire_next next (u64 (cur_time + time_to_wait)) w)
      else after_sleep (event_system_sleep fuel time_to_wait w)

  -- One round of `for (;;)`. `stale` is what `next_event` holds before it is set.
  unfoldable pub event_round : ℕ → Option ℕ → World W → Option (Round W)
  event_round fuel stale w =
      let (cur_time, rest) = c.nanotime w.rest in
      let now = record w { rest = rest } in
      round_at fuel cur_time now (calc_next_timed_event fuel now.timers stale cur_time)

  pub event_rounds : ℕ → ℕ → Option ℕ → World W → Option (World W)
  event_rounds zero fuel stale w = none
  event_rounds (suc rounds) fuel stale w = elim (event_round fuel stale w) [
    | none ↦ none
    | some r ↦ elim r [
      | stopped w' ↦ some w'
      | goes_on w' ↦ event_rounds rounds fuel stale w'
      | wild ↦ none
    ]
  ]

  pub event_system_start : ℕ → ℕ → Option ℕ → World W → Option (World W)
  event_system_start rounds fuel stale w =
      let (cur_time, rest) = c.nanotime w.rest in
      let now = record w { rest = rest } in
      elim (reset_from fuel now.timers.first cur_time now) [
        | none ↦ none
        | some w' ↦ event_rounds rounds fuel stale w'
      ]
