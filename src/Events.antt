-- ===== src/Events.antt =====
-- The event system of src/c/util/event_system.c: two doubly linked lists of events, each an address
-- in the memory of the caller, and the search for the timed event that is due next.
pub mod Order
pub mod Links
pub mod Add
pub mod Remove
pub mod Next
pub mod Loop
pub mod Rounds
use librasta.Base.{
  ℕ, zero, suc, ◌+◌, ◌-◌, ◌*◌, ◌/◌, ◌%◌, ◌^◌, Bool, true, false, ◌&&◌, Option, none, some, ltb, leb,
  ◌==◌, if◌then◌else◌, u64, sub64,
}

-- An event with its links; a null pointer is `none`.
pub record Node (A : Type 0) : Type 0 where
  pub prev : Option ℕ
  pub next : Option ℕ
  pub event : A

-- A list of an event system, with the memory that its events stand in.
pub record Events (A : Type 0) : Type 0 where
  pub first : Option ℕ
  pub last : Option ℕ
  pub node : ℕ → Node A

-- `timed_event` and `fd_event`, less their links and callbacks.
pub record Timer : Type 0 where
  pub interval : ℕ
  pub last_call : ℕ
  pub enabled : Bool

pub record Watch : Type 0 where
  pub fd : ℕ
  pub options : ℕ
  pub enabled : Bool

abbrev pub is_null : Option ℕ → Bool
is_null none = true
is_null (some p) = false

abbrev pub points_to : Option ℕ → ℕ → Bool
points_to none e = false
points_to (some p) e = p == e

module _ {A : Type 0} where
  abbrev pub update : (ℕ → Node A) → ℕ → Node A → ℕ → Node A
  update m p n q = if q == p then n else m q

  -- `p->prev = v` and `p->next = v`
  unfoldable pub write_prev : ℕ → Option ℕ → Events A → Events A
  write_prev p v s = record s { node = update s.node p (record (s.node p) { prev = v }) }

  unfoldable pub write_next : ℕ → Option ℕ → Events A → Events A
  write_next p v s = record s { node = update s.node p (record (s.node p) { next = v }) }

  -- `if (p) p->prev = v` and `if (p) p->next = v`
  abbrev pub write_prev_if : Option ℕ → Option ℕ → Events A → Events A
  write_prev_if none v s = s
  write_prev_if (some p) v s = write_prev p v s

  abbrev pub write_next_if : Option ℕ → Option ℕ → Events A → Events A
  write_next_if none v s = s
  write_next_if (some p) v s = write_next p v s

  -- The first argument is `last`.
  abbrev pub link_after : Option ℕ → Events A → ℕ → Events A
  link_after none s event =
      write_prev event none
        (write_next event none (record s { first = some event; last = some event }))
  link_after (some l) s event =
      let linked =
        write_next l (some event) (write_next event none (write_prev event (some l) s)) in
      record linked { last = some event }

  abbrev pub link_last : Events A → ℕ → Events A
  link_last s event = link_after s.last s event

  -- `none` is a failed assertion.
  unfoldable pub add_event : Events A → ℕ → Option (Events A)
  add_event s event =
      if is_null (s.node event).prev && is_null (s.node event).next
      then some (link_last s event)
      else none

  -- `first->next` where `first` is the event, and `last->prev` where `last` is.
  abbrev pub unlink_first : Events A → ℕ → Events A
  unlink_first s event = record s {
    first = if points_to s.first event then (s.node event).next else s.first;
  }

  abbrev pub unlink_last : Events A → ℕ → Events A
  unlink_last s event = record s {
    last = if points_to s.last event then (s.node event).prev else s.last;
  }

  abbrev pub unlink_prev : Events A → ℕ → Events A
  unlink_prev s event = write_next_if (s.node event).prev (s.node event).next s

  abbrev pub unlink_next : Events A → ℕ → Events A
  unlink_next s event = write_prev_if (s.node event).next (s.node event).prev s

  -- The links of the event itself stay as they were.
  unfoldable pub unlink : Events A → ℕ → Events A
  unlink s event = unlink_next (unlink_prev (unlink_last (unlink_first s event) event) event) event

abbrev pub add_timed_event : Events Timer → ℕ → Option (Events Timer)
add_timed_event = add_event

abbrev pub remove_timed_event : Events Timer → ℕ → Events Timer
remove_timed_event = unlink

abbrev pub write_options : ℕ → ℕ → Events Watch → Events Watch
write_options event options s = record s {
  node =
      update s.node event
        (record (s.node event) { event = record (s.node event).event { options = options } });
}

abbrev pub add_fd_event : Events Watch → ℕ → ℕ → Option (Events Watch)
add_fd_event s event options = elim (add_event s event) [
  | none ↦ none
  | some t ↦ some (write_options event options t)
]

unfoldable pub remove_fd_event : Events Watch → ℕ → Option (Events Watch)
remove_fd_event s event =
    if is_null (s.node event).prev && is_null (s.node event).next
    then none
    else some (unlink s event)

abbrev pub enable_fd_event : Watch → Watch
enable_fd_event w = record w { enabled = true }

abbrev pub disable_fd_event : Watch → Watch
disable_fd_event w = record w { enabled = false }

-- `last_call + interval`, and the time until then.
abbrev pub continue_at : Timer → ℕ
continue_at t = u64 (t.last_call + t.interval)

abbrev pub uint64_max : ℕ
uint64_max = 2 ^ 64 - 1

-- The rounds of the loop over the list; `none` is too little fuel for its length. The pair is
-- `*next_timed_event` and the time to wait.
pub calc_from : ℕ → Events Timer → Option ℕ → ℕ → Option ℕ → ℕ → Option (Option ℕ × ℕ)
calc_from fuel s none cur_time next wait = some (next, wait)
calc_from zero s (some p) cur_time next wait = none
calc_from (suc fuel) s (some p) cur_time next wait =
    let t = (s.node p).event in
    let nearer = t.enabled && ltb (continue_at t - cur_time) wait in
    let rest =
      calc_from fuel s (s.node p).next cur_time (if nearer then some p else next)
        (if nearer then continue_at t - cur_time else wait) in
    if t.enabled && leb (continue_at t) cur_time then some (some p, 0) else rest

unfoldable pub calc_next_timed_event : ℕ → Events Timer → Option ℕ → ℕ → Option (Option ℕ × ℕ)
unfolding calc_from
calc_next_timed_event fuel s next cur_time = calc_from fuel s s.first cur_time next uint64_max

pub max_fd_from : ℕ → Events Watch → Option ℕ → ℕ → Option ℕ
max_fd_from fuel s none nfds = some (nfds + 1)
max_fd_from zero s (some p) nfds = none
max_fd_from (suc fuel) s (some p) nfds =
    let w = (s.node p).event in
    max_fd_from fuel s (s.node p).next (if ltb nfds w.fd then w.fd else nfds)

unfoldable pub get_max_nfds : ℕ → Events Watch → Option ℕ
unfolding max_fd_from
get_max_nfds fuel s = max_fd_from fuel s s.first 0
