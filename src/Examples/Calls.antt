-- ===== src/Examples/Calls.antt =====
-- The theorems about the event system and the calls of the user at concrete values.
use librasta.Base.{
  ℕ, ◌+◌, ◌≡◌, ◌≢◌, ◌⊎◌, refl, true, false, Option, none, some, [], ◌∷◌, ◌==◌, if◌then◌else◌, u64,
  arith,
}
use librasta.Events.{
  Node, Events, Timer, Watch, add_event, unlink, link_last, remove_fd_event, calc_next_timed_event,
  uint64_max,
}
use librasta.Events.Links.{Represents}
use librasta.Events.Add.{unlinked, add_event_lem}
use librasta.Events.Remove.{remove_event_lem, add-remove_event, remove_fd_event_lem}
use librasta.Events.Next.{soonest, IsDue, calc_next_timed_event-eq-soonest}
use librasta.Events.Loop.{World, Calls, event_round, event_system_sleep, after_sleep, after_fire}
use librasta.Events.Rounds.{event_round_lem, at_clock, wait_time}
use librasta.Connection.{Connection}
use librasta.Entry.Receiving.{recv_times, recv_times_lem, with_received, handed_over_all}
use librasta.Arrival.{
  Remote, Watching, Arrival, find_from, channel_of, on_channel, reached, channel_receive_event,
}
use librasta.Arrival.Empty.{Ended, channel_receive_event-Ended}
use librasta.Examples.{up_connection, counting_env}

abbrev timer : Option ℕ → Option ℕ → ℕ → Node Timer
timer prev next interval = record {
  prev = prev;
  next = next;
  event = record { interval = interval; last_call = 100; enabled = true };
}

-- The timers at 1 and 2 are in the list, and due at 150 and 120.
abbrev two_timers : Events Timer
two_timers = record {
  first = some 1;
  last = some 2;
  node = λ p.
      if p == 1
      then timer none (some 2) 50
      else if p == 2
      then timer (some 1) none 20
      else timer none none 30;
}

two_timers-Represents : Represents two_timers (1 ∷ 2 ∷ [])
two_timers-Represents = record {
  first_lem = refl;
  last_lem = refl;
  linked = (refl, refl, (refl, refl, tt));
  distinct = ((omega arith, tt), (tt, tt));
}

next_example :
    (o : Option ℕ) × (calc_next_timed_event 2 two_timers none 110
      ≡ some (o, soonest two_timers.node 110 (1 ∷ 2 ∷ [])))
    × (((o ≡ none) × (soonest two_timers.node 110 (1 ∷ 2 ∷ []) ≡ uint64_max))
        ⊎ ((x : ℕ) × (o ≡ some x)
            × IsDue two_timers.node 110 (1 ∷ 2 ∷ []) x (soonest two_timers.node 110 (1 ∷ 2 ∷ []))))
next_example =
    calc_next_timed_event-eq-soonest 2 two_timers (1 ∷ 2 ∷ []) none 110 two_timers-Represents
      (omega arith)

add_event_example :
    (add_event two_timers 3
      ≡ (if unlinked two_timers 3 then some (link_last two_timers 3) else none))
    × Represents (link_last two_timers 3) (1 ∷ 2 ∷ 3 ∷ [])
add_event_example = add_event_lem two_timers (1 ∷ 2 ∷ []) 3 two_timers-Represents (omega arith)

remove_event_example :
    Represents (unlink two_timers 1) (2 ∷ [])
    × (((unlink two_timers 1).node 2).event ≡ (two_timers.node 2).event)
remove_event_example = remove_event_lem two_timers [] (2 ∷ []) 1 2 two_timers-Represents

add_again_example : add_event (unlink two_timers 2) 2 ≡ none
add_again_example = add-remove_event two_timers (1 ∷ []) [] 2 two_timers-Represents

-- A list of one descriptor event.
abbrev one_watch : Events Watch
one_watch = record {
  first = some 1;
  last = some 1;
  node = λ p. record {
    prev = none;
    next = none;
    event = record { fd = 4; options = 1; enabled = true };
  };
}

one_watch-Represents : Represents one_watch (1 ∷ [])
one_watch-Represents = record {
  first_lem = refl;
  last_lem = refl;
  linked = (refl, refl, tt);
  distinct = (tt, tt);
}

remove_fd_example : remove_fd_event one_watch 1 ≡ none
remove_fd_example = remove_fd_event_lem one_watch [] [] 1 one_watch-Represents

-- A world whose clock stands still, and whose callbacks never stop the loop.
abbrev still_calls : Calls ℕ
still_calls = record {
  nanotime = λ n. (n, n);
  fire = λ p w. (w, false);
  watch = λ p w. (w, false);
  select = λ nfds sets timeout n. (some (0, sets), n + 10);
}

abbrev still_world : World ℕ
still_world = record { timers = two_timers; watches = one_watch; rest = 130 }

round_example :
    ((wait_time still_calls still_world (1 ∷ 2 ∷ []) ≡ 0)
      × (x : ℕ) × IsDue two_timers.node 130 (1 ∷ 2 ∷ []) x 0
      × (event_round still_calls 2 none still_world
          ≡ some (
              after_fire still_calls x
                (u64 130)
                (still_calls.fire x (at_clock still_calls still_world)))))
    ⊎ ((wait_time still_calls still_world (1 ∷ 2 ∷ []) ≢ 0)
        × (event_round still_calls 2 none still_world
            ≡ after_sleep still_calls (
                event_system_sleep still_calls 2
                  (wait_time still_calls still_world (1 ∷ 2 ∷ []))
                  (at_clock still_calls still_world))))
round_example =
    event_round_lem still_calls 2 none still_world (1 ∷ 2 ∷ []) two_timers-Represents (omega arith)

-- An established connection with two messages to be received.
abbrev received_connection : Connection
received_connection = record up_connection {
  fifo_receive = record { elements = (1 ∷ 2 ∷ 3 ∷ []) ∷ (4 ∷ []) ∷ []; size = 2; max_size = 4 };
}

recv_example :
    recv_times (λ c. c) 0 2 2 received_connection
    ≡ some (
      with_received received_connection [] 0,
      handed_over_all 2 ((1 ∷ 2 ∷ 3 ∷ []) ∷ (4 ∷ []) ∷ []),
    )
recv_example =
    recv_times_lem (λ c. c) 0 2 received_connection ((1 ∷ 2 ∷ 3 ∷ []) ∷ (4 ∷ []) ∷ []) [] refl
      (omega arith) refl

-- The peer's address, and an empty datagram from it on the shared socket.
abbrev peer_address : Remote
peer_address = record { ip = b'1' ∷ b'2' ∷ b'7' ∷ 0 ∷ []; port = 8888 }

abbrev empty_datagram : Arrival
empty_datagram = record { channel = none; sender = peer_address; buffer = []; len = 0 }

abbrev socket_watched : Watching
socket_watched = record { socket = some true; channel = none }

peer_found :
    channel_of counting_env none (peer_address ∷ []) peer_address up_connection
    ≡ some (0, on_channel reached 0 up_connection)
unfolding find_from
peer_found = refl

empty_example :
    (r : Connection × Watching × ℕ) × (channel_receive_event counting_env 5000
        (peer_address ∷ [])
        empty_datagram
        socket_watched
        up_connection
      ≡ some r)
    × Ended (on_channel reached 0 up_connection) socket_watched r
empty_example =
    channel_receive_event-Ended counting_env 5000 0 (peer_address ∷ []) empty_datagram
      socket_watched up_connection (on_channel reached 0 up_connection) peer_found refl refl
