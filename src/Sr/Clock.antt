-- ===== src/Sr/Clock.antt =====
-- Clock readings and the timed events of a connection (src/c/util/event_system.c).
use librasta.Base.{ℕ, ◌+◌, true, false}
use librasta.Connection.{Connection, TimedEvent, Env}

abbrev pub disable_timed_event : TimedEvent → TimedEvent
disable_timed_event e = record e { enabled = false }

module _ (env : Env) where
  -- `cur_timestamp()`; the caller moves on by `tick`.
  abbrev pub cur_timestamp : Connection → ℕ
  cur_timestamp c = env.clock c.ticks

  abbrev pub reschedule_event : ℕ → TimedEvent → TimedEvent
  reschedule_event n e = record e { last_call = env.nanotime n }

  abbrev pub enable_timed_event : ℕ → TimedEvent → TimedEvent
  enable_timed_event n e = record e { enabled = true; last_call = env.nanotime n }

  abbrev pub reschedule_heartbeat : Connection → Connection
  reschedule_heartbeat c = record c {
    send_heartbeat_event = reschedule_event c.ticks c.send_heartbeat_event;
    ticks = c.ticks + 1;
  }

  abbrev pub reschedule_timeout : Connection → Connection
  reschedule_timeout c = record c {
    timeout_event = reschedule_event c.ticks c.timeout_event;
    ticks = c.ticks + 1;
  }

  abbrev pub enable_heartbeat : Connection → Connection
  enable_heartbeat c = record c {
    send_heartbeat_event = enable_timed_event c.ticks c.send_heartbeat_event;
    ticks = c.ticks + 1;
  }

  abbrev pub enable_timeout : Connection → Connection
  enable_timeout c = record c {
    timeout_event = enable_timed_event c.ticks c.timeout_event;
    ticks = c.ticks + 1;
  }

  abbrev pub enable_send : Connection → Connection
  enable_send c = record c {
    send_event = enable_timed_event c.ticks c.send_event;
    ticks = c.ticks + 1;
  }

  abbrev pub enable_handshake_timeout : Connection → Connection
  enable_handshake_timeout c = record c {
    handshake_timeout_event = enable_timed_event c.ticks c.handshake_timeout_event;
    ticks = c.ticks + 1;
  }

abbrev pub tick : Connection → Connection
tick c = record c { ticks = c.ticks + 1 }
