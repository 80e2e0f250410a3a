-- ===== src/Entry.antt =====
-- The calls of the library's user in src/c/rasta.c, and the diagnosis windows of
-- src/c/transport/diagnostics.c. The event system's run is a parameter: it changes the connection.
pub mod Receiving
pub mod Windows
use librasta.Base.{
  ℕ, zero, suc, ◌+◌, ◌-◌, ltb, leb, ◌==◌, if◌then◌else◌, Bool, true, false, ◌&&◌, Option, none,
  some, List, [], ◌∷◌, length, take, sub32, sub64, u32, get_elem?,
}
use librasta.Fifo.{fifo_pop, fifo_get_size}
use librasta.DeferQueue.{deferqueue_clear}
use librasta.Transport.{Diagnostics, TransportChannel}
use librasta.Connection.{
  Connection, Channel, SrState, closed, down, start, kex_req, kex_resp, kex_auth, up, retrreq,
  retrrun, Env,
}
use librasta.Sr.Clock.{cur_timestamp, tick}
use librasta.Sr.Api.{sr_send, redundancy_channel_init}
use librasta.Redundancy.{diagnose}

abbrev pub is_up : SrState → Bool
is_up up = true
is_up closed = false
is_up down = false
is_up start = false
is_up kex_req = false
is_up kex_resp = false
is_up kex_auth = false
is_up retrreq = false
is_up retrrun = false

-- `rasta_accept`: the connection is returned if true, else NULL.
unfoldable pub rasta_accept : (Connection → Connection) → Connection → Connection × Bool
rasta_accept event_loop c =
    let after = event_loop (record c { channel = redundancy_channel_init c.channel }) in
    if after.is_new then (record after { is_new = false }, true) else (after, false)

unfoldable pub rasta_send : Env → Connection → List ℕ → Connection × Bool
rasta_send env c message = sr_send env c (message ∷ [])

-- `while (state == UP && queue is empty) event_system_start(...)`; `none` is too little fuel.
unfoldable pub await_message : ℕ → (Connection → Connection) → Connection → Option Connection
await_message zero event_loop c = none
await_message (suc fuel) event_loop c =
    let rest = await_message fuel event_loop (event_loop c) in
    if is_up c.current_state && (fifo_get_size c.fifo_receive == 0) then rest else some c

-- The bytes that are copied to the caller's buffer of `len` bytes; their number is returned.
-- `unset` is the use of the NULL that an empty queue gives.
pub data Received : Type 0 where
  not_up : Received
  unset : Received
  bytes : List ℕ → Received

abbrev pub receive_popped : ℕ → Connection → Option (List ℕ) → Connection × Received
receive_popped len c none = (c, unset)
receive_popped len c (some elem) =
    (c, bytes (take (if ltb len (length elem) then len else length elem) elem))

unfoldable pub receive_now : ℕ → Connection → Connection × Received
receive_now len c =
    let (elem, queue) = fifo_pop c.fifo_receive in
    if is_up c.current_state
    then receive_popped len (record c { fifo_receive = queue }) elem
    else (c, not_up)

unfoldable pub rasta_recv :
    ℕ → (Connection → Connection) → Connection → ℕ → Option (Connection × Received)
rasta_recv fuel event_loop c len = elim (await_message fuel event_loop c) [
  | none ↦ none
  | some ready ↦ some (receive_now len ready)
]

-- What `run_channel_diagnostics` notifies of: N_missed, T_drift and T_drift2.
pub record Notification : Type 0 where
  pub n_missed : ℕ
  pub t_drift : ℕ
  pub t_drift2 : ℕ

-- The counters at the end of a window that holds `count` packets; `int` values modulo 2^32.
abbrev pub notification_of : ℕ → Diagnostics → Notification
notification_of count d = record {
  n_missed = u32 (d.n_missed + sub32 count d.received_packets);
  t_drift = d.t_drift;
  t_drift2 = d.t_drift2;
}

abbrev pub fresh_window : ℕ → Diagnostics → Diagnostics
fresh_window now d = record {
  start_time = now;
  n_missed = 0;
  t_drift = 0;
  t_drift2 = 0;
  received_packets = 0;
}

module _ (env : Env) where
  abbrev pub clear_window : ℕ → Connection → Connection
  clear_window i c =
      let reset = diagnose (fresh_window (cur_timestamp env c)) i (tick c) in
      record reset {
        channel = record (reset.channel) {
          diagnostics_packet_buffer = deferqueue_clear reset.channel.diagnostics_packet_buffer;
        };
      }

  abbrev pub diagnose_window :
      ℕ → ℕ → Connection → Option TransportChannel → Connection × Option Notification
  diagnose_window n_diagnose i c none = (c, none)
  diagnose_window n_diagnose i c (some t) =
      let elapsed = sub64 (cur_timestamp env c) t.diagnostics_data.start_time in
      let note = notification_of c.channel.diagnostics_packet_buffer.count t.diagnostics_data in
      if leb n_diagnose elapsed then (clear_window i (tick c), some note) else (tick c, none)

  -- `n_diagnose` is the configured length of a window. `i` is an index of the channel's array.
  unfoldable pub run_channel_diagnostics : ℕ → ℕ → Connection → Connection × Option Notification
  run_channel_diagnostics n_diagnose i c =
      diagnose_window n_diagnose i c (get_elem? c.channel.transport_channels i)
