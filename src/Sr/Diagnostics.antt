-- ===== src/Sr/Diagnostics.antt =====
-- Timeout supervision and connection diagnostics (src/c/retransmission/safety_retransmission.c).
use librasta.Base.{
  ℕ, zero, suc, ◌+◌, ◌/◌, ◌*◌, ◌%◌, ltb, leb, if◌then◌else◌, ◌&&◌, Bool, List, [], ◌∷◌, u32, sub64,
}
use librasta.Packet.{RastaPacket}
use librasta.Connection.{Connection, DiagnosticInterval, Env}
use librasta.Sr.Clock.{cur_timestamp, tick, reschedule_timeout}

abbrev pub diagnostic_interval_size : ℕ
diagnostic_interval_size = 500

-- The intervals from the `i`-th on.
abbrev pub intervals_from : ℕ → ℕ → List DiagnosticInterval
intervals_from zero i = []
intervals_from (suc n) i =
    record {
      interval_start = u32 (diagnostic_interval_size * i);
      interval_end = u32 (u32 (diagnostic_interval_size * i) + diagnostic_interval_size);
      message_count = 0;
      t_alive_message_count = 0;
    }
    ∷ intervals_from n (i + 1)

unfoldable pub sr_diagnostic_interval_init : Connection → Connection
sr_diagnostic_interval_init c =
    let whole = c.config.t_max / diagnostic_interval_size in
    let length = if ltb 0 (c.config.t_max % diagnostic_interval_size) then whole + 1 else whole in
    record c {
      received_diagnostic_message_count = 0;
      diagnostic_intervals = intervals_from length 0;
    }

abbrev pub reset_interval : DiagnosticInterval → DiagnosticInterval
reset_interval d = record d { message_count = 0; t_alive_message_count = 0 }

abbrev pub reset_intervals : List DiagnosticInterval → List DiagnosticInterval
reset_intervals [] = []
reset_intervals (d ∷ ds) = reset_interval d ∷ reset_intervals ds

-- The condition of the C code on an interval and a time.
unfoldable pub in_interval : DiagnosticInterval → ℕ → Bool
in_interval d t = leb t d.interval_start && leb d.interval_end t

abbrev pub count_message : ℕ → DiagnosticInterval → DiagnosticInterval
count_message t_alive d = record d {
  message_count = u32 (d.message_count + 1);
  t_alive_message_count =
      if in_interval d t_alive then u32 (d.t_alive_message_count + 1) else d.t_alive_message_count;
}

-- The loop, which stops at the first interval that takes the message.
unfoldable pub assign_interval : ℕ → ℕ → List DiagnosticInterval → List DiagnosticInterval
assign_interval t_rtd t_alive [] = []
assign_interval t_rtd t_alive (d ∷ ds) =
    let rest = d ∷ assign_interval t_rtd t_alive ds in
    if in_interval d t_rtd then count_message t_alive d ∷ ds else rest

module _ (env : Env) where
  -- The round trip time: `unsigned long` arithmetic on the local time and a timestamp.
  abbrev pub round_trip : ℕ → ℕ → ℕ
  round_trip t_local confirmed_timestamp = sub64 (t_local + 1000 / env.clk_tck) confirmed_timestamp

  unfoldable pub sr_update_timeout_interval : ℕ → Connection → Connection
  sr_update_timeout_interval confirmed_timestamp c =
      let t_rtd = round_trip (cur_timestamp env c) confirmed_timestamp in
      reschedule_timeout env (tick (record c { t_i = u32 (sub64 c.config.t_max t_rtd) }))

  unfoldable pub sr_diagnostic_update : RastaPacket → Connection → Connection
  sr_diagnostic_update packet c =
      let t_local = cur_timestamp env c in
      let t_rtd = round_trip t_local packet.confirmed_timestamp in
      let t_alive = sub64 t_local c.cts_r in
      let assigned = assign_interval t_rtd t_alive c.diagnostic_intervals in
      let count = u32 (c.received_diagnostic_message_count + 1) in
      record (tick c) {
        received_diagnostic_message_count = count;
        diagnostic_intervals =
            if leb c.config.diag_window count then reset_intervals assigned else assigned;
      }
