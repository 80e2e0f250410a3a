-- ===== src/Entry/Windows.antt =====
-- `run_channel_diagnostics` of src/c/transport/diagnostics.c.
use librasta.Base.{
  ℕ, zero, suc, ◌≤◌, ◌<◌, ◌≡◌, ◌≢◌, refl, ap, ◌∙◌, leb, le→leb, if◌then◌else◌, false, Option, none,
  some, List, [], ◌∷◌, get_elem?, arith, sub64,
}
use librasta.DeferQueue.{deferqueue_clear}
use librasta.Transport.{Diagnostics, TransportChannel}
use librasta.Connection.{Connection, Env}
use librasta.Sr.Clock.{cur_timestamp, tick}
use librasta.Redundancy.{modify_at}
use librasta.Entry.{
  Notification, notification_of, fresh_window, diagnose_window, clear_window,
  run_channel_diagnostics,
}

modify_at_self :
    (f : Diagnostics → Diagnostics) (i : ℕ) (ts : List TransportChannel) (t : TransportChannel)
    → get_elem? ts i ≡ some t
    → get_elem? (modify_at f i ts) i ≡ some (record t { diagnostics_data = f t.diagnostics_data })
modify_at_self f i [] t h = cc
modify_at_self f zero (x ∷ ts) t h =
    ap
      (λ (o : Option TransportChannel). elim o [
        | none ↦ none
        | some y ↦ some (record y { diagnostics_data = f y.diagnostics_data })
      ])
      h
modify_at_self f (suc i) (x ∷ ts) t h = modify_at_self f i ts t h

modify_at_other :
    (f : Diagnostics → Diagnostics) (i j : ℕ) (ts : List TransportChannel)
    → i ≢ j
    → get_elem? (modify_at f i ts) j ≡ get_elem? ts j
modify_at_other f i j [] h = refl
modify_at_other f zero zero (x ∷ ts) h = absurd (h refl)
modify_at_other f zero (suc j) (x ∷ ts) h = refl
modify_at_other f (suc i) zero (x ∷ ts) h = refl
modify_at_other f (suc i) (suc j) (x ∷ ts) h = modify_at_other f i j ts (λ e. h (ap suc e))

module _ (env : Env) (n_diagnose i : ℕ) (c : Connection) (t : TransportChannel)
    (here : get_elem? c.channel.transport_channels i ≡ some t) where
  abbrev elapsed : ℕ
  elapsed = sub64 (cur_timestamp env c) t.diagnostics_data.start_time

  abbrev after : Connection
  after = (run_channel_diagnostics env n_diagnose i c).0

  abbrev note : Notification
  note = notification_of c.channel.diagnostics_packet_buffer.count t.diagnostics_data

  window_over :
      n_diagnose ≤ elapsed
      → run_channel_diagnostics env n_diagnose i c ≡ (clear_window env i (tick c), some note)
  unfolding run_channel_diagnostics
  window_over over =
      ap (diagnose_window env n_diagnose i c) here
      ∙ ap (λ b. if b then (clear_window env i (tick c), some note) else (tick c, none))
          (le→leb n_diagnose elapsed over)

  -- At the end of a window the counters are notified of, with the packets that the channel missed;
  -- then the counters of this channel start anew at the time that is read, the window's packets are
  -- forgotten, and every other channel keeps its counters.
  pub run_channel_diagnostics-ends :
      (j : ℕ)
      → n_diagnose ≤ elapsed
      → i ≢ j
      → ((run_channel_diagnostics env n_diagnose i c).1 ≡ some note)
        × (get_elem? after.channel.transport_channels i
            ≡ some (record t {
              diagnostics_data = fresh_window (cur_timestamp env (tick c)) t.diagnostics_data;
            }))
        × (get_elem? after.channel.transport_channels j ≡ get_elem? c.channel.transport_channels j)
        × (after.channel.diagnostics_packet_buffer
            ≡ deferqueue_clear c.channel.diagnostics_packet_buffer)
  run_channel_diagnostics-ends j over other =
      let left = λ (k : ℕ) (r : Connection × Option Notification).
        get_elem? r.0.channel.transport_channels k in
      let ts = c.channel.transport_channels in
      let fresh = fresh_window (cur_timestamp env (tick c)) in
      (
        ap (λ (r : Connection × Option Notification). r.1) (window_over over),
        ap (left i) (window_over over) ∙ modify_at_self fresh i ts t here,
        ap (left j) (window_over over) ∙ modify_at_other fresh i j ts other,
        ap (λ (r : Connection × Option Notification). r.0.channel.diagnostics_packet_buffer)
            (window_over over),
      )

  -- Within a window nothing is notified of, and the connection stays as it is.
  pub run_channel_diagnostics-within :
      elapsed < n_diagnose → run_channel_diagnostics env n_diagnose i c ≡ (tick c, none)
  unfolding run_channel_diagnostics
  run_channel_diagnostics-within within =
      ap (diagnose_window env n_diagnose i c) here
      ∙ ap (λ b. if b then (clear_window env i (tick c), some note) else (tick c, none))
          {x = leb n_diagnose elapsed} {y = false} (ground arith)
