-- ===== src/Arrival/Empty.antt =====
-- `channel_receive_event` of src/c/transport/events.c when nothing was received.
use librasta.Base.{
  ℕ, zero, suc, ◌≡◌, refl, ap, ◌∙◌, Bool, false, Option, none, some, List, [], ◌∷◌, ◌||◌, get_elem?,
  inl, inr, Bool-cases, leb, sub64,
}
use librasta.Transport.{TransportChannel, Diagnostics}
use librasta.Connection.{Connection, Env}
use librasta.Redundancy.{modify_at}
use librasta.Sr.Clock.{cur_timestamp}
use librasta.Sr.Close.Laws.{IsClosed}
use librasta.Sr.Api.{any_connected}
use librasta.Sr.Api.Transports.{handle_closed_transport-IsClosed}
use librasta.Entry.{run_channel_diagnostics, diagnose_window}
use mathlib.Core.Option
use librasta.Arrival.{
  disable_fd, Arrival, Remote, Watching, at_channel, on_channel, lost, channel_of, lose_channel,
  channel_receive_event,
}

-- Whether a channel other than the `i`-th is connected.
abbrev pub others_connected : ℕ → Connection → Bool
others_connected i c = any_connected (at_channel lost i c.channel.transport_channels)

disable_fd-off : (o : Option Bool) → disable_fd o ≡ Option.map (λ e. false) o
disable_fd-off none = refl
disable_fd-off (some e) = refl

any_connected-modify_at :
    (f : Diagnostics → Diagnostics) (i : ℕ) (ts : List TransportChannel)
    → any_connected (at_channel lost i (modify_at f i ts)) ≡ any_connected (at_channel lost i ts)
any_connected-modify_at f i [] = refl
any_connected-modify_at f zero (t ∷ ts) = refl
any_connected-modify_at f (suc i) (t ∷ ts) =
    ap (λ b. t.connected || b) (any_connected-modify_at f i ts)

-- The diagnosis of a channel connects none and hands out nothing.
record Diagnosed (i : ℕ) (c c' : Connection) : Type 0 where
  others : others_connected i c' ≡ others_connected i c
  handed : c'.handed ≡ c.handed

-- What the loss of the last connected channel leaves.
pub record Ended (c : Connection) (w : Watching) (r : Connection × Watching × ℕ) : Type 0 where
  pub closed : IsClosed r.0
  pub socket_off : r.1.socket ≡ Option.map (λ e. false) w.socket
  pub channel_off : r.1.channel ≡ Option.map (λ e. false) w.channel
  pub ends_loop : r.2 ≡ 1
  pub silent : r.0.handed ≡ c.handed

module _ (env : Env) where
  diagnose_window-Diagnosed :
      (n i : ℕ) (c : Connection) (t : Option TransportChannel)
      → Diagnosed i c (diagnose_window env n i c t).0
  diagnose_window-Diagnosed n i c none = record { others = refl; handed = refl }
  diagnose_window-Diagnosed n i c (some t) =
      elim (Bool-cases (leb n (sub64 (cur_timestamp env c) t.diagnostics_data.start_time))) [
        | inl e ↦ rw e (record {
          others = any_connected-modify_at _ i c.channel.transport_channels;
          handed = refl;
        })
        | inr e ↦ rw e (record { others = refl; handed = refl })
      ]

  lose_channel-Ended :
      (i : ℕ) (w : Watching) (c : Connection)
      → others_connected i c ≡ false
      → Ended c w (lose_channel env i w c)
  unfolding lose_channel
  lose_channel-Ended i w c last =
      let shut = handle_closed_transport-IsClosed env (on_channel lost i c) last in
      record {
        closed = shut.0;
        socket_off = disable_fd-off w.socket;
        channel_off = disable_fd-off w.channel;
        ends_loop = rw shut.1 refl;
        silent = shut.2;
      }

  -- If the handler of a socket reads no byte, for a channel that it knows or of a sender that it
  -- finds, and no other channel is connected, then the connection is closed without a packet, the
  -- receive events of the socket and of the channel are disabled, and the event loop ends.
  pub channel_receive_event-Ended :
      (n i : ℕ) (remotes : List Remote) (a : Arrival) (w : Watching) (c c' : Connection)
      (found : channel_of env a.channel remotes a.sender c ≡ some (i, c')) (empty : a.len ≡ 0)
      (last : others_connected i c' ≡ false)
      → (r : Connection × Watching × ℕ) × (channel_receive_event env n remotes a w c ≡ some r)
        × Ended c' w r
  unfolding channel_receive_event run_channel_diagnostics
  channel_receive_event-Ended n i remotes a w c c' found empty last =
      let g = diagnose_window-Diagnosed n i c' (get_elem? c'.channel.transport_channels i) in
      let e = lose_channel-Ended i w (run_channel_diagnostics env n i c').0 (g.others ∙ last) in
      (
        lose_channel env i w (run_channel_diagnostics env n i c').0,
        rw (found, empty) refl,
        record {
          closed = e.closed;
          socket_off = e.socket_off;
          channel_off = e.channel_off;
          ends_loop = e.ends_loop;
          silent = e.silent ∙ g.handed;
        },
      )
