-- ===== src/Arrival.antt =====
-- Bytes that arrive on a socket: `channel_receive_event` of src/c/transport/events.c and
-- `find_channel_by_ip_address` of src/c/transport/transport.c, in a build without DTLS, where
-- `is_dtls_conn_ready` is false. `receive_callback` is the arrival that the handler is
-- given. There is one connection, so that `data->connection` is it.
pub mod Empty
use librasta.Base.{
  ℕ, zero, suc, ◌==◌, if◌then◌else◌, Bool, true, false, ◌&&◌, Option, none, some, List, [], ◌∷◌,
}
use librasta.Transport.{TransportChannel}
use librasta.Connection.{Connection, Env}
use librasta.Redundancy.{receive_packet, red_f_deliver_defer_queue}
use librasta.Sr.Handshake.{is_equal}
use librasta.Sr.Api.{handle_closed_transport}
use librasta.Entry.{run_channel_diagnostics}

-- An address: the text of `inet_ntop` and the port in the host's order.
pub record Remote : Type 0 where
  pub ip : List ℕ
  pub port : ℕ

-- The `enabled` of the receive events of `data->socket` and `data->channel`; `none` is NULL.
pub record Watching : Type 0 where
  pub socket : Option Bool
  pub channel : Option Bool

-- `channel` is the index of `data->channel`, `none` for a socket that all channels share. `len` is
-- the number of received bytes; a negative one, which is treated like 0, is 0.
pub record Arrival : Type 0 where
  pub channel : Option ℕ
  pub sender : Remote
  pub buffer : List ℕ
  pub len : ℕ

abbrev pub disable_fd : Option Bool → Option Bool
disable_fd none = none
disable_fd (some e) = some false

abbrev pub disabled : Watching → Watching
disabled w = record { socket = disable_fd w.socket; channel = disable_fd w.channel }

abbrev pub at_channel :
    (TransportChannel → TransportChannel) → ℕ → List TransportChannel → List TransportChannel
at_channel f i [] = []
at_channel f zero (t ∷ ts) = f t ∷ ts
at_channel f (suc i) (t ∷ ts) = t ∷ at_channel f i ts

abbrev pub on_channel : (TransportChannel → TransportChannel) → ℕ → Connection → Connection
on_channel f i c = record c {
  channel = record (c.channel) { transport_channels = at_channel f i c.channel.transport_channels };
}

-- The channel of a datagram's sender counts as connected. It also takes over the socket's file
-- descriptor, which is not part of the model.
abbrev pub reached : TransportChannel → TransportChannel
reached t = record t { connected = true }

abbrev pub lost : TransportChannel → TransportChannel
lost t = record t { connected = false }

module _ (env : Env) where
  -- The loop of `find_channel_by_ip_address` over the channels' addresses, from index `i` on.
  unfoldable pub find_from : ℕ → List Remote → Remote → Option ℕ
  find_from i [] sender = none
  find_from i (r ∷ rs) sender =
      if is_equal (env.strncmp r.ip sender.ip 16) && (r.port == sender.port)
      then some i
      else find_from (suc i) rs sender

  abbrev pub find_channel_by_ip_address : List Remote → Remote → Option ℕ
  find_channel_by_ip_address remotes sender = find_from 0 remotes sender

  abbrev pub known_channel : Option ℕ → Connection → Option (ℕ × Connection)
  known_channel none c = none
  known_channel (some i) c = some (i, on_channel reached i c)

  -- The channel of the arrival, and the connection with it.
  abbrev pub channel_of : Option ℕ → List Remote → Remote → Connection → Option (ℕ × Connection)
  channel_of (some i) remotes sender c = some (i, c)
  channel_of none remotes sender c = known_channel (find_channel_by_ip_address remotes sender) c

  -- `receive_packet` and, if it asks for it, the delivery; `none` is a loop that has not ended.
  abbrev pub deliver_accepted : Option (Connection × ℕ) → Option (Connection × ℕ)
  deliver_accepted none = none
  deliver_accepted (some (c, result)) =
      let (delivered, reply, ended) = red_f_deliver_defer_queue env c in
      if result == 0 then some (c, 0) else some (delivered, reply)

  abbrev pub with_watching : Watching → Option (Connection × ℕ) → Option (Connection × Watching × ℕ)
  with_watching w none = none
  with_watching w (some (c, result)) = some (c, w, result)

  -- A broken connection: the returned 1 ends the event loop.
  unfoldable pub lose_channel : ℕ → Watching → Connection → Connection × Watching × ℕ
  lose_channel i w c =
      let (closed, ends) = handle_closed_transport env (on_channel lost i c) in
      (closed, disabled w, if ends then 1 else 0)

  abbrev pub receive_on :
      ℕ
      → Arrival
      → Watching
      → Option (ℕ × Connection)
      → Option (Connection × Watching × ℕ)
      → Option (Connection × Watching × ℕ)
  receive_on n_diagnose a w none unknown = unknown
  receive_on n_diagnose a w (some (i, c)) unknown =
      let diagnosed = (run_channel_diagnostics env n_diagnose i c).0 in
      if a.len == 0
      then some (lose_channel i w diagnosed)
      else with_watching w (deliver_accepted (receive_packet env a.buffer a.len i diagnosed))

  -- `channel_receive_event`; an unknown sender's bytes are discarded.
  unfoldable pub channel_receive_event :
      ℕ → List Remote → Arrival → Watching → Connection → Option (Connection × Watching × ℕ)
  channel_receive_event n_diagnose remotes a w c =
      receive_on n_diagnose a w (channel_of a.channel remotes a.sender c) (some (c, w, 0))
