-- ===== src/Transport.antt =====
-- The transport channels of src/c/transport/transport.h as the redundancy layer uses them: an
-- interface that each of the four link-time variants implements.
pub mod Udp
use librasta.Base.{ℕ, ◌≡◌, Bool, List}

-- `rasta_redundancy_diagnostics_data`
pub record Diagnostics : Type 0 where
  pub start_time : ℕ
  pub n_missed : ℕ
  pub t_drift : ℕ
  pub t_drift2 : ℕ
  pub received_packets : ℕ

-- `rasta_transport_channel`. `sent` records the arrays given to `send_callback`, oldest first;
-- `socket_open` tells that the associated socket's file descriptor is not -1.
pub record TransportChannel : Type 0 where
  pub id : ℕ
  pub connected : Bool
  pub socket_open : Bool
  pub diagnostics_data : Diagnostics
  pub sent : List (List ℕ)

-- `transport_connect`, `transport_redial` and `transport_close_channel`. A redial also says
-- whether it returned 0. The number is a reading of the environment, which decides the outcome.
pub record Transport : Type 0 where
  pub connect : ℕ → TransportChannel → TransportChannel
  pub redial : ℕ → TransportChannel → Bool × TransportChannel
  pub close_channel : TransportChannel → TransportChannel

-- None of them sends application data.
pub record IsTransport (t : Transport) : Type 0 where
  pub connect_silent : (n : ℕ) (c : TransportChannel) → (t.connect n c).sent ≡ c.sent
  pub redial_silent : (n : ℕ) (c : TransportChannel) → (t.redial n c).1.sent ≡ c.sent
  pub close_silent : (c : TransportChannel) → (t.close_channel c).sent ≡ c.sent
