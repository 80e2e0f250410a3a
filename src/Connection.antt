-- ===== src/Connection.antt =====
-- The state of a connection: src/c/rasta_connection.h, with the redundancy channel of
-- src/c/redundancy/rasta_redundancy_channel.h and the parts of src/include/rasta/config.h that the
-- two layers read.
use librasta.Base.{ℕ, Bool, Option, List}
use librasta.Packet.{RastaPacket, RastaError, HashingContext}
use librasta.Packet.RedundancyCodec.{Crc}
use librasta.Fifo.{Fifo}
use librasta.DeferQueue.{DeferQueue, Qsort}
use librasta.Transport.{TransportChannel, Transport}

-- `rasta_sr_state`
pub data SrState : Type 0 where
  closed down start kex_req kex_resp kex_auth up retrreq retrrun : SrState

-- `rasta_role`
pub data Role : Type 0 where
  client server : Role

-- What `strncmp` on two versions tells `compare_version`'s callers, who
-- ask for 0 and for -1.
pub data VersionOrder : Type 0 where
  equal minus_one other : VersionOrder

-- `struct rasta_error_counters`
pub record ErrorCounters : Type 0 where
  pub safety : ℕ
  pub address : ℕ
  pub type : ℕ
  pub sn : ℕ
  pub cs : ℕ

-- `struct diagnostic_interval`
pub record DiagnosticInterval : Type 0 where
  pub interval_start : ℕ
  pub interval_end : ℕ
  pub message_count : ℕ
  pub t_alive_message_count : ℕ

-- `timed_event`, less its constant callback and interval.
pub record TimedEvent : Type 0 where
  pub enabled : Bool
  pub last_call : ℕ

-- `rasta_config_info`. `kex_mode` is 0 for `KEY_EXCHANGE_MODE_NONE`.
pub record Config : Type 0 where
  pub initial_sequence_number : ℕ
  pub accepted_versions : List (List ℕ)
  pub t_max : ℕ
  pub send_max : ℕ
  pub max_packet : ℕ
  pub diag_window : ℕ
  pub max_retransmission_queue_size : ℕ
  pub t_seq : ℕ
  pub n_deferqueue_size : ℕ
  pub kex_mode : ℕ

-- `rasta_redundancy_channel`
pub record Channel : Type 0 where
  pub associated_id : ℕ
  pub seq_tx : ℕ
  pub seq_rx : ℕ
  pub defer_q : DeferQueue
  pub diagnostics_packet_buffer : DeferQueue
  pub transport_channels : List TransportChannel

-- `rasta_connection`, with three additions. `ticks` counts the readings of the clocks,
-- `lasterror` is the global `rastamodule_lasterror`, and `fault` is set where the C code reads or
-- writes outside an array or uses memory that it did not set. `handed` records the packets given
-- to `redundancy_mux_send`, oldest first.
pub record Connection : Type 0 where
  pub is_new : Bool
  pub handshake_timeout_event : TimedEvent
  pub send_heartbeat_event : TimedEvent
  pub timeout_event : TimedEvent
  pub send_event : TimedEvent
  pub hb_locked : Bool
  pub current_state : SrState
  pub fifo_send : Fifo (List ℕ)
  pub fifo_receive : Fifo (List ℕ)
  pub fifo_retransmission : Fifo (List ℕ)
  -- `none` is the -1 of a connection that is not established.
  pub connected_recv_buffer_size : Option ℕ
  pub role : Role
  pub sn_t : ℕ
  pub sn_r : ℕ
  pub sn_i : ℕ
  pub cs_t : ℕ
  pub cs_r : ℕ
  pub ts_r : ℕ
  pub cts_r : ℕ
  pub t_i : ℕ
  pub my_id : ℕ
  pub remote_id : ℕ
  pub received_diagnostic_message_count : ℕ
  pub diagnostic_intervals : List DiagnosticInterval
  pub errors : ErrorCounters
  pub channel : Channel
  pub config : Config
  pub ticks : ℕ
  pub lasterror : RastaError
  pub fault : Bool
  pub handed : List RastaPacket

-- What the program is linked to and configured with. `clock n` is the n-th reading of
-- `cur_timestamp`, `nanotime n` that of `get_nanotime`, `clk_tck` is `sysconf(_SC_CLK_TCK)`.
pub record Env : Type 0 where
  pub hashing : HashingContext
  pub crc : Crc
  pub transport : Transport
  pub qsort : Qsort
  pub clock : ℕ → ℕ
  pub nanotime : ℕ → ℕ
  pub clk_tck : ℕ
  -- What an unset packet on the stack holds.
  pub stack : ℕ → RastaPacket
  pub strncmp : List ℕ → List ℕ → ℕ → VersionOrder
