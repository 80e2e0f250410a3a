-- ===== src/Examples.antt =====
-- Concrete connections and packets on which the theorems about src/c apply.
pub mod Calls
pub mod CheckCodes
pub mod Layers
pub mod Protocol
pub mod Retransmitting
use librasta.Base.{
  ℕ, ◌+◌, ◌%◌, if◌then◌else◌, true, false, none, List, [], ◌∷◌, length, replicate, take, bytes_eq,
  u32,
}
use librasta.Packet.{RastaPacket, no_error, HashingContext}
use librasta.Packet.RedundancyCodec.{Crc}
use librasta.Packet.ConnType
use librasta.Fifo.{Fifo}
use librasta.DeferQueue.{DeferQueue, Wrapper}
use librasta.Transport.{TransportChannel, Diagnostics}
use librasta.Transport.Udp.{udp}
use librasta.Connection.{
  Connection, Config, Channel, TimedEvent, ErrorCounters, SrState, closed, up, Role, client, server,
  Env, equal, other,
}
use librasta.Redundancy.{zero_packet}

-- A safety code that holds the length of what it covers.
abbrev pub length_hashing : HashingContext
length_hashing = record { hash_length = 1; digest = λ bytes. length bytes % 256 ∷ replicate 7 0 }

abbrev pub length_crc : Crc
length_crc = record { width = 32; calculate = λ bytes. length bytes }

-- An environment whose clocks count, to 2 ^ 32 in milliseconds, and whose `qsort` leaves an array as it is.
abbrev pub counting_env : Env
counting_env = record {
  hashing = length_hashing;
  crc = length_crc;
  transport = udp;
  qsort = λ cmp ws. ws;
  clock = λ n. u32 n;
  nanotime = λ n. n;
  clk_tck = 100;
  stack = λ n. zero_packet.inner;
  strncmp = λ a b n. if bytes_eq (take n a) (take n b) then equal else other;
}

abbrev pub empty_fifo : Fifo (List ℕ)
empty_fifo = record { elements = []; size = 0; max_size = 4 }

abbrev pub empty_entry : Wrapper
empty_entry = record { packet = zero_packet; received_timestamp = 0 }

abbrev pub empty_queue : DeferQueue
empty_queue = record { elements = empty_entry ∷ empty_entry ∷ []; count = 0; max_count = 2 }

abbrev pub idle_event : TimedEvent
idle_event = record { enabled = false; last_call = 0 }

abbrev pub fresh_diagnostics : Diagnostics
fresh_diagnostics = record {
  start_time = 0;
  n_missed = 0;
  t_drift = 0;
  t_drift2 = 0;
  received_packets = 0;
}

abbrev pub open_transport : TransportChannel
open_transport = record {
  id = 0;
  connected = true;
  socket_open = true;
  diagnostics_data = fresh_diagnostics;
  sent = [];
}

abbrev pub small_config : Config
small_config = record {
  initial_sequence_number = 7;
  accepted_versions = (b'0' ∷ b'3' ∷ b'0' ∷ b'3' ∷ []) ∷ [];
  t_max = 1800;
  send_max = 20;
  max_packet = 3;
  diag_window = 5000;
  max_retransmission_queue_size = 4;
  t_seq = 50;
  n_deferqueue_size = 2;
  kex_mode = 0;
}

abbrev pub small_channel : Channel
small_channel = record {
  associated_id = 2;
  seq_tx = 0;
  seq_rx = 0;
  defer_q = empty_queue;
  diagnostics_packet_buffer = empty_queue;
  transport_channels = open_transport ∷ [];
}

-- A closed connection between the two identities.
abbrev pub closed_connection : ℕ → ℕ → Connection
closed_connection my_id remote_id = record {
  is_new = false;
  handshake_timeout_event = idle_event;
  send_heartbeat_event = idle_event;
  timeout_event = idle_event;
  send_event = idle_event;
  hb_locked = true;
  current_state = closed;
  fifo_send = empty_fifo;
  fifo_receive = empty_fifo;
  fifo_retransmission = empty_fifo;
  connected_recv_buffer_size = none;
  role = client;
  sn_t = 0;
  sn_r = 0;
  sn_i = 0;
  cs_t = 0;
  cs_r = 0;
  ts_r = 0;
  cts_r = 0;
  t_i = 0;
  my_id = my_id;
  remote_id = remote_id;
  received_diagnostic_message_count = 0;
  diagnostic_intervals = [];
  errors = record { safety = 0; address = 0; type = 0; sn = 0; cs = 0 };
  channel = small_channel;
  config = small_config;
  ticks = 0;
  lasterror = no_error;
  fault = false;
  handed = [];
}

abbrev pub client_connection : Connection
client_connection = closed_connection 1 2

abbrev pub server_connection : Connection
server_connection = closed_connection 2 1

-- An established client that sent the numbers up to 8 and awaits the number 5.
abbrev pub up_connection : Connection
up_connection = record client_connection {
  current_state = up;
  hb_locked = false;
  sn_t = 9;
  sn_r = 5;
  cs_r = 7;
}

-- A data packet for it, with no application message.
abbrev pub data_packet : RastaPacket
data_packet = record {
  length = 36;
  type = ConnType.data_message;
  receiver_id = 1;
  sender_id = 2;
  sequence_number = 5;
  confirmed_sequence_number = 8;
  timestamp = 3;
  confirmed_timestamp = 0;
  payload = [];
  checksum = replicate 8 0;
  checksum_correct = true;
}
