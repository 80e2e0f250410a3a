-- ===== src/Sr/Send.antt =====
-- Sending on the redundancy channel: `redundancy_mux_send` of
-- src/c/redundancy/rasta_red_multiplexer.c and src/c/retransmission/messages.c.
pub mod Wire
use librasta.Base.{
  ℕ, ◌+◌, ◌/◌, if◌then◌else◌, Bool, true, false, Option, none, some, List, [], ◌∷◌, ◌++◌, u32, u64,
}
use librasta.Packet.{RastaPacket, RastaError}
use librasta.Packet.RedundancyCodec.{crc_len, rasta_redundancy_packet_to_bytes}
use librasta.Factory.{
  Header, RastaDisconnectionData, create_redundancy_packet, create_heartbeat,
  create_disconnection_request, create_retransmission_request, create_retransmission_response,
}
use librasta.Transport.{TransportChannel}
use librasta.Connection.{Connection, Channel, Role, client, server, Env}
use librasta.Sr.Clock.{cur_timestamp, tick, reschedule_heartbeat}

-- `rasta_disconnect_reason`
module _ where
  abbrev pub reason_user_request : ℕ
  reason_user_request = 0

  abbrev pub reason_unexpected_type : ℕ
  reason_unexpected_type = 2

  abbrev pub reason_seqn_error : ℕ
  reason_seqn_error = 3

  abbrev pub reason_timeout : ℕ
  reason_timeout = 4

  abbrev pub reason_service_not_allowed : ℕ
  reason_service_not_allowed = 5

  abbrev pub reason_incompatible_version : ℕ
  reason_incompatible_version = 6

  abbrev pub reason_retr_failed : ℕ
  reason_retr_failed = 7

  abbrev pub reason_protocol_error : ℕ
  reason_protocol_error = 8

abbrev pub transmit : List ℕ → TransportChannel → TransportChannel
transmit bytes t = record t { sent = t.sent ++ (bytes ∷ []) }

module _ (env : Env) where
  -- A redialled channel carries the array only if the redial returned 0.
  abbrev pub send_redialled : List ℕ → Bool × TransportChannel → TransportChannel
  send_redialled bytes (true, t) = transmit bytes t
  send_redialled bytes (false, t) = t

  -- The body of the loop for one transport channel: only a client redials.
  unfoldable pub send_on : Role → List ℕ → ℕ → TransportChannel → TransportChannel
  send_on client bytes n t =
      if t.connected then transmit bytes t else send_redialled bytes (env.transport.redial n t)
  send_on server bytes n t = if t.connected then transmit bytes t else t

  unfoldable pub send_all : Role → List ℕ → ℕ → List TransportChannel → List TransportChannel
  send_all role bytes n [] = []
  send_all role bytes n (t ∷ ts) = send_on role bytes n t ∷ send_all role bytes n ts

  abbrev pub send_bytes : Role → Option (List ℕ) → ℕ → List TransportChannel → List TransportChannel
  send_bytes role none n ts = ts
  send_bytes role (some bytes) n ts = send_all role bytes n ts

  abbrev pub is_fault {ℓ} : {A : Type ℓ} → Option A → Bool
  is_fault none = true
  is_fault (some a) = false

  -- `redundancy_mux_send`
  unfoldable pub redundancy_mux_send : RastaPacket → Connection → Connection
  redundancy_mux_send packet c =
      let ch = c.channel in
      let outer = create_redundancy_packet ch.seq_tx packet (crc_len env.crc) in
      let (error, bytes) = rasta_redundancy_packet_to_bytes env.hashing env.crc c.lasterror outer in
      record c {
        channel = record ch {
          seq_tx = u64 (ch.seq_tx + 1);
          transport_channels = send_bytes c.role bytes c.ticks ch.transport_channels;
        };
        ticks = c.ticks + 1;
        lasterror = error;
        fault = if is_fault bytes then true else c.fault;
        handed = c.handed ++ (packet ∷ []);
      }

  -- The arguments that every message passes on from the connection.
  abbrev pub header_of_connection : Connection → Header
  header_of_connection c = record {
    receiver_id = c.remote_id;
    sender_id = c.my_id;
    sequence_number = c.sn_t;
    confirmed_sequence_number = c.cs_t;
    timestamp = cur_timestamp env c;
    confirmed_timestamp = c.ts_r;
  }

  abbrev pub next_sn_t : Connection → Connection
  next_sn_t c = record c { sn_t = u32 (c.sn_t + 1) }

  unfoldable pub send_disconnection_request : ℕ → ℕ → Connection → Connection
  send_disconnection_request reason details c =
      redundancy_mux_send
        (create_disconnection_request env.hashing (header_of_connection c)
          (record { details = details; reason = reason }))
        (tick c)

  unfoldable pub send_heartbeat : Bool → Connection → Connection
  send_heartbeat reschedule_manually c =
      let sent =
        next_sn_t
          (redundancy_mux_send (create_heartbeat env.hashing (header_of_connection c)) (tick c)) in
      if reschedule_manually then reschedule_heartbeat env sent else sent

  unfoldable pub send_retransmission_request : Connection → Connection
  send_retransmission_request c = next_sn_t (
      redundancy_mux_send (create_retransmission_request env.hashing (header_of_connection c))
        (tick c))

  unfoldable pub send_retransmission_response : Connection → Connection
  send_retransmission_response c = next_sn_t (
      redundancy_mux_send (create_retransmission_response env.hashing (header_of_connection c))
        (tick c))
