-- ===== src/Sr/Keeps.antt =====
-- What the operations of the safety and retransmission layer (src/c/retransmission) leave alone.
pub mod Handling
use librasta.Base.{
  ℕ, zero, suc, ◌≡◌, refl, ◌∙◌, if◌then◌else◌, Bool, true, false, Option, none, some, List, [], ◌∷◌,
  arith, Option-cases, inl, inr,
}
use librasta.Packet.{RastaPacket}
use librasta.Packet.Codec.{Decoded, too_short, overread, decoded}
use librasta.Fifo.{Fifo}
use librasta.DeferQueue.{DeferQueue}
use librasta.Connection.{Connection, SrState, Role, Config, Env, closed}
use librasta.Sr.Send.{
  redundancy_mux_send, send_heartbeat, send_disconnection_request, send_retransmission_request,
  send_retransmission_response,
}
use librasta.Sr.Close.{
  sr_reset_connection, sr_close_connection, redundancy_channel_close, sr_closed_connection,
  close_by_state, close_with_request,
}
use librasta.Sr.Queues.{
  data_send_event, send_from_queue, send_popped, send_packet, enqueue_retransmission,
  push_retransmission, pop_n, send_backlog, remove_confirmed, sr_remove_confirmed_messages,
  retransmit_one, retransmit_all, retransmit_decoded, retransmit_messages, retransmit_packet,
  retransmit_popped, sr_retransmit_data, disable_when_empty,
}
use librasta.Sr.Diagnostics.{sr_update_timeout_interval, sr_diagnostic_update}
use librasta.Sr.Receiving.{
  add_message, add_messages, add_extracted, sr_add_app_messages_to_buffer, update_connection_attrs,
  update_confirmed_attrs,
}

-- The receiving side of the redundancy channel and the configuration stay as they are.
pub record KeepsReceiving (c c' : Connection) : Type 0 where
  pub seq_rx : c'.channel.seq_rx ≡ c.channel.seq_rx
  pub defer_q : c'.channel.defer_q ≡ c.channel.defer_q
  pub associated_id : c'.channel.associated_id ≡ c.channel.associated_id
  pub config : c'.config ≡ c.config
  pub my_id : c'.my_id ≡ c.my_id
  pub remote_id : c'.remote_id ≡ c.remote_id

-- So do the state and the role.
pub record Keeps (c c' : Connection) : Type 0 where
  pub state : c'.current_state ≡ c.current_state
  pub role : c'.role ≡ c.role
  pub receiving : KeepsReceiving c c'

pub KeepsReceiving-refl : (c : Connection) → KeepsReceiving c c
KeepsReceiving-refl c = ground arith

pub KeepsReceiving-trans :
    {a b c : Connection} → KeepsReceiving a b → KeepsReceiving b c → KeepsReceiving a c
KeepsReceiving-trans p q = ground arith

pub Keeps-refl : (c : Connection) → Keeps c c
Keeps-refl c = ground arith

pub Keeps-trans : {a b c : Connection} → Keeps a b → Keeps b c → Keeps a c
Keeps-trans p q = ground arith

module _ (env : Env) where
  pub mux_send-Keeps : (p : RastaPacket) (c : Connection) → Keeps c (redundancy_mux_send env p c)
  unfolding redundancy_mux_send
  mux_send-Keeps p c = ground arith

  pub heartbeat-Keeps : (b : Bool) (c : Connection) → Keeps c (send_heartbeat env b c)
  unfolding send_heartbeat redundancy_mux_send
  heartbeat-Keeps b c = ground arith

  pub disconnection-Keeps :
      (r d : ℕ) (c : Connection) → Keeps c (send_disconnection_request env r d c)
  unfolding send_disconnection_request redundancy_mux_send
  disconnection-Keeps r d c = ground arith

  pub retrreq-Keeps : (c : Connection) → Keeps c (send_retransmission_request env c)
  unfolding send_retransmission_request redundancy_mux_send
  retrreq-Keeps c = ground arith

  pub retrresp-Keeps : (c : Connection) → Keeps c (send_retransmission_response env c)
  unfolding send_retransmission_response redundancy_mux_send
  retrresp-Keeps c = ground arith

  pub enqueue-Keeps : (p : RastaPacket) (c : Connection) → Keeps c (enqueue_retransmission env p c)
  unfolding enqueue_retransmission
  enqueue-Keeps p c = ground arith
