-- ===== src/Sr/Receive.antt =====
-- `sr_receive` of src/c/retransmission/safety_retransmission.c and `handle_received_packet` of
-- src/c/retransmission/handlers.c, built without ENABLE_OPAQUE.
pub mod Refused
pub mod Valid
pub mod Data
pub mod Edges
pub mod Opening
pub mod States
use librasta.Base.{ℕ, ◌+◌, ◌==◌, if◌then◌else◌, u32}
use librasta.Packet.{RastaPacket}
use librasta.Packet.ConnType
use librasta.Connection.{Connection, Env}
use librasta.Sr.Checks.{sr_message_authentic, sr_sn_range_valid, sr_cs_valid}
use librasta.Sr.Handlers.{
  handle_retrdata, handle_data, handle_retrreq, handle_retrresp, handle_discreq, count_type_error,
  count_sn_error, count_cs_error,
}
use librasta.Sr.Handlers.Heartbeat.{handle_hb}
use librasta.Sr.Handshake.{handle_conreq, handle_conresp}

abbrev pub count_safety_error : Connection → Connection
count_safety_error c = record c {
  errors = record (c.errors) { safety = u32 (c.errors.safety + 1) };
}

abbrev pub count_address_error : Connection → Connection
count_address_error c = record c {
  errors = record (c.errors) { address = u32 (c.errors.address + 1) };
}

module _ (env : Env) where
  -- The `switch` of `handle_received_packet`.
  unfoldable pub handle_received_packet : Connection → RastaPacket → Connection × ℕ
  handle_received_packet c packet =
      if packet.type == ConnType.retrdata
      then handle_retrdata env c packet
      else if packet.type == ConnType.data_message
      then handle_data env c packet
      else if packet.type == ConnType.retrreq
      then handle_retrreq env c packet
      else if packet.type == ConnType.retrresp
      then handle_retrresp env c packet
      else if packet.type == ConnType.discreq
      then handle_discreq env c packet
      else if packet.type == ConnType.hb
      then handle_hb env c packet
      else (count_type_error c, 0)

  -- Without a key exchange `sr_rekeying_skipped` is false.
  unfoldable pub sr_receive : Connection → RastaPacket → Connection × ℕ
  sr_receive c packet =
      if packet.type == ConnType.connreq
      then (handle_conreq env c packet, 0)
      else if packet.type == ConnType.connresp
      then (handle_conresp env c packet, 1)
      else if packet.checksum_correct
      then (if sr_message_authentic c packet
          then (if sr_sn_range_valid c packet
              then (if sr_cs_valid c packet
                  then handle_received_packet c packet
                  else (count_cs_error c, 0))
              else (count_sn_error c, 0))
          else (count_address_error c, 0))
      else (count_safety_error c, 0)
