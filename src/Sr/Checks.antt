-- ===== src/Sr/Checks.antt =====
-- The validity checks on received packets (src/c/retransmission/safety_retransmission.c).
pub mod Spec
use librasta.Base.{
  ℕ, ◌-◌, ◌*◌, ◌+◌, ltb, leb, ◌==◌, if◌then◌else◌, Bool, true, false, ◌&&◌, ◌||◌, u32, sub32,
}
use librasta.Packet.{RastaPacket}
use librasta.Packet.ConnType
use librasta.Connection.{Connection}

unfoldable pub sr_cts_in_seq : Connection → RastaPacket → Bool
sr_cts_in_seq con packet =
    if packet.type == ConnType.hb
      || packet.type == ConnType.data_message
      || packet.type == ConnType.retrdata
    then (if con.cts_r == 0
        then true
        else if ltb packet.confirmed_timestamp con.cts_r
        then false
        else ltb (packet.confirmed_timestamp - con.cts_r) con.config.t_max)
    else true

unfoldable pub sr_sn_in_seq : Connection → RastaPacket → Bool
sr_sn_in_seq con packet =
    if packet.type == ConnType.connreq
      || packet.type == ConnType.connresp
      || packet.type == ConnType.retrresp
      || packet.type == ConnType.discreq
    then true
    else con.sn_r == packet.sequence_number

-- `send_max` is an `unsigned short`, so the product does not wrap.
unfoldable pub sr_sn_range_valid : Connection → RastaPacket → Bool
sr_sn_range_valid con packet =
    if packet.type == ConnType.connreq
      || packet.type == ConnType.connresp
      || packet.type == ConnType.retrresp
    then true
    else leb con.sn_r packet.sequence_number
      && leb (packet.sequence_number - con.sn_r) (con.config.send_max * 10)

unfoldable pub sr_cs_valid : Connection → RastaPacket → Bool
sr_cs_valid con packet =
    if packet.type == ConnType.connreq
    then packet.confirmed_sequence_number == 0
    else if packet.type == ConnType.connresp
    then packet.confirmed_sequence_number == sub32 con.sn_t 1
    else leb con.cs_r packet.confirmed_sequence_number
      && ltb (packet.confirmed_sequence_number - con.cs_r) (sub32 con.sn_t con.cs_r)

unfoldable pub sr_message_authentic : Connection → RastaPacket → Bool
sr_message_authentic con packet =
    packet.sender_id == con.remote_id && packet.receiver_id == con.my_id

unfoldable pub sr_check_packet : Connection → RastaPacket → Bool
sr_check_packet con packet =
    packet.checksum_correct
    && (sr_message_authentic con packet
        && (sr_sn_range_valid con packet
            && (sr_cs_valid con packet && (sr_sn_in_seq con packet && sr_cts_in_seq con packet))))
