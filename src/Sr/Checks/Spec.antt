-- ===== src/Sr/Checks/Spec.antt =====
-- The order of checks that `sr_check_packet` makes, as conditions on the numbers.
use librasta.Base.{ℕ, ◌≡◌, ◌+◌, ◌-◌, ◌≤◌, ◌<◌, ◌⊎◌, ◌↔◌, true, sub32, arith}
use librasta.Packet.{RastaPacket}
use librasta.Packet.ConnType
use librasta.Connection.{Connection}
use librasta.Sr.Checks.{
  sr_cts_in_seq, sr_sn_in_seq, sr_sn_range_valid, sr_cs_valid, sr_message_authentic,
  sr_check_packet,
}

-- What a data packet must satisfy, with `cs_r` not past `sn_t`.
pub record IsValidData (c : Connection) (p : RastaPacket) : Type 0 where
  pub intact : p.checksum_correct ≡ true
  pub sender : p.sender_id ≡ c.remote_id
  pub receiver : p.receiver_id ≡ c.my_id
  pub number : p.sequence_number ≡ c.sn_r
  pub confirmed_from : c.cs_r ≤ p.confirmed_sequence_number
  pub confirmed_to : p.confirmed_sequence_number < c.sn_t
  pub time :
      (c.cts_r ≡ 0)
      ⊎ ((c.cts_r ≤ p.confirmed_timestamp) × (p.confirmed_timestamp < c.cts_r + c.config.t_max))

sub32_ordered : (a b : ℕ) → b ≤ a → a < 4294967296 → sub32 a b ≡ a - b
sub32_ordered a b h k = omega arith

-- The conditions that follow from a check that succeeds.
check_sound :
    (c : Connection) (p : RastaPacket) (kind : p.type ≡ ConnType.data_message)
    (ordered : c.cs_r ≤ c.sn_t) (bounded : c.sn_t < 4294967296)
    (checked : sr_check_packet c p ≡ true)
    → IsValidData c p
unfolding sr_check_packet sr_message_authentic sr_sn_range_valid sr_cs_valid sr_sn_in_seq
    sr_cts_in_seq
check_sound c p kind ordered bounded checked =
    ground (arith, sub32_ordered c.sn_t c.cs_r ordered bounded)

check_complete :
    (c : Connection) (p : RastaPacket) (kind : p.type ≡ ConnType.data_message)
    (ordered : c.cs_r ≤ c.sn_t) (bounded : c.sn_t < 4294967296) (valid : IsValidData c p)
    → sr_check_packet c p ≡ true
unfolding sr_check_packet sr_message_authentic sr_sn_range_valid sr_cs_valid sr_sn_in_seq
    sr_cts_in_seq
check_complete c p kind ordered bounded valid =
    ground (arith, sub32_ordered c.sn_t c.cs_r ordered bounded)

-- For a data packet, where the last confirmed number `cs_r` is not past the next one `sn_t`, the
-- six checks of `sr_check_packet` hold exactly if the packet is intact, comes from the peer, has the
-- number awaited, confirms a number from `cs_r` to before `sn_t`, and carries a confirmed time that
-- is less than `t_max` past the last one, if there is a last one.
pub sr_check_packet-IsValidData :
    (c : Connection) (p : RastaPacket) (kind : p.type ≡ ConnType.data_message)
    (ordered : c.cs_r ≤ c.sn_t) (bounded : c.sn_t < 4294967296)
    → (sr_check_packet c p ≡ true) ↔ IsValidData c p
sr_check_packet-IsValidData c p kind ordered bounded =
    (check_sound c p kind ordered bounded, check_complete c p kind ordered bounded)
