-- ===== src/Redundancy/Reseal.antt =====
-- `_deliver_message_to_upper_layer` of src/c/redundancy/rastaredundancy.c: what the upper layer gets.
use librasta.Base.{◌≡◌, refl}
use librasta.Packet.{RastaPacket, no_error, IsHashing, IsPacket}
use librasta.Packet.Roundtrip.{sealed, pack_lem, unpack_lem}
use librasta.Connection.{Connection, Env}
use librasta.Sr.Receive.{sr_receive}
use librasta.Redundancy.{deliver_packet}

-- A queued packet with consistent lengths reaches the safety layer with all its fields, its data
-- and a safety code that is right, whatever its own safety code was: the code is made anew before
-- `sr_receive` checks it.
pub deliver_packet-sealed :
    (env : Env) (c : Connection) (p : RastaPacket) (hh : IsHashing env.hashing)
    (v : IsPacket env.hashing p) (clean : c.lasterror ≡ no_error)
    → deliver_packet env p c ≡ sr_receive env c (sealed env.hashing p)
unfolding deliver_packet
deliver_packet-sealed env c p hh v clean =
    rw (clean, pack_lem env.hashing p hh v, unpack_lem env.hashing p hh v) refl
