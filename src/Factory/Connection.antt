-- ===== src/Factory/Connection.antt =====
-- Connection and disconnection data through their PDUs (src/c/rastafactory.c).
use librasta.Base.{ℕ, ◌<◌, ◌^◌, ◌≡◌, ◌≢◌, [], ◌∷◌, arith, length, le_short_value}
use librasta.Packet.{RastaPacket, RastaError, wrong_package_format, HashingContext, IsPacket}
use librasta.Packet.Roundtrip.{sealed}
use librasta.Factory.{
  Header, RastaDisconnectionData, create_connection_request, create_connection_response,
  extract_rasta_connection_data, create_disconnection_request, extract_rasta_disconnection_data,
  create_heartbeat, create_retransmission_request, create_retransmission_response,
  initialize_packet,
}
use librasta.Factory.Messages.{IsHeader}

-- Version and N_SENDMAX of a connection request reach the peer, and no error is recorded.
pub extract-create_connection_request :
    (h : HashingContext) (r : Header) (last : RastaError) (a b c d send_max : ℕ)
    → send_max < 2 ^ 16
    → extract_rasta_connection_data last
        (sealed h (create_connection_request h r send_max (a ∷ b ∷ c ∷ d ∷ [])))
      ≡ (record { version = a ∷ b ∷ c ∷ d ∷ []; send_max = send_max }, last)
unfolding extract_rasta_connection_data create_connection_request
extract-create_connection_request h r last a b c d send_max fits =
    ground (arith, le_short_value send_max fits)

pub extract-create_connection_response :
    (h : HashingContext) (r : Header) (last : RastaError) (a b c d send_max : ℕ)
    → send_max < 2 ^ 16
    → extract_rasta_connection_data last
        (sealed h (create_connection_response h r send_max (a ∷ b ∷ c ∷ d ∷ [])))
      ≡ (record { version = a ∷ b ∷ c ∷ d ∷ []; send_max = send_max }, last)
unfolding extract_rasta_connection_data create_connection_response
extract-create_connection_response h r last a b c d send_max fits =
    ground (arith, le_short_value send_max fits)

-- Details and reason of a disconnection request reach the peer, and no error is recorded.
pub extract-create_disconnection_request :
    (h : HashingContext) (r : Header) (last : RastaError) (d : RastaDisconnectionData)
    → d.details < 2 ^ 16
    → d.reason < 2 ^ 16
    → extract_rasta_disconnection_data last (sealed h (create_disconnection_request h r d))
      ≡ (d, last)
unfolding extract_rasta_disconnection_data create_disconnection_request
extract-create_disconnection_request h r last d details_fit reason_fit =
    ground (arith, le_short_value d.details details_fit, le_short_value d.reason reason_fit)

-- A connection PDU with other than 14 bytes of data reads as N_SENDMAX 0 and records the error.
pub extract_connection_malformed :
    (last : RastaError) (p : RastaPacket)
    → length p.payload ≢ 14
    → ((extract_rasta_connection_data last p).0.send_max ≡ 0)
      × ((extract_rasta_connection_data last p).1 ≡ wrong_package_format)
unfolding extract_rasta_connection_data
extract_connection_malformed last p bad = ground arith

-- Every constructor but the data message's builds a packet with consistent lengths.
pub control_packets-IsPacket :
    (h : HashingContext) (r : Header) (d : RastaDisconnectionData) (a b c e send_max : ℕ)
    → IsHeader r
    → h.hash_length < 3
    → IsPacket h (create_connection_request h r send_max (a ∷ b ∷ c ∷ e ∷ []))
      × IsPacket h (create_connection_response h r send_max (a ∷ b ∷ c ∷ e ∷ []))
      × IsPacket h (create_disconnection_request h r d)
      × IsPacket h (create_heartbeat h r)
      × IsPacket h (create_retransmission_request h r)
      × IsPacket h (create_retransmission_response h r)
unfolding create_connection_request create_connection_response create_disconnection_request
    create_heartbeat create_retransmission_request create_retransmission_response initialize_packet
control_packets-IsPacket h r d a b c e send_max v small = omega arith
