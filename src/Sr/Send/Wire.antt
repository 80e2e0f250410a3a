-- ===== src/Sr/Send/Wire.antt =====
-- `redundancy_mux_send` of src/c/redundancy/rasta_red_multiplexer.c: what reaches the wire.
use librasta.Base.{
  ℕ, ◌+◌, ◌≡◌, ◌≤◌, refl, if◌then◌else◌, List, [], ◌∷◌, true, some, u64, u16, arith, ap, ◌∙◌, ◌%◌,
  ◌^◌, ◌<◌,
}
use librasta.Packet.{RastaPacket, RastaRedundancyPacket, RastaError, no_error, IsHashing, IsPacket}
use librasta.Packet.RedundancyCodec.{
  RedundancyDecoded, crc_len, rasta_redundancy_packet_to_bytes, bytes_to_rasta_redundancy_packet,
}
use librasta.Packet.Roundtrip.{sealed}
use librasta.Packet.RedundancyRoundtrip.{IsRedundancyPacket, resealed, redundancy_roundtrip}
use librasta.Factory.{create_redundancy_packet}
use librasta.Transport.{TransportChannel}
use librasta.Connection.{Connection, Role, client, server, Env}
use librasta.Sr.Send.{redundancy_mux_send, is_fault, send_all, send_on, transmit}

unfoldable pub AllConnected : List TransportChannel → Type 0
AllConnected [] = Unit
AllConnected (t ∷ ts) = (t.connected ≡ true) × AllConnected ts

abbrev pub transmit_all : List ℕ → List TransportChannel → List TransportChannel
transmit_all bytes [] = []
transmit_all bytes (t ∷ ts) = transmit bytes t ∷ transmit_all bytes ts

module _ (env : Env) where
  send_all-connected :
      (role : Role) (bytes : List ℕ) (n : ℕ) (ts : List TransportChannel)
      → AllConnected ts
      → send_all env role bytes n ts ≡ transmit_all bytes ts
  unfolding send_all send_on AllConnected
  send_all-connected role bytes n [] h = refl
  send_all-connected client bytes n (t ∷ ts) h =
      ground (arith, h.0, send_all-connected client bytes n ts h.1)
  send_all-connected server bytes n (t ∷ ts) h =
      ground (arith, h.0, send_all-connected server bytes n ts h.1)

  abbrev pub outer : RastaPacket → Connection → RastaRedundancyPacket
  outer p c = create_redundancy_packet c.channel.seq_tx p (crc_len env.crc)

  pub outer-IsRedundancyPacket :
      (p : RastaPacket) (c : Connection)
      → IsPacket env.hashing p
      → crc_len env.crc ≤ 4
      → 8 + p.length + crc_len env.crc < 65536
      → IsRedundancyPacket env.hashing env.crc (outer p c)
  unfolding create_redundancy_packet
  outer-IsRedundancyPacket p c v small fits = record {
    inner_valid = v;
    length_exact = omega arith;
    length_fits = omega arith;
    reserve_fits = omega arith;
    sequence_fits = omega arith;
    code_fits = small;
  }

  -- The redundancy packet that a receiver is to read.
  abbrev pub wrapped : RastaPacket → Connection → RastaRedundancyPacket
  wrapped p c = record {
    length = 8 + p.length + crc_len env.crc;
    reserve = 0;
    sequence_number = c.channel.seq_tx % 2 ^ 32;
    inner = sealed env.hashing p;
    checksum_correct = true;
  }

  outer-wrapped :
      (p : RastaPacket) (c : Connection)
      → 8 + p.length + crc_len env.crc < 65536
      → resealed env.hashing (outer p c) ≡ wrapped p c
  unfolding create_redundancy_packet
  outer-wrapped p c fits =
      ap (λ n. record (wrapped p c) { length = n }) {x = u16 (8 + p.length + crc_len env.crc)}
        {y = 8 + p.length + crc_len env.crc} (omega arith)

  -- What the sending of one packet leaves.
  pub record Broadcast (p : RastaPacket) (c c' : Connection) (bytes : List ℕ) : Type 0 where
    pub on_all : c'.channel.transport_channels ≡ transmit_all bytes c.channel.transport_channels
    pub numbered : c'.channel.seq_tx ≡ u64 (c.channel.seq_tx + 1)
    pub no_fault : c'.fault ≡ c.fault
    pub readable :
        (last : RastaError) (stale : RastaPacket)
        → bytes_to_rasta_redundancy_packet env.hashing env.crc last stale bytes
          ≡ (last, RedundancyDecoded.decoded (wrapped p c))

  Broadcast-bytes :
      (p : RastaPacket) (c : Connection) (bytes : List ℕ) (clean : c.lasterror ≡ no_error)
      (connected : AllConnected c.channel.transport_channels)
      (packed : rasta_redundancy_packet_to_bytes env.hashing env.crc no_error (outer p c)
        ≡ (no_error, some bytes))
      (readable : (last : RastaError) (stale : RastaPacket)
        → bytes_to_rasta_redundancy_packet env.hashing env.crc last stale bytes
          ≡ (last, RedundancyDecoded.decoded (resealed env.hashing (outer p c))))
      (as_wrapped : resealed env.hashing (outer p c) ≡ wrapped p c)
      → Broadcast p c (redundancy_mux_send env p c) bytes
  unfolding redundancy_mux_send
  Broadcast-bytes p c bytes clean connected packed readable as_wrapped = record {
    on_all =
        rw (clean, packed)
          (send_all-connected c.role bytes c.ticks c.channel.transport_channels connected);
    numbered = refl;
    no_fault = rw (clean, packed) refl;
    readable = λ last stale.
        readable last stale ∙ ap (λ q. (last, RedundancyDecoded.decoded q)) as_wrapped;
  }

  -- With a hash of the announced length and a check code of four bytes at most: a packet with
  -- consistent lengths, short enough for the 16-bit length of the packet around it,
  -- given to `redundancy_mux_send` with no packing error pending
  -- and all transport channels connected, goes out on each of them once, as the same bytes. They
  -- read back as the redundancy packet around the given packet with the right length and the channel's
  -- number `seq_tx`, cut to 32 bits, both codes correct; nothing is written outside an array; the number moves on by one, modulo 2 ^ 64.
  pub mux_send-Broadcast :
      (p : RastaPacket) (c : Connection) (hh : IsHashing env.hashing) (v : IsPacket env.hashing p)
      (small : crc_len env.crc ≤ 4) (fits : 8 + p.length + crc_len env.crc < 65536)
      (clean : c.lasterror ≡ no_error) (connected : AllConnected c.channel.transport_channels)
      → (bytes : List ℕ) × Broadcast p c (redundancy_mux_send env p c) bytes
  mux_send-Broadcast p c hh v small fits clean connected =
      let trip =
        redundancy_roundtrip env.hashing env.crc (outer p c) hh
          (outer-IsRedundancyPacket p c v small fits) in
      (trip.0, Broadcast-bytes p c trip.0 clean connected trip.1 trip.2 (outer-wrapped p c fits))

  -- With no packing error pending, such a packet is sent without an access outside an array and
  -- leaves none pending, whichever channels are connected.
  pub mux_send-clean :
      (p : RastaPacket) (c : Connection) (hh : IsHashing env.hashing) (v : IsPacket env.hashing p)
      (small : crc_len env.crc ≤ 4) (fits : 8 + p.length + crc_len env.crc < 65536)
      (clean : c.lasterror ≡ no_error)
      → ((redundancy_mux_send env p c).lasterror ≡ no_error)
        × ((redundancy_mux_send env p c).fault ≡ c.fault)
  unfolding redundancy_mux_send
  mux_send-clean p c hh v small fits clean =
      let trip =
        redundancy_roundtrip env.hashing env.crc (outer p c) hh
          (outer-IsRedundancyPacket p c v small fits) in
      rw clean (ap (λ r. r.0) trip.1, ap (λ r. if is_fault env r.1 then true else c.fault) trip.1)
