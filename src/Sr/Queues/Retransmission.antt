-- ===== src/Sr/Queues/Retransmission.antt =====
-- `sr_retransmit_data` of src/c/retransmission/safety_retransmission.c sends the kept messages again.
use librasta.Base.{ℕ, ◌+◌, ◌≡◌, some, List, [], ◌∷◌, ◌++◌, length, u32}
use librasta.Packet.ConnType
use librasta.Packet.{RastaPacket}
use librasta.Factory.{extract_message_data}
use librasta.Connection.{Connection, Env}
use librasta.Sr.Queues.Confirmed.{counted_fifo}
use librasta.Sr.Queues.Resending.{CanSend, Keeps, packed}

-- The packets are retransmitted data that carries the messages, numbered from `n` on.
unfoldable pub Repeats : ℕ → List RastaPacket → List (List (List ℕ)) → Type 0
Repeats n [] [] = Unit
Repeats n [] (ms ∷ mss) = ⊥
Repeats n (p ∷ ps) [] = ⊥
Repeats n (p ∷ ps) (ms ∷ mss) =
    (p.type ≡ ConnType.retrdata)
    × (p.sequence_number ≡ n)
    × (extract_message_data p ≡ some ms)
    × Repeats (u32 (n + 1)) ps mss

module _ (env : Env) where
  abbrev pub packed_all : List RastaPacket → List (List ℕ)
  packed_all [] = []
  packed_all (p ∷ ps) = packed env p ∷ packed_all ps

  -- The queued byte arrays keep the messages, in order.
  unfoldable pub AllKept : List (List ℕ) → List (List (List ℕ)) → Type 0
  AllKept [] [] = Unit
  AllKept [] (ms ∷ mss) = ⊥
  AllKept (b ∷ bs) [] = ⊥
  AllKept (b ∷ bs) (ms ∷ mss) = Keeps env b ms × AllKept bs mss

  -- What the repeated sending of all kept messages does.
  pub record ResendsAll (c : Connection) (mss : List (List (List ℕ))) (c' : Connection)
      : Type 0 where
    pub packets : List RastaPacket
    pub repeats : Repeats c.sn_t packets mss
    pub handed : c'.handed ≡ c.handed ++ packets
    pub kept :
        c'.fifo_retransmission.elements ≡ c.fifo_retransmission.elements ++ packed_all packets
    pub number : c'.sn_t ≡ u32 (c.sn_t + length mss)
    pub no_fault : c'.fault ≡ c.fault
    pub ready : CanSend env c'

  -- What the answer to a retransmission request does.
  pub record Retransmits (c : Connection) (mss : List (List (List ℕ))) (c' : Connection)
      : Type 0 where
    pub packets : List RastaPacket
    pub final : RastaPacket
    pub repeats : Repeats c.sn_t packets mss
    pub final_type : final.type ≡ ConnType.hb
    pub final_number : final.sequence_number ≡ u32 (c.sn_t + length mss)
    pub handed : c'.handed ≡ c.handed ++ packets ++ (final ∷ [])
    pub kept : c'.fifo_retransmission.elements ≡ packed_all packets
    pub number : c'.sn_t ≡ u32 (c.sn_t + length mss + 1)
    pub no_fault : c'.fault ≡ c.fault

  abbrev emptied : Connection → Connection
  emptied c = record c { fifo_retransmission = counted_fifo [] c.fifo_retransmission.max_size }
