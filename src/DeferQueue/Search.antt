-- ===== src/DeferQueue/Search.antt =====
-- What `deferqueue_get` of src/c/util/rastadeferqueue.c finds.
use librasta.Base.{
  ℕ, zero, suc, ◌≡◌, refl, List, [], ◌∷◌, some, arith, get_elem?, take, Option-cases, Bool-cases,
  inl, inr, ◌⊎◌, true,
}
use librasta.Packet.{RastaRedundancyPacket}
use librasta.DeferQueue.{
  Wrapper, DeferQueue, live, has_seqnr, index_of, find_index, deferqueue_contains, entry_packet,
  deferqueue_get,
}

-- The packet is that of one of the entries.
unfoldable pub Holds : RastaRedundancyPacket → List Wrapper → Type 0
Holds p [] = ⊥
Holds p (w ∷ ws) = (w.packet ≡ p) ⊎ Holds p ws

index_of-entry :
    (absent : RastaRedundancyPacket) (s i n : ℕ) (ws : List Wrapper)
    → index_of s (take n ws) ≡ some i
    → Holds (entry_packet absent (get_elem? ws i)) (take n ws)
      × ((entry_packet absent (get_elem? ws i)).sequence_number ≡ s)
unfolding index_of Holds
index_of-entry absent s i zero ws e = cc
index_of-entry absent s i (suc n) [] e = cc
index_of-entry absent s zero (suc n) (w ∷ ws) e = elim (Bool-cases (has_seqnr s w)) [
  | inl f ↦ (inl refl, ground (arith, f))
  | inr f ↦ elim (Option-cases (index_of s (take n ws))) [
    | inl g ↦ absurd (ground (arith, e, f, g))
    | inr (j, g) ↦ absurd (ground (arith, e, f, g))
  ]
]
index_of-entry absent s (suc i) (suc n) (w ∷ ws) e = elim (Bool-cases (has_seqnr s w)) [
  | inl f ↦ absurd (ground (arith, e, f))
  | inr f ↦ let (a, b) = index_of-entry absent s i n ws (ground (arith, e, f)) in (inr a, b)
]

-- What `deferqueue_get` finds is an entry with the number.
pub get-Holds :
    (absent : RastaRedundancyPacket) (q : DeferQueue) (s : ℕ)
    → deferqueue_contains q s ≡ true
    → Holds (deferqueue_get absent q s) (live q) × ((deferqueue_get absent q s).sequence_number ≡ s)
unfolding deferqueue_contains deferqueue_get find_index
get-Holds absent q s e = elim (Option-cases (index_of s (live q))) [
  | inl f ↦ absurd (ground (arith, e, f))
  | inr (i, f) ↦ rw (deferqueue_get, f) (index_of-entry absent s i q.count q.elements f)
]
