-- ===== src/DeferQueue/Multiset.antt =====
-- The defer queue as a multiset of sequence numbers (src/c/util/rastadeferqueue.c).
use Prim.Native.Nat.{min}
use native.Mathlib.Numerals.{add-one}
use native.Mathlib.Decide.{ℕ_discrete}
use librasta.Base.{
  ℕ, zero, suc, ◌+◌, ◌-◌, ◌<◌, ◌≡◌, ◌≢◌, refl, sym, ap, ◌∙◌, ltb, not, ◌&&◌, ◌==◌, if◌then◌else◌,
  List, [], ◌∷◌, none, some, arith, length, get_elem?, set, take, length-set, Option-cases, inl,
  inr,
}
use librasta.Packet.{RastaRedundancyPacket}
use librasta.DeferQueue.{
  Wrapper, DeferQueue, IsDeferQueue, Qsort, live, sort, has_seqnr, index_of, find_index,
  deferqueue_add, deferqueue_remove, deferqueue_contains, deferqueue_isfull, remove_at, overwritten,
}
use librasta.DeferQueue.Sort.{Rearranges, occurrences, sort-IsDeferQueue, occurrences-sort}

-- How often a sequence number is queued.
abbrev pub queued : DeferQueue → ℕ → ℕ
queued q s = occurrences s (live q)

index_of-none : (s : ℕ) (ws : List Wrapper) → index_of s ws ≡ none → occurrences s ws ≡ 0
unfolding index_of
index_of-none s [] e = refl
index_of-none s (w ∷ ws) e = ground (arith, index_of-none s ws)

index_of-some : (s i : ℕ) (ws : List Wrapper) → index_of s ws ≡ some i → 0 < occurrences s ws
unfolding index_of
index_of-some s i [] e = cc
index_of-some s i (w ∷ ws) e = ground (arith, index_of-none s ws, index_of-some s (i - 1) ws)

-- `deferqueue_contains` tells whether a sequence number is queued at all.
pub contains_iff : (q : DeferQueue) (s : ℕ) → deferqueue_contains q s ≡ ltb 0 (queued q s)
unfolding deferqueue_contains find_index
contains_iff q s = elim (Option-cases (index_of s (live q))) [
  | inl e ↦ ground (arith, e, index_of-none s (live q) e)
  | inr (i, e) ↦ ground (arith, e, index_of-some s i (live q) e)
]

occurrences-set_end :
    (s n : ℕ) (w : Wrapper) (ws : List Wrapper)
    → n < length ws
    → occurrences s (take (suc n) (set ws n w))
      ≡ occurrences s (take n ws) + (if has_seqnr s w then 1 else 0)
occurrences-set_end s n w [] h = absurd (omega arith)
occurrences-set_end s zero w (x ∷ xs) h = ground arith
occurrences-set_end s (suc n) w (x ∷ xs) h =
    omega (arith, occurrences-set_end s n w xs (omega arith))

occurrences-take-suc :
    (s m : ℕ) (w : Wrapper) (ws : List Wrapper)
    → get_elem? ws m ≡ some w
    → occurrences s (take (suc m) ws) ≡ occurrences s (take m ws) + (if has_seqnr s w then 1 else 0)
occurrences-take-suc s m w [] h = cc
occurrences-take-suc s zero w (x ∷ xs) h = ground arith
occurrences-take-suc s (suc m) w (x ∷ xs) h = omega (arith, occurrences-take-suc s m w xs h)

get_elem?-some :
    (m : ℕ) (ws : List Wrapper) → m < length ws → (w : Wrapper) × (get_elem? ws m ≡ some w)
get_elem?-some m [] h = absurd (omega arith)
get_elem?-some zero (x ∷ xs) h = (x, refl)
get_elem?-some (suc m) (x ∷ xs) h = get_elem?-some m xs (omega arith)

overwritten-cons :
    (m i : ℕ) (w last : Wrapper) (ws : List Wrapper)
    → get_elem? ws m ≡ some last
    → overwritten (w ∷ ws) (suc m) (suc i) ≡ w ∷ overwritten ws m i
overwritten-cons m i w last ws found = ground arith

index_of-tail :
    (t i : ℕ) (w : Wrapper) (ws : List Wrapper)
    → index_of t (w ∷ ws) ≡ some (suc i)
    → index_of t ws ≡ some i
unfolding index_of
index_of-tail t i w ws e = ground arith

occurrences-overwritten :
    (s t m i : ℕ) (ws : List Wrapper)
    → index_of t (take (suc m) ws) ≡ some i
    → m < length ws
    → occurrences s (take m (overwritten ws m i)) + (if t == s then 1 else 0)
      ≡ occurrences s (take (suc m) ws)
unfolding index_of
occurrences-overwritten s t m i [] e h = absurd (omega arith)
occurrences-overwritten s t zero i (w ∷ ws) e h = ground arith
occurrences-overwritten s t (suc m) zero (w ∷ ws) e h =
    let (last, found) = get_elem?-some m ws (omega arith) in
    ground (arith, occurrences-take-suc s m last ws found)
occurrences-overwritten s t (suc m) (suc i) (w ∷ ws) e h =
    let (last, found) = get_elem?-some m ws (omega arith) in
    rw (overwritten-cons m i w last ws found)
      (ground (arith, occurrences-overwritten s t m i ws (index_of-tail t i w (take (suc m) ws) e)))

length-overwritten :
    (ws : List Wrapper) (last index : ℕ) → length (overwritten ws last index) ≡ length ws
length-overwritten ws last index = elim (Option-cases (get_elem? ws last)) [
  | inl e ↦ rw e (ground arith)
  | inr (w, e) ↦ rw e (ground (arith, length-set ws index w))
]

count-pos : (t index n : ℕ) (ws : List Wrapper) → index_of t (take n ws) ≡ some index → 0 < n
unfolding index_of
count-pos t index zero ws e = cc
count-pos t index (suc n) ws e = omega arith

module _ (qsort : Qsort) (r : Rearranges qsort) where
  -- The queue before its entries are sorted again.
  abbrev extended : DeferQueue → RastaRedundancyPacket → ℕ → DeferQueue
  extended q p ts = record q {
    elements = set q.elements q.count (record { packet = p; received_timestamp = ts });
    count = q.count + 1;
  }

  extended-IsDeferQueue :
      (q : DeferQueue) (p : RastaRedundancyPacket) (ts : ℕ)
      → IsDeferQueue q
      → q.count ≢ q.max_count
      → IsDeferQueue (extended q p ts)
  extended-IsDeferQueue q p ts v room =
      omega (arith, length-set q.elements q.count (record { packet = p; received_timestamp = ts }))

  queued-extended :
      (q : DeferQueue) (p : RastaRedundancyPacket) (ts s : ℕ)
      → IsDeferQueue q
      → q.count ≢ q.max_count
      → queued (extended q p ts) s ≡ queued q s + (if p.sequence_number == s then 1 else 0)
  queued-extended q p ts s v room =
      let w : Wrapper = record { packet = p; received_timestamp = ts } in
      rw add-one (occurrences-set_end s q.count w q.elements (omega arith))

  -- An accepted packet is queued once more, and every other sequence number as often as before; a
  -- full queue refuses the packet and stays as it is.
  pub queued-add :
      (q : DeferQueue) (p : RastaRedundancyPacket) (ts s : ℕ)
      → IsDeferQueue q
      → ((deferqueue_add qsort q p ts).0 ≡ not (deferqueue_isfull q))
        × (queued (deferqueue_add qsort q p ts).1 s
            ≡ queued q s + (if not (deferqueue_isfull q) && (p.sequence_number == s) then 1 else 0))
        × IsDeferQueue (deferqueue_add qsort q p ts).1
  unfolding deferqueue_add deferqueue_isfull
  queued-add q p ts s v = elim (ℕ_discrete q.count q.max_count) [
    | yes full ↦ ground arith
    | no room ↦ ground (
      arith,
      sort-IsDeferQueue qsort r (extended q p ts) (extended-IsDeferQueue q p ts v room),
      occurrences-sort qsort r (extended q p ts) s (extended-IsDeferQueue q p ts v room),
      queued-extended q p ts s v room,
    )
  ]

  abbrev shortened : DeferQueue → ℕ → DeferQueue
  shortened q index = record q {
    elements = overwritten q.elements (q.count - 1) index;
    count = q.count - 1;
  }

  shortened-IsDeferQueue :
      (q : DeferQueue) (index : ℕ) → IsDeferQueue q → IsDeferQueue (shortened q index)
  shortened-IsDeferQueue q index v =
      omega (arith, length-overwritten q.elements (q.count - 1) index)

  queued-shortened :
      (q : DeferQueue) (t s index : ℕ)
      → IsDeferQueue q
      → index_of t (live q) ≡ some index
      → (0 < q.count) × (queued (shortened q index) s + (if t == s then 1 else 0) ≡ queued q s)
  queued-shortened q t s index v e =
      let some_left : 0 < q.count = count-pos t index q.count q.elements e in
      let count_eq : q.count ≡ suc (q.count - 1) = omega arith in
      (
        some_left,
        occurrences-overwritten s t (q.count - 1) index q.elements (rw count_eq at e) (omega arith)
            ∙ ap (λ n. occurrences s (take n q.elements)) (sym count_eq),
      )

  deferqueue_remove-some :
      (q : DeferQueue) (t index : ℕ)
      → index_of t (live q) ≡ some index
      → deferqueue_remove qsort q t ≡ sort qsort (shortened q index)
  unfolding deferqueue_remove find_index remove_at
  deferqueue_remove-some q t index e = rw (e, deferqueue_remove)

  count-sort : (q : DeferQueue) → (sort qsort q).count ≡ q.count
  unfolding sort
  count-sort q = refl

  -- Removing a queued sequence number takes away one of its entries and no other; removing one
  -- that is not queued changes nothing.
  pub queued-remove :
      (q : DeferQueue) (t s : ℕ)
      → IsDeferQueue q
      → (queued (deferqueue_remove qsort q t) s ≡ queued q s - (if t == s then 1 else 0))
        × ((deferqueue_remove qsort q t).count ≡ q.count - min 1 (queued q t))
        × IsDeferQueue (deferqueue_remove qsort q t)
  unfolding deferqueue_remove find_index remove_at
  queued-remove q t s v = elim (Option-cases (index_of t (live q))) [
    | inl e ↦ ground (arith, e, index_of-none t (live q) e)
    | inr (index, e) ↦
        let (some_left, counted) = queued-shortened q t s index v e in
        let found = index_of-some t index (live q) e in
        let valid = shortened-IsDeferQueue q index v in
        rw (deferqueue_remove-some q t index e) (
          rw (occurrences-sort qsort r (shortened q index) s valid) (omega arith),
          rw (count-sort (shortened q index)) (omega arith),
          sort-IsDeferQueue qsort r (shortened q index) valid,
        )
  ]
