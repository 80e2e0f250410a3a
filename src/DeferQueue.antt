-- ===== src/DeferQueue.antt =====
-- The defer queue of src/c/util/rastadeferqueue.c: an array kept sorted by arrival time, searched by
-- sequence number.
pub mod Sort
pub mod Multiset
pub mod Search
use Prim.Native.Nat.{compare, Ordering}
use librasta.Base.{
  ℕ, zero, suc, ◌+◌, ◌-◌, ◌*◌, ◌≡◌, ◌≤◌, ltb, ◌==◌, not, if◌then◌else◌, Bool, true, false, Option,
  none, some, List, [], ◌∷◌, ◌++◌, length, get_elem?, set, take, drop, sub64, u32, ◌^◌,
}
use librasta.Packet.{RastaPacket, RastaRedundancyPacket}

-- `struct rasta_redundancy_packet_wrapper`
pub record Wrapper : Type 0 where
  pub packet : RastaRedundancyPacket
  pub received_timestamp : ℕ

-- `struct defer_queue`. `elements` is the whole array, entries past `count` included.
pub record DeferQueue : Type 0 where
  pub elements : List Wrapper
  pub count : ℕ
  pub max_count : ℕ

-- The entries in use.
abbrev pub live : DeferQueue → List Wrapper
live q = take q.count q.elements

abbrev pub has_seqnr : ℕ → Wrapper → Bool
has_seqnr s w = w.packet.sequence_number == s

abbrev pub next_index : Option ℕ → Option ℕ
next_index none = none
next_index (some i) = some (suc i)

-- The search loop over the entries in use.
unfoldable pub index_of : ℕ → List Wrapper → Option ℕ
index_of s [] = none
index_of s (w ∷ ws) = if has_seqnr s w then some 0 else next_index (index_of s ws)

-- `none` is the -1 of C.
unfoldable pub find_index : DeferQueue → ℕ → Option ℕ
unfolding index_of
find_index q s = index_of s (live q)

-- The order that the `int` result of the comparison stands for.
abbrev pub int_sign : ℕ → Ordering
int_sign d = if ltb d (2 ^ 31) then (if d == 0 then Ordering.eq else Ordering.gt) else Ordering.lt

-- `cmpfkt`: the 64-bit difference of the times, cut to 32 bits.
unfoldable pub cmpfkt : Wrapper → Wrapper → Ordering
cmpfkt a b = int_sign (u32 (sub64 a.received_timestamp b.received_timestamp))

-- The standard library's `qsort` at this element type.
abbrev pub Qsort : Type 0
Qsort = (Wrapper → Wrapper → Ordering) → List Wrapper → List Wrapper

-- `deferqueue_init`: `memory` is what the allocated array holds.
unfoldable pub deferqueue_init : List Wrapper → ℕ → DeferQueue
deferqueue_init memory n_max = record { elements = memory; count = 0; max_count = n_max }

unfoldable pub deferqueue_isfull : DeferQueue → Bool
deferqueue_isfull q = q.count == q.max_count

unfoldable pub deferqueue_contains : DeferQueue → ℕ → Bool
deferqueue_contains q s = elim (find_index q s) [ none ↦ false | some i ↦ true ]

abbrev pub entry_packet : RastaRedundancyPacket → Option Wrapper → RastaRedundancyPacket
entry_packet absent none = absent
entry_packet absent (some w) = w.packet

-- `deferqueue_get`; `absent` is the zeroed packet.
unfoldable pub deferqueue_get : RastaRedundancyPacket → DeferQueue → ℕ → RastaRedundancyPacket
deferqueue_get absent q s = elim (find_index q s) [
  | none ↦ absent
  | some i ↦ entry_packet absent (get_elem? q.elements i)
]

abbrev pub entry_ts : Option Wrapper → ℕ
entry_ts none = 0
entry_ts (some w) = w.received_timestamp

unfoldable pub deferqueue_get_ts : DeferQueue → ℕ → ℕ
deferqueue_get_ts q s = elim (find_index q s) [
  | none ↦ 0
  | some i ↦ entry_ts (get_elem? q.elements i)
]

unfoldable pub deferqueue_clear : DeferQueue → DeferQueue
deferqueue_clear q = record q { count = 0 }

unfoldable pub deferqueue_destroy : DeferQueue → DeferQueue
deferqueue_destroy q = record { elements = []; count = 0; max_count = 0 }

-- The loop of `deferqueue_smallest_seqnr` over the array from index `i` on, with the smallest
-- number so far and its index. It runs over the whole array, entries past `count` included.
unfoldable pub smallest_from : List Wrapper → ℕ → ℕ → ℕ → ℕ
smallest_from [] i smallest index = index
smallest_from (w ∷ ws) i smallest index =
    let s = w.packet.sequence_number in
    smallest_from ws (i + 1) (if ltb s smallest then s else smallest)
      (if ltb s smallest then i else index)

unfoldable pub deferqueue_smallest_seqnr : DeferQueue → ℕ
unfolding smallest_from
deferqueue_smallest_seqnr q = smallest_from (take q.max_count q.elements) 0 0xFFFFFFFF 0

abbrev pub overwrite : List Wrapper → ℕ → Option Wrapper → List Wrapper
overwrite elements index none = elements
overwrite elements index (some w) = set elements index w

-- The last entry takes the place of the removed one, unless it is the removed one.
abbrev pub overwritten : List Wrapper → ℕ → ℕ → List Wrapper
overwritten elements last index =
    if index == last then elements else overwrite elements index (get_elem? elements last)

module _ (qsort : Qsort) where
  -- `sort`: the entries in use are rearranged, the others keep their places.
  unfoldable pub sort : DeferQueue → DeferQueue
  sort q = record q { elements = qsort cmpfkt (live q) ++ drop q.count q.elements }

  unfoldable pub deferqueue_add : DeferQueue → RastaRedundancyPacket → ℕ → Bool × DeferQueue
  deferqueue_add q packet recv_ts = if q.count == q.max_count then (false, q) else (
    true,
    sort (record q {
      elements = set q.elements q.count (record { packet = packet; received_timestamp = recv_ts });
      count = q.count + 1;
    }),
  )

  unfoldable pub remove_at : DeferQueue → ℕ → DeferQueue
  remove_at q index =
      let last = q.count - 1 in
      sort (record q { elements = overwritten q.elements last index; count = last })

  unfoldable pub deferqueue_remove : DeferQueue → ℕ → DeferQueue
  deferqueue_remove q s = elim (find_index q s) [ none ↦ q | some index ↦ remove_at q index ]

-- The array has its full size, and the entries in use fit in it.
pub record IsDeferQueue (q : DeferQueue) : Type 0 where
  pub allocated : length q.elements ≡ q.max_count
  pub bounded : q.count ≤ q.max_count
