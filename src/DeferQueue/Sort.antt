-- ===== src/DeferQueue/Sort.antt =====
-- What the defer queue (src/c/util/rastadeferqueue.c) relies on of the standard library's `qsort`:
-- it rearranges the array.
use mathlib.Core.List.{Perm, Permᴰ}
use mathlib.Core.Logic.{∥∥₁_elim}
use native.Mathlib.Nat.{ℕ_set}
use Prim.Native.Nat.{Ordering}
use librasta.Base.{
  ℕ, ◌+◌, ◌≡◌, refl, if◌then◌else◌, List, [], ◌∷◌, ◌++◌, arith, length, drop, length-append,
  length-take, length-drop, take-append,
}
use librasta.DeferQueue.{Wrapper, DeferQueue, IsDeferQueue, Qsort, live, cmpfkt, sort, has_seqnr}

-- The array holds the same entries as before, as often.
pub record Rearranges (qsort : Qsort) : Type 0 where
  pub rearranges : (cmp : Wrapper → Wrapper → Ordering) (ws : List Wrapper) → Perm (qsort cmp ws) ws

-- How many entries carry the sequence number.
abbrev pub occurrences : ℕ → List Wrapper → ℕ
occurrences s [] = 0
occurrences s (w ∷ ws) = (if has_seqnr s w then 1 else 0) + occurrences s ws

pub occurrences-append :
    (s : ℕ) (xs ys : List Wrapper) → occurrences s (xs ++ ys) ≡ occurrences s xs + occurrences s ys
occurrences-append s [] ys = omega arith
occurrences-append s (x ∷ xs) ys = omega (arith, occurrences-append s xs ys)

occurrences-permᴰ :
    (s : ℕ) {xs ys : List Wrapper} → Permᴰ xs ys → occurrences s xs ≡ occurrences s ys
occurrences-permᴰ s Permᴰ.nil = refl
occurrences-permᴰ s (Permᴰ.cons e d) = rw (e, occurrences-permᴰ s d)
occurrences-permᴰ s (Permᴰ.swap e f) = rw (e, f) (omega arith)
occurrences-permᴰ s (Permᴰ.trans d e) = omega (arith, occurrences-permᴰ s d, occurrences-permᴰ s e)

pub occurrences-perm :
    (s : ℕ) (xs ys : List Wrapper) → Perm xs ys → occurrences s xs ≡ occurrences s ys
occurrences-perm s xs ys p = ∥∥₁_elim p (ℕ_set _ _) (occurrences-permᴰ s)

length-permᴰ : {xs ys : List Wrapper} → Permᴰ xs ys → length xs ≡ length ys
length-permᴰ Permᴰ.nil = refl
length-permᴰ (Permᴰ.cons e d) = omega (arith, length-permᴰ d)
length-permᴰ (Permᴰ.swap e f) = refl
length-permᴰ (Permᴰ.trans d e) = omega (arith, length-permᴰ d, length-permᴰ e)

pub length-perm : (xs ys : List Wrapper) → Perm xs ys → length xs ≡ length ys
length-perm xs ys p = ∥∥₁_elim p (ℕ_set _ _) length-permᴰ

module _ (qsort : Qsort) (r : Rearranges qsort) where
  length-live : (q : DeferQueue) → IsDeferQueue q → length (live q) ≡ q.count
  length-live q v = length-take q.count q.elements (omega arith)

  length-sorted : (q : DeferQueue) → IsDeferQueue q → length (qsort cmpfkt (live q)) ≡ q.count
  length-sorted q v = omega (
    arith,
    length-perm (qsort cmpfkt (live q)) (live q) (r.rearranges cmpfkt (live q)),
    length-live q v,
  )

  pub sort-IsDeferQueue : (q : DeferQueue) → IsDeferQueue q → IsDeferQueue (sort qsort q)
  unfolding sort
  sort-IsDeferQueue q v = omega (
    arith,
    length-append (qsort cmpfkt (live q)) (drop q.count q.elements),
    length-sorted q v,
    length-drop q.count q.elements,
  )

  pub live-sort : (q : DeferQueue) → IsDeferQueue q → live (sort qsort q) ≡ qsort cmpfkt (live q)
  unfolding sort
  live-sort q v =
      take-append (qsort cmpfkt (live q)) (drop q.count q.elements) q.count (length-sorted q v)

  -- Sorting keeps how often a sequence number is queued.
  pub occurrences-sort :
      (q : DeferQueue) (s : ℕ)
      → IsDeferQueue q
      → occurrences s (live (sort qsort q)) ≡ occurrences s (live q)
  occurrences-sort q s v =
      rw (live-sort q v)
        (occurrences-perm s (qsort cmpfkt (live q)) (live q) (r.rearranges cmpfkt (live q)))
