-- ===== src/Fifo/Laws.antt =====
-- The queue of src/c/util/fifo.c against a list of at most `max_size` elements.
use librasta.Base.{
  ℕ, zero, suc, ◌+◌, ◌-◌, ◌/◌, ◌≤◌, ◌≡◌, refl, Bool, ltb, lt→ltb, ◌==◌, if◌then◌else◌, Option, none,
  some, List, [], ◌∷◌, ◌++◌, arith, length, length-append, drop,
}
use librasta.Fifo.{Fifo, IsFifo, fifo_init, fifo_pop, fifo_push, destroy_from, fifo_destroy}

-- A client's calls, and what each returns.
pub data Op {ℓ} (A : Type ℓ) : Type ℓ where
  push : A → Op A
  pop : Op A

pub data Reply {ℓ} (A : Type ℓ) : Type ℓ where
  pushed : Bool → Reply A
  popped : Option A → Reply A

module _ {ℓ} {A : Type ℓ} where
  pub fifo_init-IsFifo : (n : ℕ) → IsFifo (fifo_init {A = A} n)
  unfolding fifo_init
  fifo_init-IsFifo n = ground arith

  pub fifo_push-IsFifo : (f : Fifo A) (x : A) → IsFifo f → IsFifo (fifo_push f x).1
  unfolding fifo_push
  fifo_push-IsFifo f x v = ground (arith, length-append f.elements (x ∷ []))

  pub fifo_pop-IsFifo : (f : Fifo A) → IsFifo f → IsFifo (fifo_pop f).1
  unfolding fifo_pop
  fifo_pop-IsFifo f v = ground arith

  -- An entry that is made the only one of an empty chain is appended to it.
  pub appended :
      (xs : List A) (x : A) (n : ℕ)
      → n ≡ length xs
      → (if n == 0 then x ∷ [] else xs ++ (x ∷ [])) ≡ xs ++ (x ∷ [])
  appended [] x n e = ground arith
  appended (y ∷ ys) x n e = ground arith

  pub fifo_pop-empty : (f : Fifo A) → IsFifo f → f.elements ≡ [] → fifo_pop f ≡ (none, f)
  unfolding fifo_pop
  fifo_pop-empty f v e = ground arith

  pub fifo_pop-cons :
      (f : Fifo A) (x : A) (rest : List A)
      → IsFifo f
      → f.elements ≡ x ∷ rest
      → fifo_pop f ≡ (some x, record f { elements = rest; size = f.size - 1 })
  unfolding fifo_pop
  fifo_pop-cons f x rest v e = ground arith

  unfoldable pub run : List (Op A) → Fifo A → List (Reply A)
  run [] f = []
  run (push x ∷ ops) f = pushed (fifo_push f x).0 ∷ run ops (fifo_push f x).1
  run (pop ∷ ops) f = popped (fifo_pop f).0 ∷ run ops (fifo_pop f).1

  -- The same calls on a plain list that refuses to grow beyond `n`.
  abbrev pub list_pop : List A → Option A
  list_pop [] = none
  list_pop (x ∷ rest) = some x

  abbrev pub list_rest : List A → List A
  list_rest [] = []
  list_rest (x ∷ rest) = rest

  unfoldable pub run_list : ℕ → List (Op A) → List A → List (Reply A)
  run_list n [] q = []
  run_list n (push x ∷ ops) q =
      pushed (ltb (length q) n) ∷ run_list n ops (if ltb (length q) n then q ++ (x ∷ []) else q)
  run_list n (pop ∷ ops) q = popped (list_pop q) ∷ run_list n ops (list_rest q)

  pub push_step :
      (f : Fifo A) (x : A)
      → IsFifo f
      → ((fifo_push f x).0 ≡ ltb (length f.elements) f.max_size)
        × ((fifo_push f x).1.elements
            ≡ (if ltb (length f.elements) f.max_size then f.elements ++ (x ∷ []) else f.elements))
        × ((fifo_push f x).1.max_size ≡ f.max_size)
  unfolding fifo_push
  push_step f x v = ground (arith, appended f.elements x f.size v.counted)

  pub pop_step :
      (f : Fifo A)
      → IsFifo f
      → ((fifo_pop f).0 ≡ list_pop f.elements)
        × ((fifo_pop f).1.elements ≡ list_rest f.elements)
        × ((fifo_pop f).1.max_size ≡ f.max_size)
  unfolding fifo_pop
  pop_step f v = ground arith

  -- No sequence of pushes and pops tells the queue from the bounded list of its elements.
  pub run-refines :
      (ops : List (Op A)) (f : Fifo A) → IsFifo f → run ops f ≡ run_list f.max_size ops f.elements
  unfolding run run_list
  run-refines [] f v = refl
  run-refines (push x ∷ ops) f v =
      let s = push_step f x v in
      rw (run-refines ops (fifo_push f x).1 (fifo_push-IsFifo f x v), s.0, s.1, s.2)
  run-refines (pop ∷ ops) f v =
      let s = pop_step f v in
      rw (run-refines ops (fifo_pop f).1 (fifo_pop-IsFifo f v), s.0, s.1, s.2)

  drop-list_rest : (m : ℕ) (xs : List A) → drop m (list_rest xs) ≡ drop (suc m) xs
  drop-list_rest zero [] = refl
  drop-list_rest (suc m) [] = refl
  drop-list_rest m (x ∷ xs) = refl

  size-pop : (f : Fifo A) → IsFifo f → (fifo_pop f).1.size ≡ f.size - 1
  unfolding fifo_pop
  size-pop f v = ground arith

  destroy_from_lem :
      (fuel i m : ℕ) (f : Fifo A)
      → IsFifo f
      → f.size - i ≤ fuel
      → (f.size - i + 1) / 2 ≡ m
      → (destroy_from fuel i f).elements ≡ drop m f.elements
  unfolding destroy_from
  destroy_from_lem zero i zero f v enough e = refl
  destroy_from_lem zero i (suc m) f v enough e = absurd (omega arith)
  destroy_from_lem (suc fuel) i zero f v enough e = ground arith
  destroy_from_lem (suc fuel) i (suc m) f v enough e =
      let rest =
        destroy_from_lem fuel (i + 1) m (fifo_pop f).1 (fifo_pop-IsFifo f v)
          (omega (arith, size-pop f v)) (omega (arith, size-pop f v)) in
      rw (lt→ltb i f.size (omega arith), rest, (pop_step f v).1, drop-list_rest m f.elements)

  -- `fifo_destroy` releases the older half of the entries, rounded up; the younger half is still
  -- allocated when the queue is freed.
  pub fifo_destroy_leaks :
      (f : Fifo A) → IsFifo f → (fifo_destroy f).elements ≡ drop ((f.size + 1) / 2) f.elements
  unfolding fifo_destroy
  fifo_destroy_leaks f v =
      destroy_from_lem f.size 0 ((f.size + 1) / 2) f v (omega arith) (omega arith)
