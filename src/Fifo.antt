-- ===== src/Fifo.antt =====
-- The bounded queue of src/c/util/fifo.c.
pub mod Laws
use librasta.Base.{
  ℕ, zero, suc, ◌+◌, ◌-◌, ◌≡◌, ◌≤◌, ltb, ◌==◌, if◌then◌else◌, Bool, true, false, Option, none, some,
  List, [], ◌∷◌, ◌++◌, length,
}

-- `fifo_t`: `elements` are the `data` pointers of the chain from `head` to `tail`, which the C code
-- walks by `next`; `head` and `tail` are NULL where it is empty.
pub record Fifo {ℓ} (A : Type ℓ) : Type ℓ where
  pub elements : List A
  pub size : ℕ
  pub max_size : ℕ

module _ {ℓ} {A : Type ℓ} where
  unfoldable pub fifo_init : ℕ → Fifo A
  fifo_init max_size = record { elements = []; size = 0; max_size = max_size }

  -- `size > 0` and `head` and `tail` set: take the head off the chain.
  abbrev pub pop_elements : Bool → List A → Fifo A → Option A × Fifo A
  pop_elements true (x ∷ rest) f = (some x, record f { elements = rest; size = f.size - 1 })
  pop_elements true [] f = (none, f)
  pop_elements false elements f = (none, f)

  unfoldable pub fifo_pop : Fifo A → Option A × Fifo A
  fifo_pop f = pop_elements (ltb 0 f.size) f.elements f

  -- With `size == 0` the chain is made anew from the entry.
  unfoldable pub fifo_push : Fifo A → A → Bool × Fifo A
  fifo_push f x = if f.size == f.max_size then (false, f) else (
    true,
    record f {
      elements = if f.size == 0 then x ∷ [] else f.elements ++ (x ∷ []);
      size = f.size + 1;
    },
  )

  unfoldable pub fifo_get_size : Fifo A → ℕ
  fifo_get_size f = f.size

  unfoldable pub fifo_full : Fifo A → Bool
  fifo_full f = f.size == f.max_size

  -- The loop of `fifo_destroy`: it runs while `i < size`, and each pop lowers `size`. The fuel
  -- bounds the rounds; `size` is enough.
  unfoldable pub destroy_from : ℕ → ℕ → Fifo A → Fifo A
  destroy_from zero i f = f
  destroy_from (suc fuel) i f =
      let rest = destroy_from fuel (i + 1) (fifo_pop f).1 in if ltb i f.size then rest else f

  -- The entries still allocated when `fifo_destroy` frees the queue itself.
  unfoldable pub fifo_destroy : Fifo A → Fifo A
  unfolding destroy_from
  fifo_destroy f = destroy_from f.size 0 f

  -- `size` counts the chain and keeps within `max_size`.
  pub record IsFifo (f : Fifo A) : Type 0 where
    pub counted : f.size ≡ length f.elements
    pub bounded : f.size ≤ f.max_size
