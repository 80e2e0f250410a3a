-- ===== src/Events/Next.antt =====
-- `calc_next_timed_event` of src/c/util/event_system.c finds the event that is due first.
use librasta.Base.{
  ℕ, zero, suc, ◌+◌, ◌-◌, ◌≤◌, ◌≡◌, ◌⊎◌, inl, inr, Bool-cases, refl, sym, ap, ◌∙◌, Bool, true,
  false, ◌&&◌, Option, none, some, List, [], ◌∷◌, if◌then◌else◌, arith, length, ltb, leb,
}
use Prim.Native.Nat.{min, max}
use mathlib.Core.Path.{subst}
use librasta.Events.{
  Node, Events, Timer, Watch, continue_at, uint64_max, calc_from, calc_next_timed_event,
  max_fd_from, get_max_nfds,
}
use librasta.Events.Order.{front}
use librasta.Events.Links.{AreLinked, Represents}

-- The time until an event is due, 0 if it is.
abbrev pub remaining : ℕ → Timer → ℕ
remaining cur_time t = continue_at t - cur_time

-- The least such time of the enabled events.
unfoldable pub soonest : (ℕ → Node Timer) → ℕ → List ℕ → ℕ
soonest m cur_time [] = uint64_max
soonest m cur_time (x ∷ xs) =
    if (m x).event.enabled
    then min (remaining cur_time (m x).event) (soonest m cur_time xs)
    else soonest m cur_time xs

abbrev pub Member : ℕ → List ℕ → Type 0
Member e [] = ⊥
Member e (x ∷ xs) = (x ≡ e) ⊎ Member e xs

-- An enabled event of the list that is due after the time `t`.
pub record IsDue (m : ℕ → Node Timer) (cur_time : ℕ) (xs : List ℕ) (x t : ℕ) : Type 0 where
  pub member : Member x xs
  pub enabled : (m x).event.enabled ≡ true
  pub after : remaining cur_time (m x).event ≡ t

module _ (s : Events Timer) (cur_time : ℕ) where
  abbrev wait_of : ℕ → ℕ
  wait_of x = remaining cur_time (s.node x).event

  abbrev least : List ℕ → ℕ
  least xs = soonest s.node cur_time xs

  -- What the loop returns on the events `xs`, with the nearest event so far and its time.
  abbrev Finds : List ℕ → Option ℕ → ℕ → Option (Option ℕ × ℕ) → Type 0
  Finds xs next wait r =
      (o : Option ℕ) × (r ≡ some (o, min wait (least xs)))
      × (((o ≡ next) × (min wait (least xs) ≡ wait))
          ⊎ ((x : ℕ) × (o ≡ some x) × IsDue s.node cur_time xs x (min wait (least xs))))

  module _ (x : ℕ) (xs : List ℕ) where
    least_on : (s.node x).event.enabled ≡ true → least (x ∷ xs) ≡ min (wait_of x) (least xs)
    unfolding soonest
    least_on h = rw h refl

    least_off : (s.node x).event.enabled ≡ false → least (x ∷ xs) ≡ least xs
    unfolding soonest
    least_off h = rw h refl

    -- An event that is not nearer changes nothing.
    passes :
        (next : Option ℕ) (wait : ℕ) (r : Option (Option ℕ × ℕ))
        → min wait (least (x ∷ xs)) ≡ min wait (least xs)
        → Finds xs next wait r
        → Finds (x ∷ xs) next wait r
    passes next wait r e (o, result, inl kept) =
        (o, result ∙ ap (λ t. some (o, t)) (sym e), inl (kept.0, e ∙ kept.1))
    passes next wait r e (o, result, inr (y, found, due)) = (
      o,
      result ∙ ap (λ t. some (o, t)) (sym e),
      inr (
        y,
        found,
        record { member = inr due.member; enabled = due.enabled; after = due.after ∙ sym e },
      ),
    )

    -- A nearer event takes the place of the one before.
    replaces :
        (next : Option ℕ) (wait : ℕ) (r : Option (Option ℕ × ℕ))
        → (s.node x).event.enabled ≡ true
        → min wait (least (x ∷ xs)) ≡ min (wait_of x) (least xs)
        → Finds xs (some x) (wait_of x) r
        → Finds (x ∷ xs) next wait r
    replaces next wait r on e (o, result, inl kept) = (
      o,
      result ∙ ap (λ t. some (o, t)) (sym e),
      inr (x, kept.0, record { member = inl refl; enabled = on; after = sym (e ∙ kept.1) }),
    )
    replaces next wait r on e (o, result, inr (y, found, due)) = (
      o,
      result ∙ ap (λ t. some (o, t)) (sym e),
      inr (
        y,
        found,
        record { member = inr due.member; enabled = due.enabled; after = due.after ∙ sym e },
      ),
    )

    due_now :
        (next : Option ℕ) (wait : ℕ)
        → (s.node x).event.enabled ≡ true
        → wait_of x ≡ 0
        → Finds (x ∷ xs) next wait (some (some x, 0))
    due_now next wait on z =
        let e : min wait (least (x ∷ xs)) ≡ 0 = omega (arith, least_on on) in
        (
          some x,
          ap (λ t. some (some x, t)) (sym e),
          inr (x, refl, record { member = inl refl; enabled = on; after = z ∙ sym e }),
        )

  abbrev round : ℕ → ℕ → Option ℕ → ℕ → Bool → Bool → Bool → Option (Option ℕ × ℕ)
  round fuel x next wait on due near =
      let nearer = on && near in
      let rest =
        calc_from fuel s (s.node x).next cur_time (if nearer then some x else next)
          (if nearer then wait_of x else wait) in
      if on && due then some (some x, 0) else rest

  -- The loop keeps the nearest event so far with its time.
  calc_from_lem :
      (fuel : ℕ) (p : Option ℕ) (xs : List ℕ) (next : Option ℕ) (wait : ℕ)
      → AreLinked s.node p xs none
      → length xs ≤ fuel
      → wait ≤ uint64_max
      → Finds xs next wait (calc_from fuel s (front xs none) cur_time next wait)
  unfolding calc_from soonest
  calc_from_lem fuel p [] next wait l f w =
      (next, ap (λ t. some (next, t)) (omega arith), inl (refl, omega arith))
  calc_from_lem zero p (x ∷ xs) next wait l f w = absurd (omega arith)
  calc_from_lem (suc fuel) p (x ∷ xs) next wait l f w =
      let t = (s.node x).event in
      let due = leb (continue_at t) cur_time in
      let near = ltb (wait_of x) wait in
      let go = λ (next' : Option ℕ) (wait' : ℕ) (h : wait' ≤ uint64_max).
        subst (λ q. Finds xs next' wait' (calc_from fuel s q cur_time next' wait')) (sym l.1)
          (calc_from_lem fuel (some x) xs next' wait' l.2 (omega arith) h) in
      elim (Bool-cases t.enabled) [
        | inr off ↦
            subst (λ b. Finds (x ∷ xs) next wait (round fuel x next wait b due near)) (sym off)
              (passes x xs next wait _ (ap (min wait) (least_off x xs off)) (go next wait w))
        | inl on ↦
            subst (λ b. Finds (x ∷ xs) next wait (round fuel x next wait b due near)) (sym on)
              (elim (Bool-cases due) [
                | inl now ↦
                    subst (λ b. Finds (x ∷ xs) next wait (round fuel x next wait true b near))
                      (sym now) (due_now x xs next wait on (ground arith))
                | inr ahead ↦
                    subst (λ b. Finds (x ∷ xs) next wait (round fuel x next wait true b near))
                      (sym ahead)
                      (elim (Bool-cases near) [
                        | inl yes_near ↦
                            subst
                              (λ b. Finds (x ∷ xs) next wait (round fuel x next wait true false b))
                              (sym yes_near)
                              (replaces x xs next wait _ on (ground (arith, least_on x xs on))
                                (go (some x) (wait_of x) (ground arith)))
                        | inr far ↦
                            subst
                              (λ b. Finds (x ∷ xs) next wait (round fuel x next wait true false b))
                              (sym far)
                              (passes x xs next wait _ (ground (arith, least_on x xs on))
                                (go next wait w))
                      ])
              ])
      ]

soonest-le : (m : ℕ → Node Timer) (cur_time : ℕ) (xs : List ℕ) → soonest m cur_time xs ≤ uint64_max
unfolding soonest
soonest-le m cur_time [] = omega arith
soonest-le m cur_time (x ∷ xs) = ground (arith, soonest-le m cur_time xs)

-- With fuel for the events of the list the loop ends, and its result is the least time until an
-- enabled event is due, with the address of such an event; where no enabled event has a time below
-- `UINT64_MAX`, that is the result and the caller's pointer is left as it was.
pub calc_next_timed_event-eq-soonest :
    (fuel : ℕ) (s : Events Timer) (xs : List ℕ) (next : Option ℕ) (cur_time : ℕ)
    → Represents s xs
    → length xs ≤ fuel
    → (o : Option ℕ) × (calc_next_timed_event fuel s next cur_time
        ≡ some (o, soonest s.node cur_time xs))
      × (((o ≡ next) × (soonest s.node cur_time xs ≡ uint64_max))
          ⊎ ((x : ℕ) × (o ≡ some x) × IsDue s.node cur_time xs x (soonest s.node cur_time xs)))
unfolding calc_next_timed_event
calc_next_timed_event-eq-soonest fuel s xs next cur_time r f =
    let least : min uint64_max (soonest s.node cur_time xs) ≡ soonest s.node cur_time xs =
      omega (arith, soonest-le s.node cur_time xs) in
    subst
      (λ t.
        (o : Option ℕ) × (calc_from fuel s s.first cur_time next uint64_max ≡ some (o, t))
        × (((o ≡ next) × (t ≡ uint64_max))
            ⊎ ((x : ℕ) × (o ≡ some x) × IsDue s.node cur_time xs x t)))
      least
      (subst
        (λ p. Finds s cur_time xs next uint64_max (calc_from fuel s p cur_time next uint64_max))
        (sym r.first_lem)
        (calc_from_lem s cur_time fuel none xs next uint64_max r.linked f (omega arith)))

-- The greatest descriptor of a list of events.
unfoldable pub max_fd : (ℕ → Node Watch) → List ℕ → ℕ
max_fd m [] = 0
max_fd m (x ∷ xs) = max (m x).event.fd (max_fd m xs)

max_fd_from_lem :
    (fuel : ℕ) (s : Events Watch) (p : Option ℕ) (xs : List ℕ) (nfds : ℕ)
    → AreLinked s.node p xs none
    → length xs ≤ fuel
    → max_fd_from fuel s (front xs none) nfds ≡ some (max nfds (max_fd s.node xs) + 1)
unfolding max_fd_from max_fd
max_fd_from_lem fuel s p [] nfds l f = ap (λ t. some (t + 1)) (omega arith)
max_fd_from_lem zero s p (x ∷ xs) nfds l f = absurd (omega arith)
max_fd_from_lem (suc fuel) s p (x ∷ xs) nfds l f =
    let fd = (s.node x).event.fd in
    ap (λ q. max_fd_from fuel s q (if ltb nfds fd then fd else nfds)) l.1
    ∙ max_fd_from_lem fuel s (some x) xs (if ltb nfds fd then fd else nfds) l.2 (omega arith)
    ∙ ap (λ t. some (t + 1)) (ground arith)

-- The first argument of `select` is one more than the greatest descriptor of all events, the
-- disabled ones too.
pub get_max_nfds-eq-max_fd :
    (fuel : ℕ) (s : Events Watch) (xs : List ℕ)
    → Represents s xs
    → length xs ≤ fuel
    → get_max_nfds fuel s ≡ some (max_fd s.node xs + 1)
unfolding get_max_nfds
get_max_nfds-eq-max_fd fuel s xs r f =
    ap (λ p. max_fd_from fuel s p 0) r.first_lem
    ∙ max_fd_from_lem fuel s none xs 0 r.linked f
    ∙ ap (λ t. some (t + 1)) (omega arith)
