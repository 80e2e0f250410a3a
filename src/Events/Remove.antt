-- ===== src/Events/Remove.antt =====
-- `remove_timed_event` and `remove_fd_event` of src/c/util/event_system.c.
use librasta.Base.{
  inl, inr, Bool-cases, ℕ, ◌≡◌, refl, sym, ap, ◌∙◌, ◌&&◌, Option, none, some, ◌==◌, List, [], ◌∷◌,
  ◌++◌, if◌then◌else◌, arith, ==_iff, ==_self,
}
use mathlib.Core.Path.{subst}
use librasta.Events.{
  Watch, remove_fd_event, points_to, write_next_if, write_prev_if, unlink_first, unlink_last,
  unlink_prev, Node, Events, update, write_prev, write_next, add_event, unlink, link_last, is_null,
}
use librasta.Events.Order.{
  Absent, AreDistinct, AreDistinct-split, AreDistinct-remove, Outside, Outside-back, Outside-front,
  Outside-head, Outside-next, back, back-append, back-snoc, front, is_empty, is_null-both,
  points_to-back, snoc-view,
}
use librasta.Events.Links.{
  AreLinked, AreLinked-append, AreLinked-split, AreLinked-frame, AreLinked-next, AreLinked-prev,
  Represents, update_other,
}

module _ {A : Type 0} where
  -- The memory after `if (p) p->next = v` and `if (p) p->prev = v`.
  abbrev next_if : Option ℕ → Option ℕ → (ℕ → Node A) → ℕ → Node A
  next_if none v m = m
  next_if (some p) v m = update m p (record (m p) { next = v })

  abbrev prev_if : Option ℕ → Option ℕ → (ℕ → Node A) → ℕ → Node A
  prev_if none v m = m
  prev_if (some p) v m = update m p (record (m p) { prev = v })

  next_if_frame :
      (m : ℕ → Node A) (o v p : Option ℕ) (xs : List ℕ) (q : Option ℕ)
      → Outside o xs
      → AreLinked m p xs q
      → AreLinked (next_if o v m) p xs q
  next_if_frame m none v p xs q a h = h
  next_if_frame m (some y) v p xs q a h = AreLinked-frame m y (record (m y) { next = v }) p xs q a h

  prev_if_frame :
      (m : ℕ → Node A) (o v p : Option ℕ) (xs : List ℕ) (q : Option ℕ)
      → Outside o xs
      → AreLinked m p xs q
      → AreLinked (prev_if o v m) p xs q
  prev_if_frame m none v p xs q a h = h
  prev_if_frame m (some y) v p xs q a h = AreLinked-frame m y (record (m y) { prev = v }) p xs q a h

  next_if_other :
      (m : ℕ → Node A) (o v : Option ℕ) (e : ℕ) → Outside o (e ∷ []) → next_if o v m e ≡ m e
  next_if_other m none v e a = refl
  next_if_other m (some y) v e a = update_other m y e (record (m y) { next = v }) a.0

  prev_if_other :
      (m : ℕ → Node A) (o v : Option ℕ) (e : ℕ) → Outside o (e ∷ []) → prev_if o v m e ≡ m e
  prev_if_other m none v e a = refl
  prev_if_other m (some y) v e a = update_other m y e (record (m y) { prev = v }) a.0

  -- The part before the event is joined to `v`, and the part after it to `v`.
  next_if-back :
      (m : ℕ → Node A) (v : Option ℕ) (xs : List ℕ) (q : Option ℕ)
      → AreDistinct xs
      → AreLinked m none xs q
      → AreLinked (next_if (back none xs) v m) none xs v
  next_if-back m v xs q d h = elim (snoc-view xs) [
    | inl empty ↦ subst (λ t. AreLinked (next_if (back none t) v m) none t v) (sym empty) tt
    | inr (init, y, more) ↦
        subst (λ t. AreLinked (next_if (back none t) v m) none t v) (sym more)
          (subst (λ o. AreLinked (next_if o v m) none (init ++ y ∷ []) v)
            (sym (back-snoc none init y))
            (AreLinked-next m y v none init q
              (AreDistinct-remove init [] y (subst AreDistinct more d)).1
              (subst (λ t. AreLinked m none t q) more h)))
  ]

  prev_if-front :
      (m : ℕ → Node A) (v p : Option ℕ) (ys : List ℕ)
      → AreDistinct ys
      → AreLinked m p ys none
      → AreLinked (prev_if (front ys none) v m) v ys none
  prev_if-front m v p [] d h = tt
  prev_if-front m v p (y ∷ ys) d h = AreLinked-prev m y v p ys none d.0 h

  write_next_if-node :
      (o v : Option ℕ) (s : Events A) → (write_next_if o v s).node ≡ next_if o v s.node
  unfolding write_next
  write_next_if-node none v s = refl
  write_next_if-node (some p) v s = refl

  write_prev_if-node :
      (o v : Option ℕ) (s : Events A) → (write_prev_if o v s).node ≡ prev_if o v s.node
  unfolding write_prev
  write_prev_if-node none v s = refl
  write_prev_if-node (some p) v s = refl

  write_next_if-ends :
      (o v : Option ℕ) (s : Events A)
      → ((write_next_if o v s).first ≡ s.first) × ((write_next_if o v s).last ≡ s.last)
  unfolding write_next
  write_next_if-ends none v s = (refl, refl)
  write_next_if-ends (some p) v s = (refl, refl)

  write_prev_if-ends :
      (o v : Option ℕ) (s : Events A)
      → ((write_prev_if o v s).first ≡ s.first) × ((write_prev_if o v s).last ≡ s.last)
  unfolding write_prev
  write_prev_if-ends none v s = (refl, refl)
  write_prev_if-ends (some p) v s = (refl, refl)

  -- The event `e` between `xs` and `ys`.
  module _ (s : Events A) (xs ys : List ℕ) (e : ℕ) (r : Represents s (xs ++ e ∷ ys)) where
    parts : AreLinked s.node none xs (some e) × AreLinked s.node (back none xs) (e ∷ ys) none
    parts = AreLinked-split s.node none xs (e ∷ ys) none r.linked

    without : AreDistinct (xs ++ ys) × Absent e xs × Absent e ys
    without = AreDistinct-remove xs ys e r.distinct

    abbrev joined : ℕ → Node A
    joined = prev_if (front ys none) (back none xs) (next_if (back none xs) (front ys none) s.node)

    joined_lem : (unlink s e).node ≡ joined
    unfolding unlink
    joined_lem =
        let m = s.node in
        let u = unlink_last (unlink_first s e) e in
        let u1 = unlink_prev u e in
        let prev : (m e).prev ≡ back none xs = parts.1.0 in
        let next : (m e).next ≡ front ys none = parts.1.1 in
        let outside = Outside-back none xs (e ∷ ys) tt r.distinct in
        let m1 : u1.node ≡ next_if (back none xs) (front ys none) m =
          write_next_if-node (m e).prev (m e).next u
          ∙ ap (λ o. next_if o (m e).next m) prev
          ∙ ap (λ v. next_if (back none xs) v m) next in
        let same : u1.node e ≡ m e =
          ap (λ f. f e) m1
          ∙ next_if_other m (back none xs) (front ys none) e
              (Outside-head (back none xs) e ys outside).0 in
        write_prev_if-node (u1.node e).next (u1.node e).prev u1
        ∙ ap (λ t. prev_if t.next t.prev u1.node) same
        ∙ ap (λ o. prev_if o (m e).prev u1.node) next
        ∙ ap (λ v. prev_if (front ys none) v u1.node) prev
        ∙ ap (prev_if (front ys none) (back none xs)) m1

    joined_self : joined e ≡ s.node e
    joined_self =
        let outside = Outside-back none xs (e ∷ ys) tt r.distinct in
        prev_if_other (next_if (back none xs) (front ys none) s.node) (front ys none) (back none xs)
          e (Outside-next ys e without.2)
        ∙ next_if_other s.node (back none xs) (front ys none) e
            (Outside-head (back none xs) e ys outside).0

    unlink-linked : AreLinked (unlink s e).node none (xs ++ ys) none
    unlink-linked =
        let m1 = next_if (back none xs) (front ys none) s.node in
        let halves = AreDistinct-split xs ys without.0 in
        let outside = Outside-back none xs (e ∷ ys) tt r.distinct in
        subst (λ m. AreLinked m none (xs ++ ys) none) (sym joined_lem)
          (AreLinked-append joined none xs ys none
            (prev_if_frame m1 (front ys none) (back none xs) none xs (front ys none)
              (Outside-front xs ys e r.distinct)
              (next_if-back s.node (front ys none) xs (some e) halves.0 parts.0))
            (prev_if-front m1 (back none xs) (some e) ys halves.1 (
              next_if_frame s.node (back none xs) (front ys none) (some e) ys none
                (Outside-head (back none xs) e ys outside).1 parts.1.2)))

    unlink-ends :
        ((unlink s e).first ≡ (if points_to s.first e then (s.node e).next else s.first))
        × ((unlink s e).last ≡ (if points_to s.last e then (s.node e).prev else s.last))
    unfolding unlink
    unlink-ends =
        let u = unlink_last (unlink_first s e) e in
        let u1 = unlink_prev u e in
        let a = write_next_if-ends (u.node e).prev (u.node e).next u in
        let b = write_prev_if-ends (u1.node e).next (u1.node e).prev u1 in (b.0 ∙ a.0, b.1 ∙ a.1)

  first_lem :
      (s : Events A) (xs ys : List ℕ) (e : ℕ)
      → Represents s (xs ++ e ∷ ys)
      → (if points_to s.first e then (s.node e).next else s.first) ≡ front (xs ++ ys) none
  first_lem s [] ys e r = rw (r.first_lem, ==_self e) r.linked.1
  first_lem s (x ∷ xs) ys e r =
      ap (λ o. if points_to o e then (s.node e).next else o) r.first_lem
      ∙ ground (arith, (AreDistinct-remove (x ∷ xs) ys e r.distinct).1.0)

  last_lem :
      (s : Events A) (xs ys : List ℕ) (e : ℕ)
      → Represents s (xs ++ e ∷ ys)
      → (if points_to s.last e then (s.node e).prev else s.last) ≡ back none (xs ++ ys)
  last_lem s xs [] e r =
      ap (λ o. if points_to o e then (s.node e).prev else o) (r.last_lem ∙ back-snoc none xs e)
      ∙ rw (==_self e) (parts s xs [] e r).1.0
      ∙ sym (back-append none xs [])
  last_lem s xs (y ∷ ys) e r =
      let a = (without s xs (y ∷ ys) e r).2 in
      let end : s.last ≡ back (some y) ys = r.last_lem ∙ back-append none xs (e ∷ y ∷ ys) in
      ap (λ o. if points_to o e then (s.node e).prev else o) end
      ∙ rw (points_to-back y e ys a.0 a.1) (sym (back-append none xs (y ∷ ys)))

  -- An event that stands anywhere in the list is taken out of it, and the others keep their order.
  pub unlink-Represents :
      (s : Events A) (xs ys : List ℕ) (e : ℕ)
      → Represents s (xs ++ e ∷ ys)
      → Represents (unlink s e) (xs ++ ys)
  unlink-Represents s xs ys e r = record {
    first_lem = (unlink-ends s xs ys e r).0 ∙ first_lem s xs ys e r;
    last_lem = (unlink-ends s xs ys e r).1 ∙ last_lem s xs ys e r;
    linked = unlink-linked s xs ys e r;
    distinct = (without s xs ys e r).0;
  }

  -- No write to a link changes what an event holds.
  update-event :
      (m : ℕ → Node A) (e x : ℕ) (n : Node A)
      → n.event ≡ (m e).event
      → (update m e n x).event ≡ (m x).event
  update-event m e x n h = elim (Bool-cases (x == e)) [
    | inl same ↦ rw (same) (h ∙ ap (λ t. (m t).event) (sym ((==_iff x e).0 same)))
    | inr other ↦ rw other refl
  ]

  next_if-event : (m : ℕ → Node A) (o v : Option ℕ) (x : ℕ) → (next_if o v m x).event ≡ (m x).event
  next_if-event m none v x = refl
  next_if-event m (some p) v x = update-event m p x (record (m p) { next = v }) refl

  prev_if-event : (m : ℕ → Node A) (o v : Option ℕ) (x : ℕ) → (prev_if o v m x).event ≡ (m x).event
  prev_if-event m none v x = refl
  prev_if-event m (some p) v x = update-event m p x (record (m p) { prev = v }) refl

  -- Taking an event that stands anywhere in the list out of it leaves the other events in their
  -- order, and the data of no event change.
  pub remove_event_lem :
      (s : Events A) (xs ys : List ℕ) (e x : ℕ)
      → Represents s (xs ++ e ∷ ys)
      → Represents (unlink s e) (xs ++ ys) × (((unlink s e).node x).event ≡ (s.node x).event)
  remove_event_lem s xs ys e x r = (
    unlink-Represents s xs ys e r,
    ap (λ m. (m x).event) (joined_lem s xs ys e r)
        ∙ prev_if-event (next_if (back none xs) (front ys none) s.node) (front ys none)
            (back none xs) x
        ∙ next_if-event s.node (back none xs) (front ys none) x,
  )

  -- An event keeps its links when it is removed. To add it again passes the assertion only if it
  -- was the only event of the list.
  pub add-remove_event :
      (s : Events A) (xs ys : List ℕ) (e : ℕ)
      → Represents s (xs ++ e ∷ ys)
      → add_event (unlink s e) e
        ≡ (if is_empty (xs ++ ys) then some (link_last (unlink s e) e) else none)
  unfolding add_event
  add-remove_event s xs ys e r =
      ap (λ b. if b then some (link_last (unlink s e) e) else none)
        (ap (λ (m : ℕ → Node A). is_null (m e).prev && is_null (m e).next) (joined_lem s xs ys e r)
          ∙ ap (λ (n : Node A). is_null n.prev && is_null n.next) (joined_self s xs ys e r)
          ∙ ap (λ o. is_null o && is_null (s.node e).next) (parts s xs ys e r).1.0
          ∙ ap (λ o. is_null (back none xs) && is_null o) (parts s xs ys e r).1.1
          ∙ is_null-both xs ys)

-- The assertion of `remove_fd_event` fails exactly if the event is the only one of the list.
pub remove_fd_event_lem :
    (s : Events Watch) (xs ys : List ℕ) (e : ℕ)
    → Represents s (xs ++ e ∷ ys)
    → remove_fd_event s e ≡ (if is_empty (xs ++ ys) then none else some (unlink s e))
unfolding remove_fd_event
remove_fd_event_lem s xs ys e r =
    ap (λ b. if b then none else some (unlink s e))
      (ap (λ o. is_null o && is_null (s.node e).next) (parts s xs ys e r).1.0
        ∙ ap (λ o. is_null (back none xs) && is_null o) (parts s xs ys e r).1.1
        ∙ is_null-both xs ys)
