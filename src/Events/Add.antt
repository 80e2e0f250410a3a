-- ===== src/Events/Add.antt =====
-- `add_timed_event` and `add_fd_event` of src/c/util/event_system.c put an event at the end.
use librasta.Base.{
  inl, inr, ℕ, ◌≡◌, ◌≢◌, refl, sym, ap, ◌∙◌, Bool, ◌&&◌, none, some, List, [], ◌∷◌, ◌++◌,
  if◌then◌else◌,
}
use mathlib.Core.Path.{subst}
use librasta.Events.{
  Events, update, write_prev, write_next, add_event, link_last, link_after, is_null,
}
use librasta.Events.Order.{
  Absent, Absent-split, AreDistinct-snoc, AreDistinct-remove, back, back-snoc, front-append,
  snoc-view,
}
use librasta.Events.Links.{
  AreLinked, AreLinked-append, AreLinked-frame, AreLinked-next, Represents, update_other,
  update_self,
}

module _ {A : Type 0} where
  link_after_lem :
      (s : Events A) (init : List ℕ) (l e : ℕ)
      → Represents s (init ++ l ∷ [])
      → Absent e (init ++ l ∷ [])
      → Represents (link_after (some l) s e) ((init ++ l ∷ []) ++ e ∷ [])
  unfolding write_next write_prev
  link_after_lem s init l e r a =
      let xs = init ++ l ∷ [] in
      let m = s.node in
      let m1 = update m e (record (m e) { prev = some l }) in
      let m2 = update m1 e (record (m1 e) { next = none }) in
      let m3 = update m2 l (record (m2 l) { next = some e }) in
      let ne : e ≢ l = λ same. (Absent-split e init (l ∷ []) a).1.0 (sym same) in
      let at3 : m3 e ≡ record (m1 e) { next = none } =
        update_other m2 l e (record (m2 l) { next = some e }) ne
        ∙ update_self m1 e (record (m1 e) { next = none }) in
      let at1 : m1 e ≡ record (m e) { prev = some l } =
        update_self m e (record (m e) { prev = some l }) in
      let alone = (AreDistinct-remove init [] l r.distinct).1 in
      let before : AreLinked m3 none xs (some e) =
        AreLinked-next m2 l (some e) none init none alone (
          AreLinked-frame m1 e (record (m1 e) { next = none }) none xs none a
            (AreLinked-frame m e (record (m e) { prev = some l }) none xs none a r.linked)) in
      let after : AreLinked m3 (back none xs) (e ∷ []) none = (
        ap (λ t. t.prev) at3 ∙ ap (λ t. t.prev) at1 ∙ sym (back-snoc none init l),
        ap (λ t. t.next) at3,
        tt,
      ) in
      let linked : AreLinked m3 none (xs ++ e ∷ []) none =
        AreLinked-append m3 none xs (e ∷ []) none before after in
      record {
        first_lem =
            r.first_lem
            ∙ front-append init (l ∷ []) none
            ∙ sym (front-append xs (e ∷ []) none ∙ front-append init (l ∷ []) (some e));
        last_lem = sym (back-snoc none xs e);
        linked = linked;
        distinct = AreDistinct-snoc xs e r.distinct a;
      }

  link_alone : (s : Events A) (e : ℕ) → Represents (link_after none s e) (e ∷ [])
  unfolding write_next write_prev
  link_alone s e =
      let m1 = update s.node e (record (s.node e) { next = none }) in
      let at1 = update_self s.node e (record (s.node e) { next = none }) in
      let at2 = update_self m1 e (record (m1 e) { prev = none }) in
      record {
        first_lem = refl;
        last_lem = refl;
        linked = (ap (λ t. t.prev) at2, ap (λ t. t.next) at2 ∙ ap (λ t. t.next) at1, tt);
        distinct = (tt, tt);
      }

  link_last-Represents :
      (s : Events A) (xs : List ℕ) (e : ℕ)
      → Represents s xs
      → Absent e xs
      → Represents (link_last s e) (xs ++ e ∷ [])
  link_last-Represents s xs e r a = elim (snoc-view xs) [
    | inl empty ↦
        subst (λ t. Represents (link_after t s e) (xs ++ e ∷ []))
          (sym (r.last_lem ∙ ap (back none) empty))
          (subst (λ t. Represents (link_after none s e) (t ++ e ∷ [])) (sym empty) (link_alone s e))
    | inr (init, l, more) ↦
        subst (λ t. Represents (link_after t s e) (xs ++ e ∷ []))
          (sym (r.last_lem ∙ ap (back none) more ∙ back-snoc none init l))
          (subst (λ t. Represents (link_after (some l) s e) (t ++ e ∷ [])) (sym more)
            (link_after_lem s init l e (subst (Represents s) more r) (subst (Absent e) more a)))
  ]

  abbrev pub unlinked : Events A → ℕ → Bool
  unlinked s e = is_null (s.node e).prev && is_null (s.node e).next

  -- An event that is in no list is put at the end of the list if its own links are null; else the
  -- assertion fails.
  pub add_event_lem :
      (s : Events A) (xs : List ℕ) (e : ℕ)
      → Represents s xs
      → Absent e xs
      → (add_event s e ≡ (if unlinked s e then some (link_last s e) else none))
        × Represents (link_last s e) (xs ++ e ∷ [])
  unfolding add_event
  add_event_lem s xs e r a = (refl, link_last-Represents s xs e r a)
