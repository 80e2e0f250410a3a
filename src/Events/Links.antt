-- ===== src/Events/Links.antt =====
-- The links of the events of src/c/util/event_system.c, as a list of addresses.
use librasta.Base.{ℕ, ◌≡◌, ◌≢◌, ap, ◌∙◌, Option, none, some, List, [], ◌∷◌, ◌++◌, arith, ==_self}
use librasta.Events.{Node, Events, update}
use librasta.Events.Order.{Absent, AreDistinct, back, front}

module _ {A : Type 0} where
  -- The links of the events `xs` between `p` and `q`.
  abbrev pub AreLinked : (ℕ → Node A) → Option ℕ → List ℕ → Option ℕ → Type 0
  AreLinked m p [] q = Unit {0}
  AreLinked m p (x ∷ xs) q =
      ((m x).prev ≡ p) × ((m x).next ≡ front xs q) × AreLinked m (some x) xs q

  -- An event list with the events `xs` in this order.
  pub record Represents (s : Events A) (xs : List ℕ) : Type 0 where
    pub first_lem : s.first ≡ front xs none
    pub last_lem : s.last ≡ back none xs
    pub linked : AreLinked s.node none xs none
    pub distinct : AreDistinct xs

  module _ (m : ℕ → Node A) where
    pub AreLinked-append :
        (p : Option ℕ) (xs ys : List ℕ) (q : Option ℕ)
        → AreLinked m p xs (front ys q)
        → AreLinked m (back p xs) ys q
        → AreLinked m p (xs ++ ys) q
    AreLinked-append p [] ys q h k = k
    AreLinked-append p (x ∷ []) [] q h k = h
    AreLinked-append p (x ∷ []) (y ∷ ys) q h k = (h.0, h.1, k)
    AreLinked-append p (x ∷ x' ∷ xs) ys q h k =
        (h.0, h.1, AreLinked-append (some x) (x' ∷ xs) ys q h.2 k)

    pub AreLinked-split :
        (p : Option ℕ) (xs ys : List ℕ) (q : Option ℕ)
        → AreLinked m p (xs ++ ys) q
        → AreLinked m p xs (front ys q) × AreLinked m (back p xs) ys q
    AreLinked-split p [] ys q h = (tt, h)
    AreLinked-split p (x ∷ []) [] q h = (h, tt)
    AreLinked-split p (x ∷ []) (y ∷ ys) q h = ((h.0, h.1, tt), h.2)
    AreLinked-split p (x ∷ x' ∷ xs) ys q h =
        let rest = AreLinked-split (some x) (x' ∷ xs) ys q h.2 in ((h.0, h.1, rest.0), rest.1)

    -- A write to another event changes no link.
    pub AreLinked-frame :
        (e : ℕ) (n : Node A) (p : Option ℕ) (xs : List ℕ) (q : Option ℕ)
        → Absent e xs
        → AreLinked m p xs q
        → AreLinked (update m e n) p xs q
    AreLinked-frame e n p [] q a h = tt
    AreLinked-frame e n p (x ∷ xs) q a h =
        let same : update m e n x ≡ m x = ground (arith, a.0) in
        (
          ap (λ t. t.prev) same ∙ h.0,
          ap (λ t. t.next) same ∙ h.1,
          AreLinked-frame e n (some x) xs q a.1 h.2,
        )

    -- A new predecessor of the first event.
    pub AreLinked-prev :
        (x : ℕ) (v p : Option ℕ) (xs : List ℕ) (q : Option ℕ)
        → Absent x xs
        → AreLinked m p (x ∷ xs) q
        → AreLinked (update m x (record (m x) { prev = v })) v (x ∷ xs) q
    AreLinked-prev x v p xs q a h =
        let at : update m x (record (m x) { prev = v }) x ≡ record (m x) { prev = v } =
          ground (arith, ==_self x) in
        (
          ap (λ t. t.prev) at,
          ap (λ t. t.next) at ∙ h.1,
          AreLinked-frame x (record (m x) { prev = v }) (some x) xs q a h.2,
        )

    -- A new successor of the last event.
    pub AreLinked-next :
        (y : ℕ) (v p : Option ℕ) (xs : List ℕ) (q : Option ℕ)
        → Absent y xs
        → AreLinked m p (xs ++ y ∷ []) q
        → AreLinked (update m y (record (m y) { next = v })) p (xs ++ y ∷ []) v
    AreLinked-next y v p [] q a h =
        let at : update m y (record (m y) { next = v }) y ≡ record (m y) { next = v } =
          ground (arith, ==_self y) in
        (ap (λ t. t.prev) at ∙ h.0, ap (λ t. t.next) at, tt)
    AreLinked-next y v p (x ∷ []) q a h =
        let same : update m y (record (m y) { next = v }) x ≡ m x = ground (arith, a.0) in
        (
          ap (λ t. t.prev) same ∙ h.0,
          ap (λ t. t.next) same ∙ h.1,
          AreLinked-next y v (some x) [] q tt h.2,
        )
    AreLinked-next y v p (x ∷ x' ∷ xs) q a h =
        let same : update m y (record (m y) { next = v }) x ≡ m x = ground (arith, a.0) in
        (
          ap (λ t. t.prev) same ∙ h.0,
          ap (λ t. t.next) same ∙ h.1,
          AreLinked-next y v (some x) (x' ∷ xs) q a.1 h.2,
        )

  pub update_self : (m : ℕ → Node A) (e : ℕ) (n : Node A) → update m e n e ≡ n
  update_self m e n = ground (arith, ==_self e)

  pub update_other : (m : ℕ → Node A) (e x : ℕ) (n : Node A) → x ≢ e → update m e n x ≡ m x
  update_other m e x n h = ground arith
