-- ===== src/Events/Order.antt =====
-- Lists of the addresses of events: their ends, and that none stands twice.
use librasta.Base.{
  ◌⊎◌, inl, inr, ℕ, ◌≡◌, ◌≢◌, refl, sym, ap, Bool, true, false, ◌&&◌, Option, none, some, List, [],
  ◌∷◌, ◌++◌, arith,
}
use librasta.Events.{points_to, is_null}

-- The first address of a list that goes on with `q`, and the last of one that comes after `p`.
abbrev pub front : List ℕ → Option ℕ → Option ℕ
front [] q = q
front (x ∷ xs) q = some x

abbrev pub back : Option ℕ → List ℕ → Option ℕ
back p [] = p
back p (x ∷ xs) = back (some x) xs

abbrev pub Absent : ℕ → List ℕ → Type 0
Absent e [] = Unit {0}
Absent e (x ∷ xs) = (x ≢ e) × Absent e xs

abbrev pub AreDistinct : List ℕ → Type 0
AreDistinct [] = Unit {0}
AreDistinct (x ∷ xs) = Absent x xs × AreDistinct xs

pub back-snoc : (p : Option ℕ) (xs : List ℕ) (y : ℕ) → back p (xs ++ y ∷ []) ≡ some y
back-snoc p [] y = refl
back-snoc p (x ∷ xs) y = back-snoc (some x) xs y

pub back-append : (p : Option ℕ) (xs ys : List ℕ) → back p (xs ++ ys) ≡ back (back p xs) ys
back-append p [] ys = refl
back-append p (x ∷ xs) ys = back-append (some x) xs ys

pub front-append : (xs ys : List ℕ) (q : Option ℕ) → front (xs ++ ys) q ≡ front xs (front ys q)
front-append [] ys q = refl
front-append (x ∷ xs) ys q = refl

pub snoc-view : (xs : List ℕ) → (xs ≡ []) ⊎ ((init : List ℕ) × (y : ℕ) × (xs ≡ init ++ y ∷ []))
snoc-view [] = inl refl
snoc-view (x ∷ xs) = elim (snoc-view xs) [
  | inl e ↦ inr ([], x, ap (λ t. x ∷ t) e)
  | inr (init, y, e) ↦ inr (x ∷ init, y, ap (λ t. x ∷ t) e)
]

pub Absent-append : (e : ℕ) (xs ys : List ℕ) → Absent e xs → Absent e ys → Absent e (xs ++ ys)
Absent-append e [] ys h k = k
Absent-append e (x ∷ xs) ys h k = (h.0, Absent-append e xs ys h.1 k)

pub Absent-split : (e : ℕ) (xs ys : List ℕ) → Absent e (xs ++ ys) → Absent e xs × Absent e ys
Absent-split e [] ys h = (tt, h)
Absent-split e (x ∷ xs) ys h = let rest = Absent-split e xs ys h.1 in ((h.0, rest.0), rest.1)

-- The event `e` after `xs` and before `ys`, where no event stands twice.
pub AreDistinct-remove :
    (xs ys : List ℕ) (e : ℕ)
    → AreDistinct (xs ++ e ∷ ys)
    → AreDistinct (xs ++ ys) × Absent e xs × Absent e ys
AreDistinct-remove [] ys e h = (h.1, tt, h.0)
AreDistinct-remove (x ∷ xs) ys e h =
    let rest = AreDistinct-remove xs ys e h.1 in
    let apart = Absent-split x xs (e ∷ ys) h.0 in
    (
      (Absent-append x xs ys apart.0 apart.1.1, rest.0),
      ((λ same. apart.1.0 (sym same)), rest.1),
      rest.2,
    )

pub AreDistinct-snoc :
    (xs : List ℕ) (e : ℕ) → AreDistinct xs → Absent e xs → AreDistinct (xs ++ e ∷ [])
AreDistinct-snoc [] e d a = (tt, tt)
AreDistinct-snoc (x ∷ xs) e d a =
    (Absent-append x xs (e ∷ []) d.0 ((λ same. a.0 (sym same)), tt), AreDistinct-snoc xs e d.1 a.1)

-- An event that is null or not among `xs`.
abbrev pub Outside : Option ℕ → List ℕ → Type 0
Outside none xs = Unit {0}
Outside (some p) xs = Absent p xs

pub Outside-back :
    (p : Option ℕ) (xs zs : List ℕ) → Outside p zs → AreDistinct (xs ++ zs) → Outside (back p xs) zs
Outside-back p [] zs o d = o
Outside-back p (x ∷ xs) zs o d = Outside-back (some x) xs zs (Absent-split x xs zs d.0).1 d.1

pub Outside-head :
    (o : Option ℕ) (x : ℕ) (xs : List ℕ) → Outside o (x ∷ xs) → Outside o (x ∷ []) × Outside o xs
Outside-head none x xs h = (tt, tt)
Outside-head (some p) x xs h = ((h.0, tt), h.1)

pub Outside-next : (ys : List ℕ) (e : ℕ) → Absent e ys → Outside (front ys none) (e ∷ [])
Outside-next [] e a = tt
Outside-next (y ∷ ys) e a = ((λ same. a.0 (sym same)), tt)

pub Outside-front :
    (xs ys : List ℕ) (e : ℕ) → AreDistinct (xs ++ e ∷ ys) → Outside (front ys none) xs
Outside-front xs [] e d = tt
Outside-front xs (y ∷ ys) e d =
    (AreDistinct-remove xs ys y (AreDistinct-remove xs (y ∷ ys) e d).0).1

pub AreDistinct-split : (xs ys : List ℕ) → AreDistinct (xs ++ ys) → AreDistinct xs × AreDistinct ys
AreDistinct-split [] ys d = (tt, d)
AreDistinct-split (x ∷ xs) ys d =
    let rest = AreDistinct-split xs ys d.1 in (((Absent-split x xs ys d.0).0, rest.0), rest.1)

pub points_to-back :
    (x e : ℕ) (xs : List ℕ) → x ≢ e → Absent e xs → points_to (back (some x) xs) e ≡ false
points_to-back x e [] h a = ground arith
points_to-back x e (y ∷ xs) h a = points_to-back y e xs a.0 a.1

pub is_null-back : (x : ℕ) (xs : List ℕ) → is_null (back (some x) xs) ≡ false
is_null-back x [] = refl
is_null-back x (y ∷ xs) = is_null-back y xs

abbrev pub is_empty : List ℕ → Bool
is_empty [] = true
is_empty (x ∷ xs) = false

pub is_null-both :
    (xs ys : List ℕ) → (is_null (back none xs) && is_null (front ys none)) ≡ is_empty (xs ++ ys)
is_null-both [] [] = refl
is_null-both [] (y ∷ ys) = refl
is_null-both (x ∷ xs) ys = ap (λ b. b && is_null (front ys none)) (is_null-back x xs)
