-- ===== src/Redundancy/Frames.antt =====
-- The loop of `receive_packet` (src/c/redundancy/rasta_red_multiplexer.c) over the frames of a
-- buffer.
use mathlib.Core.List.{append_assoc}
use librasta.Base.{
  Option-cases, true, inl, inr, ℕ, zero, suc, ◌+◌, ◌≡◌, ◌≤◌, ◌<◌, refl, ap, ◌∙◌, ◌==◌, false, none,
  some, List, [], ◌∷◌, ◌++◌, arith, length, get_or, slice?-append, length-append, le_short_to_host,
  sub64,
}
use librasta.Connection.{Connection, Env}
use librasta.Redundancy.{accept_slice, receive_from, receive_packet, or_int}

-- A frame carries its own length in its first two bytes.
pub record IsFrame (f : List ℕ) : Type 0 where
  pub header : 2 ≤ length f
  pub framed : le_short_to_host f 0 ≡ length f

unfoldable pub AllFrames : List (List ℕ) → Type 0
AllFrames [] = Unit
AllFrames (f ∷ fs) = IsFrame f × AllFrames fs

abbrev pub concat : List (List ℕ) → List ℕ
concat [] = []
concat (f ∷ fs) = f ++ concat fs

get_or-append : (xs ys : List ℕ) (i d : ℕ) → get_or (xs ++ ys) (length xs + i) d ≡ get_or ys i d
get_or-append [] ys i d = ap (λ n. get_or ys n d) {x = 0 + i} {y = i} (omega arith)
get_or-append (x ∷ xs) ys i d =
    ap (λ n. get_or (x ∷ (xs ++ ys)) n d) {x = suc (length xs) + i} {y = suc (length xs + i)}
      (omega arith)
    ∙ get_or-append xs ys i d

get_or-front : (xs ys : List ℕ) (i d : ℕ) → i < length xs → get_or (xs ++ ys) i d ≡ get_or xs i d
get_or-front [] ys i d h = absurd (omega arith)
get_or-front (x ∷ xs) ys zero d h = refl
get_or-front (x ∷ xs) ys (suc i) d h = get_or-front xs ys i d (omega arith)

-- The length field of a frame that lies inside a buffer.
length_field :
    (pre f rest : List ℕ) (w : IsFrame f)
    → le_short_to_host (pre ++ (f ++ rest)) (length pre) ≡ length f
length_field pre f rest w = omega (
  arith,
  get_or-append pre (f ++ rest) 0 0,
  get_or-append pre (f ++ rest) 1 0,
  get_or-front f rest 0 0 (omega (arith, w.header)),
  get_or-front f rest 1 0 (omega (arith, w.header)),
  ap (λ n. get_or (pre ++ (f ++ rest)) n 0) {x = length pre + 0} {y = length pre} (omega arith),
  w.framed,
)

pub nonzero : (n : ℕ) → 0 < n → (n == 0) ≡ false
nonzero n h = ground arith

remaining_after : (n a b : ℕ) → n ≡ a + b → n < 18446744073709551616 → sub64 n a ≡ b
remaining_after n a b e h = omega arith

module _ (env : Env) where
  -- The frames one after the other, up to one whose reading leaves it.
  unfoldable pub receive_frames : List (List ℕ) → ℕ → ℕ → Connection → Connection × ℕ
  receive_frames [] i result c = (c, result)
  receive_frames (f ∷ fs) i result c = elim (accept_slice env (some f) i c) [
    | none ↦ (record c { fault = true }, result)
    | some (c', r) ↦ receive_frames fs i (or_int result r) c'
  ]

  receive_from-frames :
      (fuel : ℕ) (fs : List (List ℕ)) (w : AllFrames fs) (pre : List ℕ) (i result : ℕ)
      (c : Connection)
      → length (concat fs) ≤ fuel
      → length (concat fs) < 18446744073709551616
      → receive_from env fuel (pre ++ concat fs) (length (concat fs)) (length pre) i result c
        ≡ some (receive_frames fs i result c)
  unfolding receive_from receive_frames AllFrames
  receive_from-frames zero [] w pre i result c enough small = refl
  receive_from-frames (suc fuel) [] w pre i result c enough small = refl
  receive_from-frames zero (f ∷ fs) w pre i result c enough small =
      absurd (omega (arith, w.0.header, length-append f (concat fs)))
  receive_from-frames (suc fuel) (f ∷ fs) w pre i result c enough small =
      let rest = concat fs in
      let sizes = length-append f rest in
      elim (Option-cases (accept_slice env (some f) i c)) [
        | inl e ↦
            rw
              (
                length_field pre f rest w.0,
                slice?-append pre f rest (length pre) (length f) refl refl,
                nonzero (length (f ++ rest)) (omega (arith, sizes, w.0.header)),
                receive_frames,
                e,
              )
              refl
        | inr ((c', r), e) ↦
            rw
              (
                length_field pre f rest w.0,
                slice?-append pre f rest (length pre) (length f) refl refl,
                nonzero (length (f ++ rest)) (omega (arith, sizes, w.0.header)),
                receive_frames,
                e,
                length_field pre f rest w.0,
                remaining_after (length (f ++ rest)) (length f) (length rest) (omega arith) small,
                ← append_assoc pre f rest,
                ← length-append pre f,
              )
              (receive_from-frames fuel fs w.1 (pre ++ f) i (or_int result r) c'
                (omega (arith, sizes, w.0.header)) (omega (arith, sizes)))
      ]

  -- A buffer that is a sequence of frames, each at least two bytes long with its own length in its
  -- first two bytes, is taken apart into exactly these frames, in order, each handled in the state
  -- that the one before it left, up to the first whose reading leaves it; the loop ends.
  pub receive_packet-frames :
      (fs : List (List ℕ)) (w : AllFrames fs) (i : ℕ) (c : Connection)
      (small : length (concat fs) < 18446744073709551616)
      → receive_packet env (concat fs) (length (concat fs)) i c ≡ some (receive_frames fs i 0 c)
  unfolding receive_packet
  receive_packet-frames fs w i c small =
      receive_from-frames (suc (length (concat fs))) fs w [] i 0 c (omega arith) small
