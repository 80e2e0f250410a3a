-- ===== src/Sr/Queues/Confirmed.antt =====
-- `sr_remove_confirmed_messages` of src/c/retransmission/safety_retransmission.c: what it takes off
-- the retransmission queue.
use librasta.Base.{
  ℕ, zero, suc, ◌+◌, ◌≡◌, ◌≤◌, ◌<◌, refl, ap, ◌==◌, if◌then◌else◌, false, none, some, List, [], ◌∷◌,
  length, drop, arith, Bool-cases, inl, inr,
}
use librasta.Packet.{RastaPacket, RastaError, HashingContext}
use librasta.Packet.Codec.{decoded, bytes_to_rasta_packet}
use librasta.Fifo.{Fifo, IsFifo, fifo_pop, fifo_get_size}
use librasta.Connection.{Connection, Env}
use librasta.Sr.Queues.{confirm_from, confirm_round, remove_confirmed}

-- The queued byte arrays are the packets, in order.
unfoldable pub AllStored : HashingContext → List (List ℕ) → List RastaPacket → Type 0
AllStored h [] [] = Unit
AllStored h [] (p ∷ ps) = ⊥
AllStored h (b ∷ bs) [] = ⊥
AllStored h (b ∷ bs) (p ∷ ps) = (bytes_to_rasta_packet h b ≡ decoded p) × AllStored h bs ps

-- What follows the first packet with the number.
unfoldable pub after : ℕ → List RastaPacket → List (List ℕ) → List (List ℕ)
after cs [] bs = []
after cs (p ∷ ps) [] = []
after cs (p ∷ ps) (b ∷ bs) = if p.sequence_number == cs then bs else after cs ps bs

-- The packets are numbered from `n` on.
unfoldable pub Numbered : ℕ → List RastaPacket → Type 0
Numbered n [] = Unit
Numbered n (p ∷ ps) = (p.sequence_number ≡ n) × Numbered (suc n) ps

abbrev pub counted_fifo : List (List ℕ) → ℕ → Fifo (List ℕ)
counted_fifo bs m = record { elements = bs; size = length bs; max_size = m }

pub fifo_pop-counted :
    (b : List ℕ) (bs : List (List ℕ)) (m : ℕ)
    → fifo_pop (counted_fifo (b ∷ bs) m) ≡ (some b, counted_fifo bs m)
unfolding fifo_pop
fifo_pop-counted b bs m = ground arith

fifo_pop-none : (m : ℕ) → fifo_pop (counted_fifo [] m) ≡ (none, counted_fifo [] m)
unfolding fifo_pop
fifo_pop-none m = ground arith

module _ (env : Env) where
  confirm_from-after :
      (fuel cs : ℕ) (last : RastaError) (bs : List (List ℕ)) (ps : List RastaPacket) (m : ℕ)
      (stored : AllStored env.hashing bs ps) (enough : length bs ≤ fuel)
      → confirm_from env fuel cs last (counted_fifo bs m)
        ≡ record { rest = counted_fifo (after cs ps bs) m; lasterror = last; fault = false }
  unfolding confirm_from confirm_round after AllStored
  confirm_from-after zero cs last [] [] m stored enough = refl
  confirm_from-after zero cs last [] (p ∷ ps) m stored enough = absurd stored
  confirm_from-after zero cs last (b ∷ bs) ps m stored enough = absurd (omega arith)
  confirm_from-after (suc fuel) cs last [] [] m stored enough = ground (arith, fifo_pop-none m)
  confirm_from-after (suc fuel) cs last [] (p ∷ ps) m stored enough = absurd stored
  confirm_from-after (suc fuel) cs last (b ∷ bs) [] m stored enough = absurd stored
  confirm_from-after (suc fuel) cs last (b ∷ bs) (p ∷ ps) m stored enough =
      elim (Bool-cases (p.sequence_number == cs)) [
        | inl e ↦ ground (arith, fifo_pop-counted b bs m, stored.0, e)
        | inr e ↦ ground (
          arith,
          fifo_pop-counted b bs m,
          stored.0,
          e,
          confirm_from-after fuel cs last bs ps m stored.1 (omega arith),
        )
      ]

  pub counted : (f : Fifo (List ℕ)) → IsFifo f → f ≡ counted_fifo f.elements f.max_size
  counted f v = ground arith

  -- On a queue of packets the loop takes off everything up to and including the first packet with
  -- the confirmed number, and the whole queue if no packet has it; it reads no packet wrongly,
  -- changes nothing else of the connection, and the size of the queue bounds its rounds.
  pub remove_confirmed-after :
      (c : Connection) (ps : List RastaPacket) (v : IsFifo c.fifo_retransmission)
      (stored : AllStored env.hashing c.fifo_retransmission.elements ps)
      → remove_confirmed env c ≡ record c {
        fifo_retransmission =
            counted_fifo
              (after c.cs_r ps c.fifo_retransmission.elements)
              c.fifo_retransmission.max_size;
      }
  unfolding remove_confirmed fifo_get_size
  remove_confirmed-after c ps v stored = ground (
    arith,
    counted c.fifo_retransmission v,
    confirm_from-after c.fifo_retransmission.size c.cs_r c.lasterror c.fifo_retransmission.elements
        ps c.fifo_retransmission.max_size stored (omega (arith, v.counted)),
  )

after-Numbered :
    (n k : ℕ) (ps : List RastaPacket) (bs : List (List ℕ)) (h : HashingContext)
    (stored : AllStored h bs ps) (order : Numbered n ps)
    → after (n + k) ps bs ≡ drop (suc k) bs
unfolding after AllStored Numbered
after-Numbered n k [] [] h stored order = refl
after-Numbered n k [] (b ∷ bs) h stored order = absurd stored
after-Numbered n k (p ∷ ps) [] h stored order = absurd stored
after-Numbered n zero (p ∷ ps) (b ∷ bs) h stored order = ground (arith, order.0)
after-Numbered n (suc k) (p ∷ ps) (b ∷ bs) h stored order = ground (
  arith,
  order.0,
  after-Numbered (suc n) k ps bs h stored.1 order.1,
  ap (λ x. after x ps bs) {x = suc n + k} {y = n + suc k} (omega arith),
)

-- With consecutive numbers from `n` on, a number before `n` is none of them.
after-before :
    (n cs : ℕ) (ps : List RastaPacket) (bs : List (List ℕ)) (order : Numbered n ps) (early : cs < n)
    → after cs ps bs ≡ []
unfolding after Numbered
after-before n cs [] bs order early = refl
after-before n cs (p ∷ ps) [] order early = refl
after-before n cs (p ∷ ps) (b ∷ bs) order early =
    ground (arith, order.0, after-before (suc n) cs ps bs order.1 (omega arith))

-- If the queue holds packets numbered from `n` on, a confirmation of the number `n + k` takes
-- exactly the first `k + 1` of them off the queue, and leaves the others in order.
pub remove_confirmed-drop :
    (env : Env) (c : Connection) (ps : List RastaPacket) (n k : ℕ)
    (v : IsFifo c.fifo_retransmission)
    (stored : AllStored env.hashing c.fifo_retransmission.elements ps) (order : Numbered n ps)
    (confirmed : c.cs_r ≡ n + k)
    → (remove_confirmed env c).fifo_retransmission.elements
      ≡ drop (suc k) c.fifo_retransmission.elements
remove_confirmed-drop env c ps n k v stored order confirmed =
    rw (remove_confirmed-after env c ps v stored, confirmed)
      (after-Numbered n k ps c.fifo_retransmission.elements env.hashing stored order)

-- If the queue holds packets numbered from `n` on, a confirmation of a number before `n`, which
-- confirms none of them, still empties the queue.
pub remove_confirmed-empties :
    (env : Env) (c : Connection) (ps : List RastaPacket) (n : ℕ) (v : IsFifo c.fifo_retransmission)
    (stored : AllStored env.hashing c.fifo_retransmission.elements ps) (order : Numbered n ps)
    (early : c.cs_r < n)
    → (remove_confirmed env c).fifo_retransmission.elements ≡ []
remove_confirmed-empties env c ps n v stored order early =
    rw (remove_confirmed-after env c ps v stored)
      (after-before n c.cs_r ps c.fifo_retransmission.elements order early)
