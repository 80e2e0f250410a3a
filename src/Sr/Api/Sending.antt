-- ===== src/Sr/Api/Sending.antt =====
-- `sr_send` of src/c/retransmission/safety_retransmission.c in state UP.
use librasta.Base.{
  ℕ, ◌+◌, ◌≡◌, ◌≤◌, ◌<◌, refl, sym, ◌∙◌, ltb, Bool, true, false, List, [], ◌∷◌, ◌++◌, length,
  length-append, arith,
}
use mathlib.Core.List.{append_assoc, append-nil}
use librasta.Fifo.{IsFifo, fifo_push, fifo_full}
use librasta.Fifo.Laws.{appended}
use librasta.Connection.{Connection, up, Env}
use librasta.Sr.Clock.{enable_send}
use librasta.Sr.Api.{sr_send, send_messages, send_message}

not_ltb : (a b : ℕ) → a ≤ b → ltb b a ≡ false
not_ltb a b h = ground arith

module _ (env : Env) where
  -- The connection once one message is queued.
  abbrev queued_one : List ℕ → Connection → Connection
  queued_one m c = enable_send env (record c {
    fifo_send = record (c.fifo_send) {
      elements = c.fifo_send.elements ++ (m ∷ []);
      size = c.fifo_send.size + 1;
    };
  })

  send_one :
      (m : List ℕ) (c : Connection)
      → IsFifo c.fifo_send
      → c.fifo_send.size < c.fifo_send.max_size
      → send_message env m c ≡ (queued_one m c, true)
  unfolding send_message fifo_push fifo_full
  send_one m c v room = ground (arith, appended c.fifo_send.elements m c.fifo_send.size v.counted)

  queued_one-IsFifo :
      (m : List ℕ) (c : Connection)
      → IsFifo c.fifo_send
      → c.fifo_send.size < c.fifo_send.max_size
      → IsFifo (queued_one m c).fifo_send
  queued_one-IsFifo m c v room =
      omega (arith, v.counted, length-append c.fifo_send.elements (m ∷ []))

  -- What queueing all messages leaves.
  pub record Queues (ms : List (List ℕ)) (c : Connection) (o : Connection × Bool) : Type 0 where
    pub accepted : o.1 ≡ true
    pub contents : o.0.fifo_send.elements ≡ c.fifo_send.elements ++ ms
    pub counted_queue : IsFifo o.0.fifo_send
    pub silent : o.0.handed ≡ c.handed
    pub same_number : o.0.sn_t ≡ c.sn_t

  send_messages-Queues :
      (ms : List (List ℕ)) (c : Connection) (v : IsFifo c.fifo_send)
      (room : c.fifo_send.size + length ms ≤ c.fifo_send.max_size)
      → Queues ms c (send_messages env ms c)
  unfolding send_messages
  send_messages-Queues [] c v room = record {
    accepted = refl;
    contents = sym (append-nil c.fifo_send.elements);
    counted_queue = v;
    silent = refl;
    same_number = refl;
  }
  send_messages-Queues (m ∷ ms) c v room =
      let rest =
        send_messages-Queues ms (queued_one m c) (queued_one-IsFifo m c v (omega (arith, room)))
          (omega (arith, room)) in
      rw (send_one m c v (omega (arith, room))) (record {
        accepted = rest.accepted;
        contents = rest.contents ∙ append_assoc c.fifo_send.elements (m ∷ []) ms;
        counted_queue = rest.counted_queue;
        silent = rest.silent;
        same_number = rest.same_number;
      })

  -- In state UP, messages that are no more than a packet may carry and for which the send queue has
  -- room are all queued behind the earlier ones, in order; nothing is sent and no number is used
  -- yet, and the call reports success.
  pub sr_send-Queues :
      (c : Connection) (ms : List (List ℕ)) (state : c.current_state ≡ up) (v : IsFifo c.fifo_send)
      (few : length ms ≤ c.config.max_packet)
      (room : c.fifo_send.size + length ms ≤ c.fifo_send.max_size)
      → Queues ms c (sr_send env c ms)
  unfolding sr_send
  sr_send-Queues c ms state v few room =
      rw (state, not_ltb (length ms) c.config.max_packet few)
        (send_messages-Queues ms (record c { current_state = up }) v room)
