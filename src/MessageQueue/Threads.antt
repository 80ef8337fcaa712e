-- ===== src/MessageQueue/Threads.antt =====
-- `Push` and `Pop` of green_turtle/message_queue.h run by two threads. Each turn of a thread is one
-- access to the shared counters or array, in the order of the source; turns come in any order.
pub mod Knows
pub mod Fifo
use green_turtle.Base.{
  ℕ, Bool, Option, none, some, List, [], ◌∷◌, bit_and, add64, sub64, ◌==◌, if◌then◌else◌, get_elem?,
  set, push_back,
}
use green_turtle.MessageQueue.{Queue}

-- Where the producer stands in `Push`: `current_write_` and `current_read_` are its locals.
pub data Producer {ℓ} (A : Type ℓ) : Type ℓ where
  idle : Producer A
  loaded_write : ℕ → A → Producer A
  loaded_read : ℕ → ℕ → A → Producer A
  wrote_slot : ℕ → A → Producer A

-- Where the consumer stands in `Pop`.
pub data Consumer {ℓ} (A : Type ℓ) : Type ℓ where
  waiting : Consumer A
  saw_write : ℕ → Consumer A
  saw_read : ℕ → ℕ → Consumer A
  read_slot : ℕ → Option A → Consumer A

-- `pushed` and `popped` record the values of the calls that returned true, in order.
pub record System {ℓ} (A : Type ℓ) : Type ℓ where
  pub queue : Queue A
  pub producer : Producer A
  pub consumer : Consumer A
  pub pushed : List A
  pub popped : List (Option A)

module _ {ℓ} {A : Type ℓ} where
  -- One access of `Push(v)`. A value is taken only when a call begins.
  unfoldable pub produce_at : A → System A → Producer A → System A
  produce_at v s idle = record s { producer = loaded_write s.queue.write_idx v }
  produce_at v s (loaded_write w x) = record s { producer = loaded_read w s.queue.read_idx x }
  produce_at v s (loaded_read w r x) =
      if sub64 w r == s.queue.mask then record s { producer = idle } else record s {
        queue = record s.queue { array = set s.queue.array (bit_and w s.queue.mask) x };
        producer = wrote_slot w x;
      }
  produce_at v s (wrote_slot w x) = record s {
    queue = record s.queue { write_idx = add64 w 1 };
    producer = idle;
    pushed = push_back s.pushed x;
  }

  -- One access of `Pop(v)`.
  unfoldable pub consume_at : System A → Consumer A → System A
  consume_at s waiting = record s { consumer = saw_write s.queue.write_idx }
  consume_at s (saw_write w) = record s { consumer = saw_read w s.queue.read_idx }
  consume_at s (saw_read w r) =
      if r == w
      then record s { consumer = waiting }
      else record s { consumer = read_slot r (get_elem? s.queue.array (bit_and r s.queue.mask)) }
  consume_at s (read_slot r x) = record s {
    queue = record s.queue { read_idx = add64 r 1 };
    consumer = waiting;
    popped = push_back s.popped x;
  }

  unfoldable pub produce : A → System A → System A
  unfolding produce_at
  produce v s = produce_at v s s.producer

  unfoldable pub consume : System A → System A
  unfolding consume_at
  consume s = consume_at s s.consumer

-- Whose turn it is; the producer is given the value to push, should a call begin.
pub data Turn {ℓ} (A : Type ℓ) : Type ℓ where
  producer_turn : A → Turn A
  consumer_turn : Turn A

unfoldable pub run {ℓ} : {A : Type ℓ} → System A → List (Turn A) → System A
run s [] = s
run s (producer_turn v ∷ turns) = run (produce v s) turns
run s (consumer_turn ∷ turns) = run (consume s) turns

abbrev pub start {ℓ} : {A : Type ℓ} → Queue A → System A
start q = record { queue = q; producer = idle; consumer = waiting; pushed = []; popped = [] }
