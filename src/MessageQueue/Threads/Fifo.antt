-- ===== src/MessageQueue/Threads/Fifo.antt =====
-- Whatever the interleaving, what is popped is what was pushed, in order.
use green_turtle.Base.{
  ℕ, inl, inr, ◌+◌, ◌-◌, ◌%◌, ◌≤◌, ◌<◌, ◌≡◌, refl, sym, ap, ◌∙◌, subst, some, List, [], ◌∷◌, arith,
  bit_and, sub64, add64, ◌==◌, Bool-cases, length, get_elem?, set, push_back, length-append,
  get_elem?-set_self, get_elem?-append_left,
}
use green_turtle.MessageQueue.{Queue}
use green_turtle.MessageQueue.Track.{
  Shape, Track, slot_of, slot_in, mask_small, taken-Track, taken-Shape,
}
use green_turtle.MessageQueue.Threads.{
  Producer, idle, loaded_write, loaded_read, wrote_slot, Consumer, waiting, saw_write, saw_read,
  read_slot, System, produce_at, consume_at, produce, consume, Turn, producer_turn, consumer_turn,
  run, start,
}
use green_turtle.MessageQueue.Threads.Knows.{
  ConsumerKnows, ConsumerKnows-push, ConsumerKnows-set, IsFifo, ProducerKnows, ProducerKnows-pop,
  more_of_test, order-append, publish-Shape, publish-Track, room_of_test, write-Shape, write-Track,
}

module _ {ℓ} {A : Type ℓ} (k : ℕ) where
  -- Every access of the producer keeps the invariant.
  produce_at-IsFifo :
      (v : A) (s : System A) (p : Producer A)
      → s.producer ≡ p
      → IsFifo k s
      → IsFifo k (produce_at v s p)
  unfolding produce_at
  produce_at-IsFifo v s idle e inv = record {
    shape = inv.shape;
    track = inv.track;
    producer = (refl, tt);
    consumer = inv.consumer;
    order = inv.order;
  }
  produce_at-IsFifo v s (loaded_write w x) e inv =
      let knows = subst (ProducerKnows s.queue s.pushed (length s.popped)) e inv.producer in
      record {
        shape = inv.shape;
        track = inv.track;
        producer = (length s.popped, knows.0, inv.track.read, omega arith, inv.track.room, tt);
        consumer = inv.consumer;
        order = inv.order;
      }
  produce_at-IsFifo v s (loaded_read w r x) e inv =
      let (m, same, stale, le, near, _) =
        subst (ProducerKnows s.queue s.pushed (length s.popped)) e inv.producer in
      elim (Bool-cases (sub64 w r == s.queue.mask)) [
        | inl full ↦ rw full (record {
          shape = inv.shape;
          track = inv.track;
          producer = tt;
          consumer = inv.consumer;
          order = inv.order;
        })
        | inr free ↦
            let room : length s.pushed - length s.popped < s.queue.mask =
              room_of_test m w r same stale le near (mask_small inv.shape) inv.track free in
            let slot : bit_and w s.queue.mask ≡ length s.pushed % s.queue.size =
              ap (λ t. bit_and t s.queue.mask) (same ∙ inv.track.write)
              ∙ slot_of inv.shape (length s.pushed) in
            rw free (record {
              shape = write-Shape x (bit_and w s.queue.mask) inv.shape;
              track =
                  write-Track s.queue s.pushed (length s.popped) x (bit_and w s.queue.mask) slot
                    (omega (arith, inv.shape.masked)) inv.track;
              producer = (
                same,
                room,
                rw slot (
                    get_elem?-set_self s.queue.array (length s.pushed % s.queue.size) x
                      (slot_in inv.shape (length s.pushed))),
              );
              consumer =
                  ConsumerKnows-set s.queue s.pushed (length s.popped)
                    (set s.queue.array (bit_and w s.queue.mask) x) s.consumer inv.consumer;
              order = inv.order;
            })
      ]
  produce_at-IsFifo v s (wrote_slot w x) e inv =
      let (same, room, held) =
        subst (ProducerKnows s.queue s.pushed (length s.popped)) e inv.producer in
      record {
        shape = publish-Shape (add64 w 1) inv.shape;
        track = rw same (publish-Track s.queue s.pushed (length s.popped) x inv.track room held);
        producer = tt;
        consumer =
            ConsumerKnows-push s.queue s.pushed (length s.popped) x (add64 w 1) s.consumer
              inv.consumer;
        order = λ i below.
            inv.order i below
            ∙ ap some
                (sym (get_elem?-append_left s.pushed (x ∷ []) i (omega (arith, inv.track.behind))));
      }

  -- Every access of the consumer keeps the invariant.
  consume_at-IsFifo :
      (s : System A) (c : Consumer A) → s.consumer ≡ c → IsFifo k s → IsFifo k (consume_at s c)
  unfolding consume_at
  consume_at-IsFifo s waiting e inv = record {
    shape = inv.shape;
    track = inv.track;
    producer = inv.producer;
    consumer = (length s.pushed, inv.track.write, inv.track.behind, omega arith, tt);
    order = inv.order;
  }
  consume_at-IsFifo s (saw_write w) e inv =
      let (m, same, le, below, _) =
        subst (ConsumerKnows s.queue s.pushed (length s.popped)) e inv.consumer in
      record {
        shape = inv.shape;
        track = inv.track;
        producer = inv.producer;
        consumer = (m, same, le, below, refl, tt);
        order = inv.order;
      }
  consume_at-IsFifo s (saw_read w r) e inv =
      let (m, same, le, below, now, _) =
        subst (ConsumerKnows s.queue s.pushed (length s.popped)) e inv.consumer in
      elim (Bool-cases (r == w)) [
        | inl empty ↦ rw empty (record {
          shape = inv.shape;
          track = inv.track;
          producer = inv.producer;
          consumer = tt;
          order = inv.order;
        })
        | inr left ↦
            let more : length s.popped < length s.pushed =
              more_of_test m w r same now le below inv.track left in
            let slot : bit_and r s.queue.mask ≡ length s.popped % s.queue.size =
              ap (λ t. bit_and t s.queue.mask) (now ∙ inv.track.read)
              ∙ slot_of inv.shape (length s.popped) in
            rw left (record {
              shape = inv.shape;
              track = inv.track;
              producer = inv.producer;
              consumer = (now, more, rw slot (inv.track.held (length s.popped) (omega arith) more));
              order = inv.order;
            })
      ]
  consume_at-IsFifo s (read_slot r x) e inv =
      let (now, more, held) =
        subst (ConsumerKnows s.queue s.pushed (length s.popped)) e inv.consumer in
      let longer : length (push_back s.popped x) ≡ length s.popped + 1 =
        length-append s.popped (x ∷ []) in
      record {
        shape = rw now (taken-Shape inv.shape);
        track = rw (now, longer) (taken-Track inv.track more);
        producer =
            rw (now, longer)
              (ProducerKnows-pop s.queue s.pushed (length s.popped) (add64 s.queue.read_idx 1)
                s.producer more inv.producer);
        consumer = tt;
        order = order-append s.popped s.pushed x held inv.order;
      }

  produce-IsFifo : (v : A) (s : System A) → IsFifo k s → IsFifo k (produce v s)
  unfolding produce
  produce-IsFifo v s inv = produce_at-IsFifo v s s.producer refl inv

  consume-IsFifo : (s : System A) → IsFifo k s → IsFifo k (consume s)
  unfolding consume
  consume-IsFifo s inv = consume_at-IsFifo s s.consumer refl inv

  pub run-IsFifo : (turns : List (Turn A)) (s : System A) → IsFifo k s → IsFifo k (run s turns)
  unfolding run
  run-IsFifo [] s inv = inv
  run-IsFifo (producer_turn v ∷ turns) s inv =
      run-IsFifo turns (produce v s) (produce-IsFifo v s inv)
  run-IsFifo (consumer_turn ∷ turns) s inv = run-IsFifo turns (consume s) (consume-IsFifo s inv)

pub start-IsFifo {ℓ} :
    {A : Type ℓ} {k : ℕ} {q : Queue A} → Shape k q → Track q [] 0 → IsFifo k (start q)
start-IsFifo shape track = record {
  shape = shape;
  track = track;
  producer = tt;
  consumer = tt;
  order = λ i below. absurd (omega arith);
}

-- However the accesses of one producer and one consumer interleave, from an empty queue: the values
-- that `Pop` returned are the first values that `Push` accepted, in order and from initialised
-- slots, and at most `size - 1` values are waiting.
pub popped_in_order {ℓ} :
    {A : Type ℓ} {k : ℕ} {q : Queue A} (turns : List (Turn A))
    → Shape k q
    → Track q [] 0
    → ((i : ℕ)
        → i < length (run (start q) turns).popped
        → get_elem? (run (start q) turns).popped i
          ≡ some (get_elem? (run (start q) turns).pushed i))
      × (length (run (start q) turns).popped ≤ length (run (start q) turns).pushed)
      × (length (run (start q) turns).pushed - length (run (start q) turns).popped
          ≤ (run (start q) turns).queue.size - 1)
popped_in_order {k = k} {q = q} turns shape track =
    let inv = run-IsFifo k turns (start q) (start-IsFifo shape track) in
    (inv.order, inv.track.behind, omega (arith, inv.track.room, inv.shape.masked))
