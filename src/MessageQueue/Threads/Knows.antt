-- ===== src/MessageQueue/Threads/Knows.antt =====
-- What the two threads of a MessageQueue of message_queue.h know of it between their accesses.
use green_turtle.Base.{
  ℕ, ◌+◌, ◌-◌, ◌%◌, ◌≤◌, ◌<◌, ◌≡◌, sym, ap, ◌∙◌, false, Option, some, List, [], ◌∷◌, arith,
  word_mod, sub64, add64, ◌==◌, length, get_elem?, set, push_back, length-append, length-set,
  get_elem?-set_ne, get_elem?-append_left, get_elem?-append_end, mod_ne,
}
use native.Mathlib.Decide.{dec_lt}
use green_turtle.MessageQueue.{Queue}
use green_turtle.MessageQueue.Track.{Shape, Track}
use green_turtle.MessageQueue.Threads.{
  Producer, idle, loaded_write, loaded_read, wrote_slot, Consumer, waiting, saw_write, saw_read,
  read_slot, System,
}

-- What the locals of the threads say of the shared state, `n` values having been popped. A counter
-- that a thread loaded from the other one may be out of date.
module _ {ℓ} {A : Type ℓ} (q : Queue A) (pushed : List A) (n : ℕ) where
  abbrev pub ProducerKnows : Producer A → Type ℓ
  ProducerKnows idle = Unit
  ProducerKnows (loaded_write w x) = (w ≡ q.write_idx) × Unit {ℓ}
  ProducerKnows (loaded_read w r x) =
      (m : ℕ) × (w ≡ q.write_idx)
      × (r ≡ m % word_mod)
      × (m ≤ n)
      × (length pushed - m ≤ q.mask)
      × Unit {ℓ}
  ProducerKnows (wrote_slot w x) =
      (w ≡ q.write_idx)
      × (length pushed - n < q.mask)
      × (get_elem? q.array (length pushed % q.size) ≡ some x)

  abbrev pub ConsumerKnows : Consumer A → Type ℓ
  ConsumerKnows waiting = Unit
  ConsumerKnows (saw_write w) =
      (m : ℕ) × (w ≡ m % word_mod) × (n ≤ m) × (m ≤ length pushed) × Unit {ℓ}
  ConsumerKnows (saw_read w r) =
      (m : ℕ) × (w ≡ m % word_mod) × (n ≤ m) × (m ≤ length pushed) × (r ≡ q.read_idx) × Unit {ℓ}
  ConsumerKnows (read_slot r x) = (r ≡ q.read_idx) × (n < length pushed) × (x ≡ get_elem? pushed n)

pub record IsFifo {ℓ} {A : Type ℓ} (k : ℕ) (s : System A) : Type ℓ where
  pub shape : Shape k s.queue
  pub track : Track s.queue s.pushed (length s.popped)
  pub producer : ProducerKnows s.queue s.pushed (length s.popped) s.producer
  pub consumer : ConsumerKnows s.queue s.pushed (length s.popped) s.consumer
  pub order : (i : ℕ) → i < length s.popped → get_elem? s.popped i ≡ some (get_elem? s.pushed i)

module _ {ℓ} {A : Type ℓ} (q : Queue A) (pushed : List A) (n : ℕ) where
  -- The consumer's knowledge outlives a write of a slot, and a push.
  pub ConsumerKnows-set :
      (array : List A) (c : Consumer A)
      → ConsumerKnows q pushed n c
      → ConsumerKnows (record q { array = array }) pushed n c
  ConsumerKnows-set array waiting h = h
  ConsumerKnows-set array (saw_write w) h = h
  ConsumerKnows-set array (saw_read w r) h = h
  ConsumerKnows-set array (read_slot r x) h = h

  pub ConsumerKnows-push :
      (v : A) (w : ℕ) (c : Consumer A)
      → ConsumerKnows q pushed n c
      → ConsumerKnows (record q { write_idx = w }) (push_back pushed v) n c
  ConsumerKnows-push v w waiting h = tt
  ConsumerKnows-push v w (saw_write x) (m, e, le, below, _) =
      (m, e, le, omega (arith, length-append pushed (v ∷ [])), tt)
  ConsumerKnows-push v w (saw_read x r) (m, e, le, below, same, _) =
      (m, e, le, omega (arith, length-append pushed (v ∷ [])), same, tt)
  ConsumerKnows-push v w (read_slot r x) (same, more, e) = (
    same,
    omega (arith, length-append pushed (v ∷ [])),
    e ∙ sym (get_elem?-append_left pushed (v ∷ []) n more),
  )

  -- The producer's knowledge outlives a pop.
  pub ProducerKnows-pop :
      (r : ℕ) (p : Producer A)
      → n < length pushed
      → ProducerKnows q pushed n p
      → ProducerKnows (record q { read_idx = r }) pushed (n + 1) p
  ProducerKnows-pop r idle more h = tt
  ProducerKnows-pop r (loaded_write w x) more h = h
  ProducerKnows-pop r (loaded_read w x v) more (m, e, f, le, room, _) =
      (m, e, f, omega arith, room, tt)
  ProducerKnows-pop r (wrote_slot w x) more (e, room, held) = (e, omega arith, held)

  -- Publishing the slot that holds the value extends the history.
  pub publish-Track :
      (v : A)
      → Track q pushed n
      → length pushed - n < q.mask
      → get_elem? q.array (length pushed % q.size) ≡ some v
      → Track (record q { write_idx = add64 q.write_idx 1 }) (push_back pushed v) n
  publish-Track v track room held = record {
    read = track.read;
    write = omega (arith, track.write, length-append pushed (v ∷ []));
    behind = omega (arith, track.behind, length-append pushed (v ∷ []));
    room = omega (arith, track.behind, length-append pushed (v ∷ []));
    held = λ i from below. elim (dec_lt i (length pushed)) [
      | yes old ↦ track.held i from old ∙ sym (get_elem?-append_left pushed (v ∷ []) i old)
      | no new ↦
          let e : i ≡ length pushed = omega (arith, length-append pushed (v ∷ [])) in
          rw e (held ∙ sym (get_elem?-append_end pushed v []))
    ];
  }

  -- Writing the free slot leaves the history alone.
  pub write-Track :
      (v : A) (slot : ℕ)
      → slot ≡ length pushed % q.size
      → length pushed - n < q.size
      → Track q pushed n
      → Track (record q { array = set q.array slot v }) pushed n
  write-Track v slot e room track = record {
    read = track.read;
    write = track.write;
    behind = track.behind;
    room = track.room;
    held = λ i from below.
        get_elem?-set_ne q.array slot (i % q.size) v
          (λ p. mod_ne i (length pushed) q.size below (omega arith) (sym p ∙ e))
        ∙ track.held i from below;
  }

pub write-Shape {ℓ} :
    {A : Type ℓ} {k : ℕ} {q : Queue A} (v : A) (slot : ℕ)
    → Shape k q
    → Shape k (record q { array = set q.array slot v })
write-Shape {q = q} v slot shape = record {
  pow = shape.pow;
  small = shape.small;
  positive = shape.positive;
  masked = shape.masked;
  slots = length-set q.array slot v ∙ shape.slots;
}

pub publish-Shape {ℓ} :
    {A : Type ℓ} {k : ℕ} {q : Queue A} (w : ℕ) → Shape k q → Shape k (record q { write_idx = w })
publish-Shape w shape = record {
  pow = shape.pow;
  small = shape.small;
  positive = shape.positive;
  masked = shape.masked;
  slots = shape.slots;
}

-- A test against a read counter that is out of date errs on the safe side.
pub room_of_test {ℓ} :
    {A : Type ℓ} {q : Queue A} {pushed : List A} {n : ℕ} (m w r : ℕ)
    → w ≡ q.write_idx
    → r ≡ m % word_mod
    → m ≤ n
    → length pushed - m ≤ q.mask
    → q.mask < word_mod
    → Track q pushed n
    → (sub64 w r == q.mask) ≡ false
    → length pushed - n < q.mask
room_of_test {pushed = pushed} m w r same stale le near small track free =
    let apart : sub64 w r ≡ length pushed - m = omega (arith, track.write, track.behind) in
    ground arith

pub more_of_test {ℓ} :
    {A : Type ℓ} {q : Queue A} {pushed : List A} {n : ℕ} (m w r : ℕ)
    → w ≡ m % word_mod
    → r ≡ q.read_idx
    → n ≤ m
    → m ≤ length pushed
    → Track q pushed n
    → (r == w) ≡ false
    → n < length pushed
more_of_test m w r same now le below track left = ground (arith, track.read)

pub order-append {ℓ} :
    {A : Type ℓ} (popped : List (Option A)) (pushed : List A) (x : Option A)
    → x ≡ get_elem? pushed (length popped)
    → ((i : ℕ) → i < length popped → get_elem? popped i ≡ some (get_elem? pushed i))
    → (i : ℕ) → i < length (push_back popped x)
    → get_elem? (push_back popped x) i ≡ some (get_elem? pushed i)
order-append popped pushed x held order i below = elim (dec_lt i (length popped)) [
  | yes old ↦ get_elem?-append_left popped (x ∷ []) i old ∙ order i old
  | no new ↦
      let e : i ≡ length popped = omega (arith, length-append popped (x ∷ [])) in
      rw e (get_elem?-append_end popped x [] ∙ ap some held)
]
