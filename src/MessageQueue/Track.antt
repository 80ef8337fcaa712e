-- ===== src/MessageQueue/Track.antt =====
-- A queue and the history of what was pushed: the counters, the room and the slots in use.
use green_turtle.Base.{
  ℕ, ◌+◌, ◌-◌, ◌%◌, ◌^◌, ◌≤◌, ◌<◌, ◌≡◌, ◌⊎◌, inl, inr, ◌∙◌, ap, sym, true, false, none, List, [],
  ◌∷◌, arith, bit_and, word_mod, add64, sub64, ◌==◌, Bool-cases, length, get_elem?, set, push_back,
  length-append, length-set, get_elem?-set_self, get_elem?-set_ne, get_elem?-append_left,
  get_elem?-append_end, mask_of_wrapped, mod_ne,
}
use native.Mathlib.Decide.{dec_lt}
use native.Mathlib.Nat.{pow-le-pow_right}
use green_turtle.MessageQueue.{Queue, push, pop}

-- The array has `2 ^ k` slots, and the mask selects among them.
pub record Shape {ℓ} {A : Type ℓ} (k : ℕ) (q : Queue A) : Type 0 where
  pub pow : q.size ≡ 2 ^ k
  pub small : k ≤ 63
  pub positive : 2 ≤ q.size
  pub masked : q.mask ≡ q.size - 1
  pub slots : length q.array ≡ q.size

-- `pushed` is everything pushed so far, and the first `n` of it have been popped.
pub record Track {ℓ} {A : Type ℓ} (q : Queue A) (pushed : List A) (n : ℕ) : Type ℓ where
  pub read : q.read_idx ≡ n % word_mod
  pub write : q.write_idx ≡ length pushed % word_mod
  pub behind : n ≤ length pushed
  pub room : length pushed - n ≤ q.mask
  pub held :
      (i : ℕ) → n ≤ i → i < length pushed → get_elem? q.array (i % q.size) ≡ get_elem? pushed i

module _ {ℓ} {A : Type ℓ} {k : ℕ} {q : Queue A} (shape : Shape k q) where
  -- A counter selects its slot, and it is inside the array.
  pub slot_of : (i : ℕ) → bit_and (i % word_mod) q.mask ≡ i % q.size
  slot_of i =
      let e : q.mask ≡ 2 ^ k - 1 = omega (arith, shape.masked, shape.pow) in
      rw (e, shape.pow) (mask_of_wrapped k i (omega (arith, shape.small)))

  pub slot_in : (i : ℕ) → i % q.size < length q.array
  slot_in i = omega (arith, shape.slots, shape.positive)

  -- The capacity is below `2 ^ 64`, so that a wrapped difference tells a full ring from others.
  pub mask_small : q.mask < word_mod
  mask_small =
      omega (arith, shape.masked, shape.pow, pow-le-pow_right {n = 2} (omega arith) shape.small)

module _ {ℓ} {A : Type ℓ} {q : Queue A} {pushed : List A} {n : ℕ} (track : Track q pushed n) where
  pub sub64_counters : q.mask < word_mod → sub64 q.write_idx q.read_idx ≡ length pushed - n
  sub64_counters small = omega (arith, track.read, track.write, track.behind, track.room)

-- Writing the slot of the next counter extends what is held by that value.
pub held-set {ℓ} :
    {A : Type ℓ} (array pushed : List A) (size n : ℕ) (v : A)
    → length pushed % size < length array
    → length pushed - n < size
    → ((i : ℕ) → n ≤ i → i < length pushed → get_elem? array (i % size) ≡ get_elem? pushed i)
    → (i : ℕ) → n ≤ i
    → i < length (push_back pushed v)
    → get_elem? (set array (length pushed % size) v) (i % size) ≡ get_elem? (push_back pushed v) i
held-set array pushed size n v inside room held i from below = elim (dec_lt i (length pushed)) [
  | yes old ↦
      get_elem?-set_ne array (length pushed % size) (i % size) v
        (λ e. mod_ne i (length pushed) size old (omega arith) (sym e))
      ∙ held i from old
      ∙ sym (get_elem?-append_left pushed (v ∷ []) i old)
  | no new ↦
      let e : i ≡ length pushed = omega (arith, length-append pushed (v ∷ [])) in
      rw e (
        get_elem?-set_self array (length pushed % size) v inside
        ∙ sym (get_elem?-append_end pushed v []))
]

module _ {ℓ} {A : Type ℓ} (q : Queue A) where
  -- The queue after a value was stored and the write counter moved on.
  abbrev pub stored : A → Queue A
  stored v = record q {
    array = set q.array (bit_and q.write_idx q.mask) v;
    write_idx = add64 q.write_idx 1;
  }

  -- The queue after the read counter moved on.
  abbrev pub taken : Queue A
  taken = record q { read_idx = add64 q.read_idx 1 }

module _ {ℓ} {A : Type ℓ} {q : Queue A} where
  pub taken-Track :
      {pushed : List A} {n : ℕ}
      → Track q pushed n
      → n < length pushed
      → Track (taken q) pushed (n + 1)
  taken-Track track more = record {
    read = omega (arith, track.read);
    write = track.write;
    behind = omega arith;
    room = omega (arith, track.room);
    held = λ i from below. track.held i (omega arith) below;
  }

module _ {ℓ} {A : Type ℓ} {k : ℕ} {q : Queue A} where
  pub taken-Shape : Shape k q → Shape k (taken q)
  taken-Shape shape = record {
    pow = shape.pow;
    small = shape.small;
    positive = shape.positive;
    masked = shape.masked;
    slots = shape.slots;
  }

  pub stored-Shape : (v : A) → Shape k q → Shape k (stored q v)
  stored-Shape v shape = record {
    pow = shape.pow;
    small = shape.small;
    positive = shape.positive;
    masked = shape.masked;
    slots = length-set q.array (bit_and q.write_idx q.mask) v ∙ shape.slots;
  }

  pub stored-Track :
      {pushed : List A} {n : ℕ} (v : A)
      → Shape k q
      → Track q pushed n
      → length pushed - n < q.mask
      → Track (stored q v) (push_back pushed v) n
  stored-Track {pushed} {n} v shape track room =
      let slot : bit_and q.write_idx q.mask ≡ length pushed % q.size =
        ap (λ t. bit_and t q.mask) track.write ∙ slot_of shape (length pushed) in
      let longer = length-append pushed (v ∷ []) in
      record {
        read = track.read;
        write = omega (arith, track.write, longer);
        behind = omega (arith, track.behind, longer);
        room = omega (arith, track.behind, longer);
        held = rw slot (
            held-set q.array pushed q.size n v (slot_in shape (length pushed))
              (omega (arith, shape.masked)) track.held);
      }

-- `push` refuses exactly at `size - 1` values, and otherwise appends to the history.
pub push_fifo {ℓ} :
    {A : Type ℓ} {k : ℕ} {q : Queue A} {pushed : List A} {n : ℕ} (v : A)
    → Shape k q
    → Track q pushed n
    → ((length pushed - n ≡ q.size - 1) × (push q v ≡ (false, q)))
      ⊎ ((length pushed - n < q.size - 1)
          × ((push q v).0 ≡ true)
          × Shape k (push q v).1
          × Track (push q v).1 (push_back pushed v) n)
unfolding push
push_fifo {q = q} {pushed = pushed} {n = n} v shape track =
    let held = sub64_counters track (mask_small shape) in
    elim (Bool-cases (sub64 q.write_idx q.read_idx == q.mask)) [
      | inl full ↦ inl (ground (arith, shape.masked), rw full)
      | inr free ↦
          let room : length pushed - n < q.mask = ground (arith, track.room) in
          inr (
            omega (arith, shape.masked),
            rw free,
            rw free (stored-Shape v shape),
            rw free (stored-Track v shape track room),
          )
    ]

-- `pop` fails exactly when everything pushed was popped, and otherwise returns the oldest value
-- that was not.
pub pop_fifo {ℓ} :
    {A : Type ℓ} {k : ℕ} {q : Queue A} {pushed : List A} {n : ℕ}
    → Shape k q
    → Track q pushed n
    → ((n ≡ length pushed) × (pop q ≡ (false, none, q)))
      ⊎ ((n < length pushed)
          × ((pop q).0 ≡ true)
          × ((pop q).1 ≡ get_elem? pushed n)
          × Shape k (pop q).2
          × Track (pop q).2 pushed (n + 1))
unfolding pop
pop_fifo {q = q} {pushed = pushed} {n = n} shape track =
    let held = sub64_counters track (mask_small shape) in
    elim (Bool-cases (q.read_idx == q.write_idx)) [
      | inl empty ↦ inl (
        ground (arith, track.behind, track.read, track.write, track.room, mask_small shape),
        rw empty,
      )
      | inr some_left ↦
          let more : n < length pushed = ground (arith, track.behind, track.read, track.write) in
          let slot : bit_and q.read_idx q.mask ≡ n % q.size =
            ap (λ t. bit_and t q.mask) track.read ∙ slot_of shape n in
          inr (
            more,
            rw some_left,
            rw some_left (rw slot (track.held n (omega arith) more)),
            rw some_left (taken-Shape shape),
            rw some_left (taken-Track track more),
          )
    ]
