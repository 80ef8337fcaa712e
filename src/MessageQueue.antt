-- ===== src/MessageQueue.antt =====
-- `MessageQueue` and `VolatileCounter` of green_turtle/message_queue.h: a bounded ring for one
-- producer and one consumer. The counters run over all of `uint64_t` and wrap.
pub mod Made
pub mod Track
pub mod Threads
mod Tests
use green_turtle.Base.{
  ℕ, Bool, true, false, Option, none, some, List, bit_and, add64, sub64, ltb, ◌==◌, not, ◌||◌,
  if◌then◌else◌, get_elem?, set, replicate,
}

-- The two counters are the `VolatileCounter`s `read_idx_` and `write_idx_`.
pub record Queue {ℓ} (A : Type ℓ) : Type ℓ where
  pub read_idx : ℕ
  pub write_idx : ℕ
  pub size : ℕ
  pub mask : ℕ
  pub array : List A

module _ {ℓ} {A : Type ℓ} where
  abbrev pub fresh : A → ℕ → Queue A
  fresh zero_value size = record {
    read_idx = 0;
    write_idx = 0;
    size = size;
    mask = sub64 size 1;
    array = replicate size zero_value;
  }

  -- The constructor; `zero_value` is what `new T[size]()` fills the array with, and `none` stands
  -- for a failed assertion.
  unfoldable pub make : A → ℕ → Option (Queue A)
  make zero_value size =
      if ltb size 2 || not (bit_and size (sub64 size 1) == 0)
      then none
      else some (fresh zero_value size)

  unfoldable pub push : Queue A → A → Bool × Queue A
  push q v =
      let current_write = q.write_idx in
      let current_read = q.read_idx in
      if sub64 current_write current_read == q.mask then (false, q) else (
        true,
        record q {
          array = set q.array (bit_and current_write q.mask) v;
          write_idx = add64 current_write 1;
        },
      )

  -- The option is what is moved to `v`; it is `none` for a read out of range too.
  unfoldable pub pop : Queue A → Bool × Option A × Queue A
  pop q =
      let current_write = q.write_idx in
      let current_read = q.read_idx in
      if current_read == current_write then (false, none, q) else (
        true,
        get_elem? q.array (bit_and current_read q.mask),
        record q { read_idx = add64 current_read 1 },
      )

  unfoldable pub queue_size : Queue A → ℕ
  queue_size q = sub64 q.write_idx q.read_idx

  unfoldable pub capacity : Queue A → ℕ
  capacity q = q.size
