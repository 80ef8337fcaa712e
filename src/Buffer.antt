-- ===== src/Buffer.antt =====
-- `Buffer` of green_turtle/buffer.h: a byte array with a read and a write position.
pub mod Reads
pub mod Bytes
mod Tests
use green_turtle.Base.{
  ℕ, ◌+◌, ◌-◌, ◌%◌, ◌^◌, Bool, Option, none, some, List, [], ◌++◌, map, ◌&&◌, add64, sub64, ltb,
  leb, ◌==◌, if◌then◌else◌, length, take, drop, replicate,
}

-- A byte of the array is indeterminate, `none`, until it is written. `size` is what the source
-- believes to be the length of the array.
pub record Buffer : Type 0 where
  pub array : List (Option ℕ)
  pub write : ℕ
  pub read : ℕ
  pub size : ℕ

unfoldable pub make : ℕ → Buffer
make init_size = record { array = replicate init_size none; write = 0; read = 0; size = init_size }

unfoldable pub capacity : Buffer → ℕ
capacity b = b.size

unfoldable pub writable_length : Buffer → ℕ
writable_length b = sub64 b.size b.write

unfoldable pub readable_length : Buffer → ℕ
readable_length b = sub64 b.write b.read

-- `int need = size - WritableLength()`: the low 32 bits, and 0 here where they make a negative
-- `int`.
unfoldable pub needed : Buffer → ℕ → ℕ
unfolding writable_length
needed b size =
    let need = sub64 size (writable_length b) % 2 ^ 32 in if ltb need (2 ^ 31) then need else 0

-- The `realloc` of `Append`; the new bytes are indeterminate.
unfoldable pub grow : Buffer → ℕ → Buffer
unfolding needed
grow b size =
    if ltb 0 (needed b size)
    then record b {
      array = b.array ++ replicate (needed b size) none;
      size = add64 b.size (needed b size);
    }
    else b

-- `memcpy` into the array; `none` is a copy past its end.
unfoldable pub copy_in : Buffer → List ℕ → Option Buffer
copy_in b bytes =
    if leb (b.write + length bytes) (length b.array)
    then some (record b {
      array = take b.write b.array ++ (map some bytes ++ drop (b.write + length bytes) b.array);
    })
    else none

unfoldable pub has_written : Buffer → ℕ → Buffer
has_written b size = record b { write = add64 b.write size }

unfoldable pub has_read : Buffer → ℕ → Buffer
has_read b size = record b { read = add64 b.read size }

-- The number of appended bytes, and the buffer.
unfoldable pub append : Buffer → List ℕ → Option (ℕ × Buffer)
append b bytes = elim (copy_in (grow b (length bytes)) bytes) [
  | none ↦ none
  | some c ↦ some (length bytes, has_written c (length bytes))
]

-- `memmove` to the front; `none` is a move of bytes past the end of the array.
unfoldable pub retrieve : Buffer → Option Buffer
unfolding readable_length
retrieve b =
    let len = readable_length b in
    if b.read == 0
    then some (record b { write = len })
    else if leb (b.read + len) (length b.array)
    then some (record b {
      array = take len (drop b.read b.array) ++ drop len b.array;
      read = 0;
      write = len;
    })
    else none
