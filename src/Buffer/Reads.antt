-- ===== src/Buffer/Reads.antt =====
-- Reading from a Buffer of buffer.h, and appending more than an `int` counts.
use green_turtle.Base.{
  ℕ, ◌+◌, ◌-◌, ◌%◌, ◌^◌, ◌≤◌, ◌<◌, ◌≡◌, sym, ap, ◌∙◌, none, List, arith, add64, sub64, ltb, leb,
  length, take, drop, false, lt→leb, le→ltb, drop-drop, drop-take,
}
use green_turtle.Buffer.{Buffer, writable_length, needed, grow, copy_in, has_read, append}
use green_turtle.Buffer.Bytes.{IsValid, contents}

-- `HasRead` of at most the readable bytes drops that many.
pub has_read_lem :
    (b : Buffer) (n : ℕ)
    → IsValid b
    → n ≤ b.write - b.read
    → IsValid (has_read b n) × (contents (has_read b n) ≡ drop n (contents b))
unfolding has_read
has_read_lem b n valid h =
    let at : add64 b.read n ≡ b.read + n = omega arith in
    let left : b.write - (b.read + n) ≡ b.write - b.read - n = omega arith in
    (
      record {
        allocated = valid.allocated;
        ordered = omega arith;
        inside = valid.inside;
        small = valid.small;
      },
      rw (at, left)
          (ap (take (b.write - b.read - n)) (sym (drop-drop n b.read b.array))
            ∙ sym (drop-take n (b.write - b.read) (drop b.read b.array))),
    )

-- Where the missing bytes are 2^31 or more, the `int` that counts them is not positive: the buffer
-- is not grown, and what is to be appended does not fit it.
pub grow_stays :
    (b : Buffer) (n : ℕ)
    → IsValid b
    → b.size - b.write + 2 ^ 31 ≤ n
    → n < b.size - b.write + 2 ^ 32
    → (grow b n ≡ b) × (b.size < b.write + n)
unfolding grow needed writable_length
grow_stays b n valid big below =
    let missing : sub64 n (sub64 b.size b.write) % 2 ^ 32 ≡ n - (b.size - b.write) = omega arith in
    let negative : ltb (n - (b.size - b.write)) (2 ^ 31) ≡ false =
      le→ltb (n - (b.size - b.write)) (2 ^ 31) (omega arith) in
    (rw (missing, negative), omega arith)

-- `Append` then copies past the end of the array.
pub append_past_end :
    (b : Buffer) (bytes : List ℕ)
    → IsValid b
    → b.size - b.write + 2 ^ 31 ≤ length bytes
    → length bytes < b.size - b.write + 2 ^ 32
    → (grow b (length bytes) ≡ b) × (append b bytes ≡ none)
unfolding append copy_in
append_past_end b bytes valid big below =
    let stays = (grow_stays b (length bytes) valid big below).0 in
    let outside : leb (b.write + length bytes) (length b.array) ≡ false =
      lt→leb (b.write + length bytes) (length b.array) (omega arith) in
    (stays, rw (stays, outside, append))
