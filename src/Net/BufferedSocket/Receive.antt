-- ===== src/Net/BufferedSocket/Receive.antt =====
-- `OnRead` of buffered_socket.cc: what `Decoding` is given, and what it leaves.
use green_turtle.Base.{
  ℕ, ◌+◌, ◌-◌, ◌^◌, ◌≤◌, ◌<◌, ◌≡◌, sym, ap, ◌∙◌, Option, some, List, ◌∷◌, ◌++◌, arith, add64, sub64,
  leb, ◌==◌, length, take, drop, Bool-cases, inl, inr, length-take, length-drop, take_all,
  take-append-drop, append_assoc,
}
use green_turtle.Buffer.{Buffer, writable_length, has_written}
use green_turtle.Buffer.Bytes.{
  IsValid, contents, filled, copy_lem, filled-IsValid, contents-filled, append_lem, retrieve_lem,
}
use green_turtle.Net.BufferedSocket.{ok, Socket, take_in, receive, on_read, delivered}
use green_turtle.Net.BufferedSocket.Stream.{cells, bytes-append}

-- The kernel fills the array and `HasWritten` moves the position: together they are `filled`.
filled_lem :
    (b : Buffer) (bytes : List ℕ) (n : ℕ)
    → n ≡ length bytes
    → has_written (record b { array = (filled b bytes).array }) n ≡ filled b bytes
unfolding has_written
filled_lem b bytes n e =
    ap (λ k. record b { array = (filled b bytes).array; write = add64 b.write k }) e

-- What is received is added at the end of the readable bytes, in the array and past it.
pub take_in_lem :
    (b : Buffer) (bytes : List ℕ)
    → IsValid b
    → b.size + length bytes < 2 ^ 31
    → (c : Buffer) × (take_in b bytes ≡ some c)
      × IsValid c
      × (contents c ≡ contents b ++ cells bytes)
unfolding take_in writable_length
take_in_lem b bytes valid small =
    let room = sub64 b.size b.write in
    let exact : room ≡ b.size - b.write = omega arith in
    let first = take room bytes in
    let first_length = length-take room bytes in
    let space : b.write + length first ≤ b.size = omega arith in
    let copied = copy_lem b first (omega (arith, valid.allocated)) in
    let kept = filled-IsValid b first valid space in
    let held = contents-filled b first valid space in
    elim (Bool-cases (leb room (length bytes))) [
      | inr short ↦
          let all : first ≡ bytes = take_all room bytes (ground arith) in
          (
            filled b first,
            rw (copied, take_in)
                (rw short (ap some (filled_lem b first (length bytes) (ap length (sym all))))),
            kept,
            held ∙ ap (λ l. contents b ++ cells l) all,
          )
      | inl full ↦
          let whole : room ≡ length first = ground arith in
          let there = filled_lem b first room whole in
          elim (Bool-cases (length bytes - room == 0)) [
            | inl fits ↦
                let all : first ≡ bytes = take_all room bytes (ground arith) in
                (
                  filled b first,
                  rw (copied, take_in) (rw (full, fits) (ap some there)),
                  kept,
                  held ∙ ap (λ l. contents b ++ cells l) all,
                )
            | inr over ↦
                let (c, done, kept', held', _, _) =
                  append_lem (filled b first) (drop room bytes) kept
                    (omega (arith, length-drop room bytes)) in
                (
                  c,
                  rw (copied, take_in) (rw (full, over, there) (rw (done, take_in))),
                  kept',
                  held'
                      ∙ ap (λ l. l ++ cells (drop room bytes)) held
                      ∙ append_assoc (contents b) (cells first) (cells (drop room bytes))
                      ∙ ap (λ l. contents b ++ l)
                          (sym (bytes-append first (drop room bytes))
                            ∙ ap cells (take-append-drop room bytes)),
                )
          ]
    ]

-- A decoder that ends and leaves the buffer valid.
module _ (decoding : Buffer → Option Buffer)
    (ends : (b : Buffer) → IsValid b → (c : Buffer) × (decoding b ≡ some c) × IsValid c) where
  -- Where the size of the buffer and the received bytes are together less than 2^31, and a byte or
  -- more is received, `OnRead` returns kOK and gives `Decoding` what was left of earlier reads, followed by the received bytes; what
  -- the decoder leaves is kept, at the front of the buffer, for the next read.
  pub on_read_lem :
      (s : Socket) (x : ℕ) (xs : List ℕ)
      → IsValid s.rcv_buffer
      → s.rcv_buffer.size + length (x ∷ xs) < 2 ^ 31
      → (b c : Buffer) × (t : Socket) × (on_read decoding s (delivered (x ∷ xs)) ≡ some (ok, t))
        × (contents b ≡ contents s.rcv_buffer ++ cells (x ∷ xs))
        × (decoding b ≡ some c)
        × IsValid t.rcv_buffer
        × (contents t.rcv_buffer ≡ contents c)
        × (t.rcv_buffer.read ≡ 0)
  unfolding on_read receive
  on_read_lem s x xs valid small =
      let (b, got, kept, held) = take_in_lem s.rcv_buffer (x ∷ xs) valid small in
      let (c, decoded, kept') = ends b kept in
      let (d, moved, kept'', held', front, _, _) = retrieve_lem c kept' in
      (
        b,
        c,
        record s { rcv_buffer = d },
        rw (got, receive) (rw (decoded, receive) (rw (moved, receive))),
        held,
        decoded,
        kept'',
        held',
        front,
      )
