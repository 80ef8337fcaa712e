-- ===== src/Net/BufferedSocket/Stream.antt =====
-- What `SendMessage` and `OnWrite` of buffered_socket.cc put on the wire.
use green_turtle.Base.{
  ℕ, ◌+◌, ◌-◌, ◌^◌, ◌≤◌, ◌<◌, ◌≡◌, refl, sym, ap, ◌∙◌, false, Option, none, some, List, [], ◌∷◌,
  ◌++◌, map, arith, ltb, ◌==◌, if◌then◌else◌, length, drop, Bool-cases, ==_iff, inl, inr,
  length-append, append-nil, append_assoc,
}
use green_turtle.Buffer.{Buffer, readable_length, has_read}
use green_turtle.Buffer.Bytes.{IsValid, contents, length-contents, append_lem, retrieve_lem}
use green_turtle.Buffer.Reads.{has_read_lem}
use green_turtle.Net.SocketOption.{eagain, transfer_result}
use green_turtle.Net.BufferedSocket.{
  Status, ok, err, Socket, retrieve_size, has_data, append_all, after_write, on_sent, on_write,
}

abbrev pub concat : List (List ℕ) → List ℕ
concat [] = []
concat (m ∷ ms) = m ++ concat ms

pub concat-append : (ms ns : List (List ℕ)) → concat (ms ++ ns) ≡ concat ms ++ concat ns
concat-append [] ns = refl
concat-append (m ∷ ms) ns =
    ap (λ l. m ++ l) (concat-append ms ns) ∙ sym (append_assoc m (concat ms) (concat ns))

pub bytes-append :
    (xs ys : List ℕ) → map (λ x. some x) (xs ++ ys) ≡ map (λ x. some x) xs ++ map (λ x. some x) ys
bytes-append [] ys = refl
bytes-append (x ∷ xs) ys = ap (λ l. some x ∷ l) (bytes-append xs ys)

abbrev pub cells : List ℕ → List (Option ℕ)
cells xs = map some xs

-- The bytes that are still to be sent, in order.
abbrev pub pending : Socket → List (Option ℕ)
pending s = contents s.snd_buffer ++ cells (concat s.snd_messages)

-- The buffer is valid, and the queued messages fit in what an `int` counts.
pub record IsReady (s : Socket) (more : ℕ) : Type 0 where
  pub valid : IsValid s.snd_buffer
  pub fits : s.snd_buffer.write + length (concat s.snd_messages) + more < 2 ^ 31

pub append_all_lem :
    (ms : List (List ℕ)) (b : Buffer)
    → IsValid b
    → b.write + length (concat ms) < 2 ^ 31
    → (c : Buffer) × (append_all b ms ≡ some c)
      × IsValid c
      × (contents c ≡ contents b ++ cells (concat ms))
      × (c.write ≡ b.write + length (concat ms))
unfolding append_all
append_all_lem [] b valid small = (b, refl, valid, sym (append-nil (contents b)), omega arith)
append_all_lem (m ∷ ms) b valid small =
    let longer = length-append m (concat ms) in
    let (c, done, kept, bytes, _, write) = append_lem b m valid (omega arith) in
    let (d, rest, kept', bytes', write') = append_all_lem ms c kept (omega arith) in
    (
      d,
      rw (done, append_all) rest,
      kept',
      bytes'
          ∙ ap (λ l. l ++ cells (concat ms)) bytes
          ∙ append_assoc (contents b) (cells m) (cells (concat ms))
          ∙ ap (λ l. contents b ++ l) (sym (bytes-append m (concat ms))),
      omega arith,
    )

write-has_read : (b : Buffer) (n : ℕ) → (has_read b n).write ≡ b.write
unfolding has_read
write-has_read b n = refl

after_write_lem :
    (s : Socket) (n : ℕ)
    → IsValid s.snd_buffer
    → n ≤ length (contents s.snd_buffer)
    → (t : Socket) × (after_write s n ≡ some t)
      × IsValid t.snd_buffer
      × (contents t.snd_buffer ≡ drop n (contents s.snd_buffer))
      × (t.snd_buffer.write ≤ s.snd_buffer.write)
      × (t.snd_messages ≡ s.snd_messages)
unfolding after_write
after_write_lem s n valid small =
    let enough : n ≤ s.snd_buffer.write - s.snd_buffer.read =
      rw (length-contents s.snd_buffer valid) at small in
    let (kept, bytes) = has_read_lem s.snd_buffer n valid enough in
    let read = has_read s.snd_buffer n in
    let same : read.write ≡ s.snd_buffer.write = write-has_read s.snd_buffer n in
    elim (Bool-cases (ltb (readable_length read) retrieve_size)) [
      | inl few ↦
          let (c, done, kept', bytes', _, write, _) = retrieve_lem read kept in
          (
            record s { snd_buffer = c },
            rw few (rw (done, after_write)),
            kept',
            bytes' ∙ bytes,
            omega arith,
            refl,
          )
      | inr many ↦ (record s { snd_buffer = read }, rw many, kept, bytes, omega arith, refl)
    ]

-- How many bytes a call of `write` took, and what the handler then returns.
abbrev pub taken : Option ℕ → ℕ
taken none = 0
taken (some n) = n

abbrev pub reply : Option ℕ → ℕ → Status
reply none error_no = if error_no == eagain then ok else err
reply (some n) error_no = ok

abbrev pub accepted : Socket → Option ℕ → ℕ
accepted s result = if has_data s then taken result else 0

abbrev pub status_of : Socket → Option ℕ → ℕ → Status
status_of s result error_no = if has_data s then reply result error_no else ok

pending-no_data : (s : Socket) → IsValid s.snd_buffer → has_data s ≡ false → pending s ≡ []
unfolding has_data readable_length
pending-no_data s valid h = no_messages s.snd_messages refl
  where
    unread : s.snd_buffer.write - s.snd_buffer.read ≡ 0
    unread = ground arith

    no_messages : (ms : List (List ℕ)) → s.snd_messages ≡ ms → pending s ≡ []
    no_messages [] e = rw (e, unread)
    no_messages (m ∷ ms) e = ground arith

on_sent_lem :
    (s : Socket) (result : Option ℕ) (error_no : ℕ)
    → IsValid s.snd_buffer
    → taken result ≤ length (contents s.snd_buffer)
    → (t : Socket) × (on_sent s (transfer_result result error_no) ≡ some (reply result error_no, t))
      × IsValid t.snd_buffer
      × (contents t.snd_buffer ≡ drop (taken result) (contents s.snd_buffer))
      × (t.snd_buffer.write ≤ s.snd_buffer.write)
      × (t.snd_messages ≡ s.snd_messages)
unfolding on_sent transfer_result
on_sent_lem s none error_no valid h = elim (Bool-cases (error_no == eagain)) [
  | inl again ↦ (s, rw again, valid, refl, omega arith, refl)
  | inr broken ↦ (s, rw broken, valid, refl, omega arith, refl)
]
on_sent_lem s (some n) error_no valid h = elim (Bool-cases (n == 0)) [
  | inl nothing ↦
      let e : n ≡ 0 = (==_iff n 0).0 nothing in (s, rw nothing, valid, rw e, omega arith, refl)
  | inr some_sent ↦
      let (t, done, kept, bytes, write, messages) = after_write_lem s n valid h in
      (t, rw some_sent (rw (done, on_sent)), kept, bytes, write, messages)
]

-- `OnWrite` succeeds, loses nothing and keeps the order: what is then to be sent is what was, less
-- the bytes that the system took. It fails exactly where `write` does, but for EAGAIN.
pub on_write_lem :
    (s : Socket) (result : Option ℕ) (error_no more : ℕ)
    → IsReady s more
    → taken result ≤ length (pending s)
    → (t : Socket) × (on_write s result error_no ≡ some (status_of s result error_no, t))
      × IsReady t more
      × (pending t ≡ drop (accepted s result) (pending s))
unfolding on_write
on_write_lem s result error_no more ready h = elim (Bool-cases (has_data s)) [
  | inr idle ↦ (s, rw idle, ready, rw idle)
  | inl busy ↦
      let (b, done, kept, bytes, write) =
        append_all_lem s.snd_messages s.snd_buffer ready.valid (omega (arith, ready.fits)) in
      let s' = record s { snd_messages = []; tmp_messages = s.snd_messages; snd_buffer = b } in
      let (t, sent, kept', bytes', write', messages) =
        on_sent_lem s' result error_no kept (rw bytes h) in
      (
        t,
        rw busy (rw (done, on_write) sent),
        record { valid = kept'; fits = rw messages (omega (arith, ready.fits)) },
        rw (messages, busy)
            (append-nil (contents t.snd_buffer) ∙ bytes' ∙ ap (drop (taken result)) bytes),
      )
]
