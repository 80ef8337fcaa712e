-- ===== src/Net/BufferedSocket/Wire.antt =====
-- The byte stream of a socket of buffered_socket.cc over any sequence of sends and writes.
use green_turtle.Base.{
  ℕ, ◌+◌, ◌≤◌, ◌≡◌, refl, sym, ap, ◌∙◌, Option, none, some, List, [], ◌∷◌, ◌++◌, arith, min, length,
  take, drop, push_back, length-append, append_assoc, append-nil, take-append-drop,
}
use green_turtle.Buffer.Bytes.{contents}
use green_turtle.Net.BufferedSocket.{Socket, send_message, append_all, on_write}
use green_turtle.Net.BufferedSocket.Stream.{
  concat, concat-append, cells, bytes-append, pending, IsReady, taken, accepted, append_all_lem,
  on_write_lem,
}

-- A message is sent, or the socket is writable: then `write` takes at most so many bytes, or fails.
pub data Event : Type 0 where
  send : List ℕ → Event
  writable : Option ℕ → ℕ → Event

-- The bytes that `OnWrite` hands to `write`.
abbrev pub offered : Socket → List (Option ℕ)
offered s = elim (append_all s.snd_buffer s.snd_messages) [ none ↦ [] | some b ↦ contents b ]

abbrev pub write_result : Socket → Option ℕ → Option ℕ
write_result s none = none
write_result s (some limit) = some (min limit (length (offered s)))

-- The bytes that went out, and the socket.
unfoldable pub run : Socket → List Event → Option (List (Option ℕ) × Socket)
run s [] = some ([], s)
run s (send m ∷ events) = run (send_message m s) events
run s (writable limit error_no ∷ events) = elim (on_write s (write_result s limit) error_no) [
  | none ↦ none
  | some r ↦ elim (run r.1 events) [
    | none ↦ none
    | some q ↦ some (take (accepted s (write_result s limit)) (offered s) ++ q.0, q.1)
  ]
]

-- All the bytes of the messages of a sequence.
abbrev pub messages : List Event → List ℕ
messages [] = []
messages (send m ∷ events) = m ++ messages events
messages (writable limit error_no ∷ events) = messages events

offered_lem : (s : Socket) (more : ℕ) → IsReady s more → offered s ≡ pending s
offered_lem s more ready =
    let (b, done, kept, bytes, write) =
      append_all_lem s.snd_messages s.snd_buffer ready.valid (omega (arith, ready.fits)) in
    rw (done, offered) bytes

taken_small : (s : Socket) (limit : Option ℕ) → taken (write_result s limit) ≤ length (offered s)
taken_small s none = omega arith
taken_small s (some limit) = omega arith

send_lem :
    (s : Socket) (m : List ℕ) (more : ℕ)
    → IsReady s (length m + more)
    → IsReady (send_message m s) more × (pending (send_message m s) ≡ pending s ++ cells m)
unfolding send_message
send_lem s m more ready =
    let all = concat-append s.snd_messages (m ∷ []) in
    let more_bytes : concat (push_back s.snd_messages m) ≡ concat s.snd_messages ++ m =
      all ∙ ap (λ l. concat s.snd_messages ++ l) (append-nil m) in
    (
      record {
        valid = ready.valid;
        fits = rw more_bytes (omega (arith, ready.fits, length-append (concat s.snd_messages) m));
      },
      rw more_bytes (
          ap (λ l. contents s.snd_buffer ++ l) (bytes-append (concat s.snd_messages) m)
          ∙ sym (append_assoc (contents s.snd_buffer) (cells (concat s.snd_messages)) (cells m))),
    )

-- Whatever is sent and however little the system takes at a time: what went out, followed by what
-- is still pending, is what was pending followed by all the messages, in order.
pub stream_intact :
    (events : List Event) (s : Socket)
    → IsReady s (length (messages events))
    → (wire : List (Option ℕ)) × (t : Socket) × (run s events ≡ some (wire, t))
      × (wire ++ pending t ≡ pending s ++ cells (messages events))
unfolding run
stream_intact [] s ready = ([], s, refl, sym (append-nil (pending s)))
stream_intact (send m ∷ events) s ready =
    let longer = length-append m (messages events) in
    let (ready', grown) =
      send_lem s m (length (messages events))
        (record { valid = ready.valid; fits = omega (arith, ready.fits) }) in
    let (wire, t, done, same) = stream_intact events (send_message m s) ready' in
    (
      wire,
      t,
      done,
      same
          ∙ ap (λ l. l ++ cells (messages events)) grown
          ∙ append_assoc (pending s) (cells m) (cells (messages events))
          ∙ ap (λ l. pending s ++ l) (sym (bytes-append m (messages events))),
    )
stream_intact (writable limit error_no ∷ events) s ready =
    let offer = offered_lem s (length (messages events)) ready in
    let result = write_result s limit in
    let rest = cells (messages events) in
    let (u, wrote, ready', left) =
      on_write_lem s result error_no (length (messages events)) ready
        (rw offer at (taken_small s limit)) in
    let (wire, t, done, same) = stream_intact events u ready' in
    (
      take (accepted s result) (offered s) ++ wire,
      t,
      rw (wrote, run) (rw (done, run)),
      append_assoc (take (accepted s result) (offered s)) wire (pending t)
          ∙ ap (λ l. take (accepted s result) (offered s) ++ l) (same ∙ ap (λ l. l ++ rest) left)
          ∙ ap (λ l. take (accepted s result) l ++ (drop (accepted s result) (pending s) ++ rest))
              offer
          ∙ sym (
              append_assoc (take (accepted s result) (pending s))
                (drop (accepted s result) (pending s)) rest)
          ∙ ap (λ l. l ++ rest) (take-append-drop (accepted s result) (pending s)),
    )
