-- ===== src/Net/BufferedSocket.antt =====
-- `BufferedSocket` of green_turtle/net/buffered_socket.{h,cc}: queued messages, a buffer for what is
-- to be sent and one for what was received.
pub mod Stream
pub mod Wire
pub mod Receive
mod Tests
use green_turtle.Base.{
  ℕ, zero, ◌-◌, Bool, true, false, not, ◌||◌, Option, none, some, List, [], ◌∷◌, ◌++◌, ltb, leb,
  ◌==◌, if◌then◌else◌, length, take, drop, push_back,
}
use green_turtle.Buffer
use green_turtle.Buffer.{
  Buffer, writable_length, readable_length, copy_in, has_written, has_read, append, retrieve,
}
pub use green_turtle.Net.EventHandler.{Status, ok, err}
use green_turtle.Net.SocketOption.{transfer_result}

-- A message is its bytes.
pub record Socket : Type 0 where
  pub snd_messages : List (List ℕ)
  pub tmp_messages : List (List ℕ)
  pub rcv_buffer : Buffer
  pub snd_buffer : Buffer

abbrev pub buffer_size : ℕ
buffer_size = 1024

abbrev pub retrieve_size : ℕ
retrieve_size = 128

abbrev pub open_socket : Socket
open_socket = record {
  snd_messages = [];
  tmp_messages = [];
  rcv_buffer = Buffer.make buffer_size;
  snd_buffer = Buffer.make buffer_size;
}

abbrev is_nil {ℓ} : {A : Type ℓ} → List A → Bool
is_nil [] = true
is_nil (x ∷ xs) = false

unfoldable pub has_data : Socket → Bool
has_data s = not (is_nil s.snd_messages) || not (readable_length s.snd_buffer == 0)

unfoldable pub send_message : List ℕ → Socket → Socket
send_message m s = record s { snd_messages = push_back s.snd_messages m }

-- The loop that appends the messages to the buffer; `none` is a copy past the end of an array.
unfoldable pub append_all : Buffer → List (List ℕ) → Option Buffer
append_all b [] = some b
append_all b (m ∷ ms) = elim (append b m) [ none ↦ none | some r ↦ append_all r.1 ms ]

-- The end of `OnWrite`, where `send_size` bytes were accepted.
unfoldable pub after_write : Socket → ℕ → Option Socket
after_write s send_size =
    let read = has_read s.snd_buffer send_size in
    if ltb (readable_length read) retrieve_size
    then elim (retrieve read) [ none ↦ none | some b ↦ some (record s { snd_buffer = b }) ]
    else some (record s { snd_buffer = read })

-- What follows the appending of the messages, by what `SocketOption::Write` returned.
unfoldable pub on_sent : Socket → Option ℕ → Option (Status × Socket)
on_sent s none = some (err, s)
on_sent s (some n) =
    if n == 0 then some (ok, s) else elim (after_write s n) [ none ↦ none | some t ↦ some (ok, t) ]

-- `OnWrite`, where `write` would return `result` with `error_no`.
unfoldable pub on_write : Socket → Option ℕ → ℕ → Option (Status × Socket)
on_write s result error_no =
    if not (has_data s) then some (ok, s) else elim (append_all s.snd_buffer s.snd_messages) [
      | none ↦ none
      | some b ↦
          on_sent (record s { snd_messages = []; tmp_messages = s.snd_messages; snd_buffer = b })
            (transfer_result result error_no)
    ]

-- What `readv` delivers: an error, or bytes that fill the buffer first and then `extrabuff`.
pub data Input : Type 0 where
  failed : ℕ → Input
  delivered : List ℕ → Input

-- The received bytes in the buffer, before they are decoded.
unfoldable pub take_in : Buffer → List ℕ → Option Buffer
take_in b bytes =
    let room = writable_length b in
    let nread = length bytes in
    elim (copy_in b (take room bytes)) [
      | none ↦ none
      | some c ↦
          if leb room nread
          then if nread - room == 0
            then some (has_written c room)
            else elim (append (has_written c room) (drop room bytes)) [
              | none ↦ none
              | some r ↦ some r.1
            ]
          else some (has_written c nread)
    ]

-- `Decoding` is the subclass's, and may not end.
module _ (decoding : Buffer → Option Buffer) where
  unfoldable pub receive : Socket → List ℕ → Option (Status × Socket)
  receive s bytes = elim (take_in s.rcv_buffer bytes) [
    | none ↦ none
    | some b ↦ elim (decoding b) [
      | none ↦ none
      | some c ↦ elim (retrieve c) [ none ↦ none | some d ↦ some (ok, record s { rcv_buffer = d }) ]
    ]
  ]

  unfoldable pub on_read : Socket → Input → Option (Status × Socket)
  on_read s (failed error_no) = elim (transfer_result none error_no) [
    | none ↦ some (err, s)
    | some n ↦ some (ok, s)
  ]
  on_read s (delivered []) = some (ok, s)
  on_read s (delivered (x ∷ xs)) = receive s (x ∷ xs)
