-- ===== src/Net/BufferedSocket/Tests.antt =====
-- A socket with one queued message, and one that receives.
use green_turtle.Base.{ℕ, ◌≡◌, refl, Option, none, some, List, [], ◌∷◌, ◌++◌, arith, drop}
use green_turtle.Buffer.{Buffer}
use green_turtle.Buffer.Bytes.{IsValid, contents}
use green_turtle.Net.SocketOption.{eagain}
use green_turtle.Net.BufferedSocket.{ok, Socket, has_data, on_write, on_read, delivered}
use green_turtle.Net.BufferedSocket.Stream.{cells, pending, IsReady, on_write_lem}
use green_turtle.Net.BufferedSocket.Wire.{Event, send, writable, run, messages, stream_intact}
use green_turtle.Net.BufferedSocket.Receive.{on_read_lem}

abbrev little : Buffer
little = record { array = none ∷ some 1 ∷ some 2 ∷ none ∷ []; write = 3; read = 1; size = 4 }

little-IsValid : IsValid little
little-IsValid = record {
  allocated = refl;
  ordered = omega arith;
  inside = omega arith;
  small = omega arith;
}

abbrev socket : Socket
socket = record {
  snd_messages = (3 ∷ 4 ∷ []) ∷ (5 ∷ []) ∷ [];
  tmp_messages = [];
  rcv_buffer = little;
  snd_buffer = little;
}

socket-IsReady : IsReady socket 9
socket-IsReady = record { valid = little-IsValid; fits = omega arith }

on_write_lem_example :
    (t : Socket) × (on_write socket (some 4) 0 ≡ some (ok, t))
    × IsReady t 9
    × (pending t ≡ drop 4 (pending socket))
unfolding has_data
on_write_lem_example = on_write_lem socket (some 4) 0 9 socket-IsReady (omega arith)

-- A full system, a write of two bytes, another message, and a write of all that is left.
abbrev session : List Event
session =
    writable none eagain ∷ writable (some 2) 0 ∷ send (6 ∷ 7 ∷ []) ∷ writable (some 100) 0 ∷ []

stream_intact_example :
    (wire : List (Option ℕ)) × (t : Socket) × (run socket session ≡ some (wire, t))
    × (wire ++ pending t ≡ pending socket ++ cells (messages session))
stream_intact_example =
    stream_intact session socket (record { valid = little-IsValid; fits = omega arith })

on_read_lem_example :
    (b c : Buffer) × (t : Socket) × (on_read some socket (delivered (8 ∷ 9 ∷ [])) ≡ some (ok, t))
    × (contents b ≡ contents little ++ cells (8 ∷ 9 ∷ []))
    × (some b ≡ some c)
    × IsValid t.rcv_buffer
    × (contents t.rcv_buffer ≡ contents c)
    × (t.rcv_buffer.read ≡ 0)
on_read_lem_example =
    on_read_lem some (λ b valid. (b, refl, valid)) socket 8 (9 ∷ []) little-IsValid (omega arith)
