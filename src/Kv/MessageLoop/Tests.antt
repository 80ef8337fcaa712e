-- ===== src/Kv/MessageLoop/Tests.antt =====
-- A request for the version with sequence number 9, and a pool of four loops.
use green_turtle.Base.{ℕ, List, [], ◌∷◌}
use green_turtle.Kv.Protocol.{MessageHead}
use green_turtle.Kv.MessageLoop.{MessageLoop, new_loop, push_message}

abbrev request : List ℕ
request = 12 ∷ 0 ∷ 0 ∷ 0 ∷ 128 ∷ 1 ∷ 0 ∷ 0 ∷ 9 ∷ 0 ∷ 0 ∷ 0 ∷ []

abbrev head : MessageHead
head = record { length_field = 12; magic = 128; opcode = 1; affinity = 0; seq = 9 }

abbrev busy : MessageLoop
busy = push_message new_loop 3 request
