-- ===== src/Kv/MessageLoop/Answers.antt =====
-- What `DispatchMessage` of message_loop.cc answers, for every opcode.
use green_turtle.Base.{
  ℕ, zero, suc, ◌+◌, Bool, true, false, Option, none, some, List, [], ◌∷◌, length,
}
use green_turtle.Kv.Protocol.{MessageHead, decode_string}
use green_turtle.Kv.MessageLoop.{
  Command, version, noop, get, set, del, append, inc, dec, flush, unknown, Item, int32, str, Reply,
  version_text, items_size,
}

-- The strings of a request that its case reads, and the body of its answer, if it has one. They are
-- those of protocol.h, but for SET, whose request has one string there.
abbrev pub strings_of : Command → ℕ
strings_of version = 0
strings_of noop = 0
strings_of get = 1
strings_of set = 2
strings_of del = 1
strings_of append = 2
strings_of inc = 1
strings_of dec = 1
strings_of flush = 0
strings_of unknown = 0

abbrev pub answer_of : Command → Option (List Item)
answer_of version = some (int32 (length version_text) ∷ str version_text ∷ [])
answer_of noop = some []
answer_of get = some (str [] ∷ [])
answer_of set = some []
answer_of del = some []
answer_of append = some []
answer_of inc = some (str [] ∷ [])
answer_of dec = some (str [] ∷ [])
answer_of flush = some []
answer_of unknown = none

-- Whether so many strings can be read, one after the other.
abbrev pub readable : ℕ → List ℕ → Bool
readable zero bytes = true
readable (suc n) bytes = elim (decode_string bytes) [ none ↦ false | some r ↦ readable n r.1 ]

-- The answer: the opcode and the sequence number are those of the request, and the length is that
-- of the head and the body.
abbrev pub answers : MessageHead → Option (List Item) → List Reply
answers req none = []
answers req (some body) =
    record {
      length_field = 12 + items_size body;
      magic = 129;
      opcode = req.opcode;
      affinity = 0;
      seq = req.seq;
      body = body;
    }
    ∷ []
