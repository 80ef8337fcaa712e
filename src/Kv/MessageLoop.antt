-- ===== src/Kv/MessageLoop.antt =====
-- kv/message_loop.{h,cc}: requests are queued for a loop, which answers them.
pub mod Answers
pub mod Ends
mod Tests
use green_turtle.Base.{
  ℕ, zero, suc, ◌+◌, ◌%◌, Bool, true, false, not, Option, none, some, List, [], ◌∷◌, ◌++◌, ltb,
  ◌==◌, if◌then◌else◌, length, get_elem?, drop, replicate, push_back,
}
use green_turtle.BlockingQueue.{push, pop_all}
use green_turtle.Kv.Protocol.{
  protocol_response, cmd_version, cmd_noop, cmd_error, cmd_get, cmd_set, cmd_del, cmd_append,
  cmd_inc, cmd_dec, cmd_flush, MessageHead, head_size, read_head, decode_string,
}

-- The cases of the switch; PROTOCOL_CMD_ERROR has none.
pub data Command : Type 0 where
  version noop get set del append inc dec flush unknown : Command

unfoldable pub command_of : ℕ → Command
command_of opcode =
    if opcode == cmd_version
    then version
    else if opcode == cmd_noop
    then noop
    else if opcode == cmd_get
    then get
    else if opcode == cmd_set
    then set
    else if opcode == cmd_del
    then del
    else if opcode == cmd_append
    then append
    else if opcode == cmd_inc
    then inc
    else if opcode == cmd_dec
    then dec
    else if opcode == cmd_flush
    then flush
    else unknown

-- What is appended to a message.
pub data Item : Type 0 where
  int8 int32 : ℕ → Item
  str : List ℕ → Item

-- The bytes that `Append(const T &)` adds: of a std::string it is the object that is copied, and not
-- its text; its size here is that of libstdc++.
unfoldable pub item_size : Item → ℕ
item_size (int8 v) = 1
item_size (int32 v) = 4
item_size (str text) = 32

unfoldable pub items_size : List Item → ℕ
items_size [] = 0
items_size (i ∷ is) = item_size i + items_size is

-- A message that is sent: the fields of its head, and what was appended.
pub record Reply : Type 0 where
  pub length_field : ℕ
  pub magic : ℕ
  pub opcode : ℕ
  pub affinity : ℕ
  pub seq : ℕ
  pub body : List Item

-- PROTOCOL_ERR_OK
abbrev error_ok : ℕ
error_ok = 0

abbrev pub version_text : List ℕ
version_text = 48 ∷ 46 ∷ 49 ∷ []

-- `head`, and `SendMessage` with it.
abbrev pub send_message : MessageHead → List Item → Reply
send_message req body = record {
  length_field = head_size + items_size body;
  magic = protocol_response;
  opcode = req.opcode;
  affinity = 0;
  seq = req.seq;
  body = body;
}

unfoldable pub send_error : MessageHead → ℕ → Reply
send_error req error = record {
  length_field = head_size + items_size (int8 error ∷ []);
  magic = protocol_response;
  opcode = cmd_error;
  affinity = 0;
  seq = req.seq;
  body = int8 error ∷ [];
}

-- The string that is read, and what is left.
unfoldable pub dispatch_command : Command → MessageHead → List ℕ → Option (List Reply)
dispatch_command version req bytes =
    some (send_message req (int32 (length version_text) ∷ str version_text ∷ []) ∷ [])
dispatch_command noop req bytes = some (send_message req [] ∷ [])
dispatch_command get req bytes = elim (decode_string bytes) [
  | none ↦ none
  | some key ↦
      let error : ℕ = error_ok in
      some (
        (if not (error == error_ok) then send_error req error else send_message req (str [] ∷ []))
        ∷ [])
]
dispatch_command set req bytes = elim (decode_string bytes) [
  | none ↦ none
  | some key ↦ elim (decode_string key.1) [
    | none ↦ none
    | some value ↦ some (send_message req [] ∷ [])
  ]
]
dispatch_command del req bytes = elim (decode_string bytes) [
  | none ↦ none
  | some key ↦ some (send_message req [] ∷ [])
]
dispatch_command append req bytes = elim (decode_string bytes) [
  | none ↦ none
  | some key ↦ elim (decode_string key.1) [
    | none ↦ none
    | some more ↦ some (send_message req [] ∷ [])
  ]
]
dispatch_command inc req bytes = elim (decode_string bytes) [
  | none ↦ none
  | some key ↦ some (send_message req (str [] ∷ []) ∷ [])
]
dispatch_command dec req bytes = elim (decode_string bytes) [
  | none ↦ none
  | some key ↦ some (send_message req (str [] ∷ []) ∷ [])
]
dispatch_command flush req bytes = some (send_message req [] ∷ [])
dispatch_command unknown req bytes = some []

-- `DispatchMessage`; `none` is a read past the end of the message, or a string of negative length.
unfoldable pub dispatch_message : List ℕ → Option (List Reply)
unfolding dispatch_command command_of
dispatch_message msg = elim (read_head msg) [
  | none ↦ none
  | some req ↦ dispatch_command (command_of req.opcode) req (drop head_size msg)
]

-- A handler and its message.
pub record Request : Type 0 where
  pub handler : ℕ
  pub msg : List ℕ

pub record MessageLoop : Type 0 where
  pub queue : List Request
  pub process_queue : List Request
  pub is_terminal : Bool

abbrev pub new_loop : MessageLoop
new_loop = record { queue = []; process_queue = []; is_terminal = false }

unfoldable pub push_message : MessageLoop → ℕ → List ℕ → MessageLoop
push_message l handler msg = record l {
  queue = (push l.queue (record { handler = handler; msg = msg })).1;
}

unfoldable pub terminal : MessageLoop → MessageLoop
terminal l = record l { is_terminal = true }

-- The replies to a batch, each with the handler that it goes to.
abbrev pub addressed : ℕ → List Reply → List (ℕ × Reply)
addressed handler [] = []
addressed handler (r ∷ rs) = (handler, r) ∷ addressed handler rs

unfoldable pub process : List Request → Option (List (ℕ × Reply))
process [] = some []
process (r ∷ rs) = elim (dispatch_message r.msg) [
  | none ↦ none
  | some replies ↦ elim (process rs) [
    | none ↦ none
    | some rest ↦ some (addressed r.handler replies ++ rest)
  ]
]

-- `Loop` with fuel: the loop, and what was sent.
unfoldable pub loop : ℕ → MessageLoop → List (ℕ × Reply) → Option (MessageLoop × List (ℕ × Reply))
loop zero l sent = none
loop (suc fuel) l sent = elim l.is_terminal [
  | false ↦ some (l, sent)
  | true ↦
      let popped = pop_all l.queue l.process_queue in
      elim (process popped.1) [
        | none ↦ none
        | some replies ↦
            loop fuel (record l { queue = popped.2; process_queue = [] }) (sent ++ replies)
      ]
]

-- `MessageLoopPool`: a unique pointer to nothing is `none`. A failed assertion is `none` too.
unfoldable pub init_pool : List (Option MessageLoop) → ℕ → Option (List (Option MessageLoop))
init_pool [] loop_count = if ltb 0 loop_count then some (replicate loop_count none) else none
init_pool (l ∷ ls) loop_count = none

-- The loop that `GetMessageLoop` refers to; `none` is a use of NULL.
unfoldable pub get_message_loop : List (Option MessageLoop) → ℕ → Option MessageLoop
get_message_loop loops index = elim (get_elem? loops (index % length loops)) [
  | none ↦ none
  | some l ↦ l
]
