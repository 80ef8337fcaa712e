-- ===== src/Kv/Server.antt =====
-- `IoTask::Decoding` of kv/server.cc: messages are cut from the received bytes and given to a loop.
pub mod Frames
mod Tests
use green_turtle.Base.{
  ℕ, zero, suc, ◌%◌, ◌^◌, Bool, true, false, ◌&&◌, not, Option, none, some, List, [], ◌∷◌, ltb, leb,
  ◌==◌, if◌then◌else◌, length, take, drop, push_back,
}
use green_turtle.Kv.MessageLoop.{MessageLoop, get_message_loop}
use green_turtle.Kv.Protocol.{MessageHead, head_size, read_u32, read_head}

-- The index of the loop that a message goes to, `GetMessageLoop(affinity)`; a use of NULL is
-- `none`.
unfoldable pub loop_index : List (Option MessageLoop) → List ℕ → Option ℕ
loop_index pool msg = elim (read_head msg) [
  | none ↦ none
  | some head ↦ elim (get_message_loop pool head.affinity) [
    | none ↦ none
    | some l ↦ some (head.affinity % length pool)
  ]
]

-- What one round of the loop does: it breaks, goes round again with what is left and one message
-- more, or is stuck in an error.
pub data Round : Type 0 where
  breaks : Round
  again : Round
  delivers : ℕ → List ℕ → List ℕ → Round
  fails : Round

-- A message shorter than a head is read past its end; a negative length cannot be allocated.
unfoldable pub round : List (Option MessageLoop) → List ℕ → Round
round pool bytes =
    if leb head_size (length bytes)
    then elim (read_u32 bytes) [
      | none ↦ fails
      | some msg_len ↦
          if leb (2 ^ 31) msg_len
          then fails
          else if leb msg_len (length bytes)
          then elim (loop_index pool (take msg_len bytes)) [
            | none ↦ fails
            | some index ↦ delivers index (take msg_len bytes) (drop msg_len bytes)
          ]
          else breaks
    ]
    else again

-- The delivered messages with their loops, and the bytes that are left; `none` is an error or a
-- lack of fuel.
unfoldable pub decoding :
    ℕ → List (Option MessageLoop) → List ℕ → List (ℕ × List ℕ) → Option (List (ℕ × List ℕ) × List ℕ)
decoding zero pool bytes delivered = none
decoding (suc fuel) pool bytes delivered = elim (round pool bytes) [
  | breaks ↦ some (delivered, bytes)
  | again ↦ decoding fuel pool bytes delivered
  | delivers index msg rest ↦ decoding fuel pool rest (push_back delivered (index, msg))
  | fails ↦ none
]
