-- ===== src/Kv/Server/Frames.antt =====
-- Which messages `Decoding` of kv/server.cc delivers, and when its loop ends.
use green_turtle.Base.{
  ℕ, zero, suc, ◌%◌, ◌^◌, ◌≤◌, ◌<◌, ◌≡◌, refl, ap₂, ◌∙◌, true, false, Option, none, some, get_elem?,
  List, [], ◌∷◌, ◌++◌, arith, leb, length, push_back, length-append, take-append_left,
  drop-append_left, lt→leb, le→leb,
}
use green_turtle.Kv.MessageLoop.{MessageLoop, init_pool, get_message_loop}
use green_turtle.Kv.MessageLoop.Ends.{init_pool_lem}
use green_turtle.Kv.Protocol.{MessageHead, head_size, read_u32, read_head}
use green_turtle.Kv.Server.{loop_index, Round, again, delivers, fails, round, decoding}

-- A whole message: its first field is its length.
pub record IsFrame (msg : List ℕ) : Type 0 where
  pub headed : head_size ≤ length msg
  pub sized : read_u32 msg ≡ some (length msg)
  pub small : length msg < 2 ^ 31

-- The beginning of a message, with its head.
pub record IsPartial (bytes : List ℕ) (msg_len : ℕ) : Type 0 where
  pub headed : head_size ≤ length bytes
  pub sized : read_u32 bytes ≡ some msg_len
  pub small : msg_len < 2 ^ 31
  pub missing : length bytes < msg_len

head_there :
    (msg : List ℕ) → head_size ≤ length msg → (head : MessageHead) × (read_head msg ≡ some head)
unfolding read_head
head_there ([]) h = absurd (omega arith)
head_there (a ∷ []) h = absurd (omega arith)
head_there (a ∷ b ∷ []) h = absurd (omega arith)
head_there (a ∷ b ∷ c ∷ []) h = absurd (omega arith)
head_there (a ∷ b ∷ c ∷ d ∷ []) h = absurd (omega arith)
head_there (a ∷ b ∷ c ∷ d ∷ m ∷ []) h = absurd (omega arith)
head_there (a ∷ b ∷ c ∷ d ∷ m ∷ o ∷ []) h = absurd (omega arith)
head_there (a ∷ b ∷ c ∷ d ∷ m ∷ o ∷ f ∷ []) h = absurd (omega arith)
head_there (a ∷ b ∷ c ∷ d ∷ m ∷ o ∷ f ∷ g ∷ []) h = absurd (omega arith)
head_there (a ∷ b ∷ c ∷ d ∷ m ∷ o ∷ f ∷ g ∷ s ∷ []) h = absurd (omega arith)
head_there (a ∷ b ∷ c ∷ d ∷ m ∷ o ∷ f ∷ g ∷ s ∷ t ∷ []) h = absurd (omega arith)
head_there (a ∷ b ∷ c ∷ d ∷ m ∷ o ∷ f ∷ g ∷ s ∷ t ∷ u ∷ []) h = absurd (omega arith)
head_there (a ∷ b ∷ c ∷ d ∷ m ∷ o ∷ f ∷ g ∷ s ∷ t ∷ u ∷ v ∷ rest) h = (_, refl)

read_first : (msg rest : List ℕ) → 4 ≤ length msg → read_u32 (msg ++ rest) ≡ read_u32 msg
unfolding read_u32
read_first ([]) rest h = absurd (omega arith)
read_first (a ∷ []) rest h = absurd (omega arith)
read_first (a ∷ b ∷ []) rest h = absurd (omega arith)
read_first (a ∷ b ∷ c ∷ []) rest h = absurd (omega arith)
read_first (a ∷ b ∷ c ∷ d ∷ m) rest h = refl

-- A pool with a loop or more, none of which is NULL.
abbrev pub AllMade : List (Option MessageLoop) → Type 0
AllMade [] = Unit
AllMade (none ∷ pool) = ⊥
AllMade (some l ∷ pool) = AllMade pool

pub record IsMade (pool : List (Option MessageLoop)) : Type 0 where
  pub some_loops : 0 < length pool
  pub made : AllMade pool

loop_there :
    (pool : List (Option MessageLoop)) (i : ℕ)
    → AllMade pool
    → i < length pool
    → (l : MessageLoop) × (get_elem? pool i ≡ some (some l))
loop_there [] i made inside = absurd (omega arith)
loop_there (none ∷ pool) i made inside = absurd made
loop_there (some l ∷ pool) zero made inside = (l, refl)
loop_there (some l ∷ pool) (suc i) made inside = loop_there pool i made (omega arith)

-- The loop that a message is given to: its affinity, modulo the number of loops.
abbrev pub index_of : List (Option MessageLoop) → List ℕ → ℕ
index_of pool msg = elim (read_head msg) [ none ↦ 0 | some head ↦ head.affinity % length pool ]

index_there :
    (pool : List (Option MessageLoop)) (msg : List ℕ)
    → IsMade pool
    → head_size ≤ length msg
    → loop_index pool msg ≡ some (index_of pool msg)
unfolding loop_index get_message_loop
index_there pool msg made headed =
    let (head, there) = head_there msg headed in
    let i = head.affinity % length pool in
    let below : i < length pool = omega (arith, made.some_loops) in
    let (l, found) = loop_there pool i made.made below in
    let got : get_message_loop pool head.affinity ≡ some l = rw (found, get_message_loop) refl in
    rw (there, got, loop_index, index_of) refl

-- The end of a round, for a message and what follows it.
abbrev deliver : List (Option MessageLoop) → List ℕ → List ℕ → Round
deliver pool msg rest = elim (loop_index pool msg) [
  | none ↦ fails
  | some index ↦ delivers index msg rest
]

round_whole :
    (pool : List (Option MessageLoop)) (msg rest : List ℕ)
    → IsFrame msg
    → round pool (msg ++ rest) ≡ deliver pool msg rest
unfolding round
round_whole pool msg rest frame =
    let longer = length-append msg rest in
    let headed : leb head_size (length (msg ++ rest)) ≡ true =
      le→leb head_size (length (msg ++ rest)) (omega (arith, frame.headed)) in
    let sized : read_u32 (msg ++ rest) ≡ some (length msg) =
      read_first msg rest (omega (arith, frame.headed)) ∙ frame.sized in
    let small : leb (2 ^ 31) (length msg) ≡ false = lt→leb (2 ^ 31) (length msg) frame.small in
    let whole : leb (length msg) (length (msg ++ rest)) ≡ true =
      le→leb (length msg) (length (msg ++ rest)) (omega arith) in
    rw (headed, sized, small, whole, round)
      (ap₂ (deliver pool) (take-append_left msg rest) (drop-append_left msg rest))

round_frame :
    (pool : List (Option MessageLoop)) (msg rest : List ℕ)
    → IsMade pool
    → IsFrame msg
    → round pool (msg ++ rest) ≡ delivers (index_of pool msg) msg rest
round_frame pool msg rest made frame =
    round_whole pool msg rest frame ∙ rw (index_there pool msg made frame.headed, deliver) refl

round_short :
    (pool : List (Option MessageLoop)) (bytes : List ℕ)
    → length bytes < head_size
    → round pool bytes ≡ again
unfolding round
round_short pool bytes short = rw (lt→leb head_size (length bytes) short)

abbrev pub joined : List (List ℕ) → List ℕ → List ℕ
joined [] rest = rest
joined (msg ∷ msgs) rest = msg ++ joined msgs rest

abbrev pub AllFrames : List (List ℕ) → Type 0
AllFrames [] = Unit
AllFrames (msg ∷ msgs) = IsFrame msg × AllFrames msgs

abbrev pub assigned : List (Option MessageLoop) → List (List ℕ) → List (ℕ × List ℕ)
assigned pool [] = []
assigned pool (msg ∷ msgs) = (index_of pool msg, msg) ∷ assigned pool msgs

-- Where fewer bytes than a head are left after the whole messages, and be it none, the loop does
-- not end: no number of rounds is enough.
pub decoding_hangs :
    (fuel : ℕ) (msgs : List (List ℕ)) (rest : List ℕ) (pool : List (Option MessageLoop))
    (before : List (ℕ × List ℕ))
    → AllFrames msgs
    → length rest < head_size
    → IsMade pool
    → decoding fuel pool (joined msgs rest) before ≡ none
unfolding decoding
decoding_hangs zero msgs rest pool before frames short pos = refl
decoding_hangs (suc fuel) [] rest pool before frames short pos =
    rw (round_short pool rest short, decoding)
      (decoding_hangs fuel [] rest pool before frames short pos)
decoding_hangs (suc fuel) (msg ∷ msgs) rest pool before frames short pos =
    rw (round_frame pool msg (joined msgs rest) pos frames.0, decoding)
      (decoding_hangs fuel msgs rest pool (push_back before (index_of pool msg, msg)) frames.1 short
        pos)

decoding-fails :
    (fuel : ℕ) (pool : List (Option MessageLoop)) (bytes : List ℕ) (before : List (ℕ × List ℕ))
    → round pool bytes ≡ fails
    → decoding fuel pool bytes before ≡ none
unfolding decoding
decoding-fails zero pool bytes before failed = refl
decoding-fails (suc fuel) pool bytes before failed = rw (failed, decoding) refl

-- With the pool that `Init` makes, a message that is whole is not delivered: its loop is NULL,
-- whatever its affinity, and `Decoding` fails there.
pub init_delivers_nothing :
    (loop_count fuel : ℕ) (msg rest : List ℕ) (before : List (ℕ × List ℕ))
    → 0 < loop_count
    → IsFrame msg
    → (pool : List (Option MessageLoop)) × (init_pool [] loop_count ≡ some pool)
      × (round pool (msg ++ rest) ≡ fails)
      × (decoding fuel pool (msg ++ rest) before ≡ none)
unfolding loop_index
init_delivers_nothing loop_count fuel msg rest before pos frame =
    let (head, there) = head_there msg frame.headed in
    let (pool, made, null) = init_pool_lem loop_count head.affinity pos in
    let nothing : loop_index pool msg ≡ none = rw (there, null, loop_index) refl in
    let failed : round pool (msg ++ rest) ≡ fails =
      round_whole pool msg rest frame ∙ rw (nothing, deliver) refl in
    (pool, made, failed, decoding-fails fuel pool (msg ++ rest) before failed)
