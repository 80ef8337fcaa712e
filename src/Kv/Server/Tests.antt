-- ===== src/Kv/Server/Tests.antt =====
-- Two messages of a head each, the second with affinity 6, for four loops.
use green_turtle.Base.{ℕ, ◌≡◌, refl, Option, none, some, List, [], ◌∷◌, ◌++◌, arith}
use green_turtle.Kv.Protocol.{read_u32, read_head}
use green_turtle.Kv.Server.{loop_index, fails, round, decoding}
use green_turtle.Kv.Server.Frames.{IsFrame, init_delivers_nothing}
use green_turtle.Kv.MessageLoop.{MessageLoop, new_loop, init_pool, get_message_loop}

abbrev first : List ℕ
first = 12 ∷ 0 ∷ 0 ∷ 0 ∷ 128 ∷ 2 ∷ 0 ∷ 0 ∷ 1 ∷ 0 ∷ 0 ∷ 0 ∷ []

abbrev second : List ℕ
second = 12 ∷ 0 ∷ 0 ∷ 0 ∷ 128 ∷ 2 ∷ 6 ∷ 0 ∷ 2 ∷ 0 ∷ 0 ∷ 0 ∷ []

-- A message of 13 bytes, of which 12 are there.
abbrev begun : List ℕ
begun = 13 ∷ 0 ∷ 0 ∷ 0 ∷ 128 ∷ 4 ∷ 0 ∷ 0 ∷ 3 ∷ 0 ∷ 0 ∷ 0 ∷ []

second-IsFrame : IsFrame second
second-IsFrame = record {
  headed = omega arith;
  sized = unfold read_u32 in refl;
  small = omega arith;
}

abbrev four : List (Option MessageLoop)
four = some new_loop ∷ some new_loop ∷ some new_loop ∷ some new_loop ∷ []

delivered :
    decoding 3 four (first ++ (second ++ begun)) [] ≡ some ((0, first) ∷ (2, second) ∷ [], begun)
unfolding decoding round loop_index get_message_loop read_u32 read_head
delivered = refl

-- With a pool from Init nothing is delivered.
init_delivers_nothing_example :
    (pool : List (Option MessageLoop)) × (init_pool [] 4 ≡ some pool)
    × (round pool (second ++ begun) ≡ fails)
    × (decoding 9 pool (second ++ begun) [] ≡ none)
init_delivers_nothing_example =
    init_delivers_nothing 4 9 second begun [] (omega arith) second-IsFrame
