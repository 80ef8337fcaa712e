-- ===== src/MessageQueue/Tests.antt =====
-- A queue of four slots, its history and its threads.
use green_turtle.Base.{
  ℕ, ◌-◌, ◌^◌, ◌≤◌, ◌<◌, ◌≡◌, ◌≢◌, ◌⊎◌, refl, true, false, none, some, List, [], ◌∷◌, arith, length,
  get_elem?,
}
use green_turtle.MessageQueue.{Queue, fresh, make, push, pop}
use green_turtle.MessageQueue.Track.{
  Shape, Track, stored, stored-Shape, stored-Track, push_fifo, pop_fifo,
}
use green_turtle.MessageQueue.Made.{make_fifo}
use green_turtle.MessageQueue.Threads.{
  produce, consume, Turn, producer_turn, consumer_turn, run, start,
}
use green_turtle.MessageQueue.Threads.Fifo.{popped_in_order}

abbrev empty : Queue ℕ
empty = fresh 0 4

empty-Shape : Shape 2 empty
empty-Shape = omega arith

empty-Track : Track empty [] 0
empty-Track = record {
  read = refl;
  write = refl;
  behind = omega arith;
  room = omega arith;
  held = λ i from below. absurd (omega arith);
}

abbrev one_held : Queue ℕ
one_held = stored empty 7

one_held-Shape : Shape 2 one_held
one_held-Shape = stored-Shape 7 empty-Shape

one_held-Track : Track one_held (7 ∷ []) 0
one_held-Track = stored-Track 7 empty-Shape empty-Track (omega arith)

make_example : make 0 4 ≡ some empty
unfolding make
make_example = refl

make_rejects : make {A = ℕ} 0 6 ≡ none
unfolding make
make_rejects = refl

wraps : (push (record empty { read_idx = 2 ^ 64 - 1; write_idx = 2 ^ 64 - 1 }) 5).1.write_idx ≡ 0
unfolding push
wraps = refl

four_made :
    ((make {A = ℕ} 0 4 ≡ none) × ((k : ℕ) → 1 ≤ k → 4 ≢ 2 ^ k))
    ⊎ ((k : ℕ) × (make 0 4 ≡ some empty) × Shape k empty × Track empty [] 0)
four_made = make_fifo {A = ℕ} 0 4 (omega arith)

push_fifo_example :
    ((length {A = ℕ} [] - 0 ≡ 3) × (push empty 7 ≡ (false, empty)))
    ⊎ ((length {A = ℕ} [] - 0 < 3)
        × ((push empty 7).0 ≡ true)
        × Shape 2 (push empty 7).1
        × Track (push empty 7).1 (7 ∷ []) 0)
push_fifo_example = push_fifo 7 empty-Shape empty-Track

pop_fifo_example :
    ((0 ≡ length {A = ℕ} (7 ∷ [])) × (pop one_held ≡ (false, none, one_held)))
    ⊎ ((0 < length {A = ℕ} (7 ∷ []))
        × ((pop one_held).0 ≡ true)
        × ((pop one_held).1 ≡ some 7)
        × Shape 2 (pop one_held).2
        × Track (pop one_held).2 (7 ∷ []) 1)
pop_fifo_example = pop_fifo one_held-Shape one_held-Track

abbrev script : List (Turn ℕ)
script =
    producer_turn 7
    ∷ consumer_turn
    ∷ producer_turn 0
    ∷ producer_turn 0
    ∷ consumer_turn
    ∷ producer_turn 0
    ∷ consumer_turn
    ∷ consumer_turn
    ∷ consumer_turn
    ∷ consumer_turn
    ∷ consumer_turn
    ∷ []

-- The consumer loads the write counter too early once, and finds the value at the next call.
script-run : (run (start empty) script).popped ≡ some 7 ∷ []
unfolding run produce consume
script-run = refl

popped_in_order_example :
    ((i : ℕ)
      → i < length (run (start empty) script).popped
      → get_elem? (run (start empty) script).popped i
        ≡ some (get_elem? (run (start empty) script).pushed i))
    × (length (run (start empty) script).popped ≤ length (run (start empty) script).pushed)
    × (length (run (start empty) script).pushed - length (run (start empty) script).popped
        ≤ (run (start empty) script).queue.size - 1)
popped_in_order_example = popped_in_order script empty-Shape empty-Track
