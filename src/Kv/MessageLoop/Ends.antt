-- ===== src/Kv/MessageLoop/Ends.antt =====
-- When `Loop` of message_loop.cc ends, and which loops the pool has.
use green_turtle.Base.{
  ℕ, zero, suc, ◌%◌, ◌<◌, ◌≡◌, refl, ap, ◌∙◌, true, false, Option, none, some, List, [], ◌++◌,
  length, get_elem?, replicate, Option-cases, inl, inr, lt→ltb,
}
use green_turtle.BlockingQueue.{pop_all}
use green_turtle.Kv.MessageLoop.{Reply, MessageLoop, process, loop, init_pool, get_message_loop}

-- A round of a loop that is told to stop.
loop_round :
    (fuel : ℕ) (l : MessageLoop) (sent : List (ℕ × Reply))
    → l.is_terminal ≡ true
    → loop (suc fuel) l sent ≡ elim (process (pop_all l.queue l.process_queue).1) [
      | none ↦ none
      | some replies ↦
          loop fuel
            (record l { queue = (pop_all l.queue l.process_queue).2; process_queue = [] })
            (sent ++ replies)
    ]
unfolding loop
loop_round fuel l sent h =
    ap
      (λ b. elim b [
        | false ↦ some (l, sent)
        | true ↦
            let popped = pop_all l.queue l.process_queue in
            elim (process popped.1) [
              | none ↦ none
              | some replies ↦
                  loop fuel (record l { queue = popped.2; process_queue = [] }) (sent ++ replies)
            ]
      ])
      h

runs_on :
    (fuel : ℕ) (l : MessageLoop) (sent : List (ℕ × Reply))
    → l.is_terminal ≡ true
    → loop fuel l sent ≡ none
unfolding loop
runs_on zero l sent h = refl
runs_on (suc fuel) l sent h =
    let popped = pop_all l.queue l.process_queue in
    loop_round fuel l sent h ∙ elim (Option-cases (process popped.1)) [
      | inl failed ↦ rw failed refl
      | inr (replies, done) ↦
          rw done
            (runs_on fuel (record l { queue = popped.2; process_queue = [] }) (sent ++ replies) h)
    ]

stops :
    (fuel : ℕ) (l : MessageLoop) (sent : List (ℕ × Reply))
    → l.is_terminal ≡ false
    → loop (suc fuel) l sent ≡ some (l, sent)
unfolding loop
stops fuel l sent h =
    ap
      (λ b. elim b [
        | false ↦ some (l, sent)
        | true ↦
            let popped = pop_all l.queue l.process_queue in
            elim (process popped.1) [
              | none ↦ none
              | some replies ↦
                  loop fuel (record l { queue = popped.2; process_queue = [] }) (sent ++ replies)
            ]
      ])
      h

-- The flag is tested the wrong way round: a loop that is not told to stop ends at once, with its
-- requests still queued and nothing sent; one that is told to stop never ends, whatever the fuel.
pub loop_lem :
    (fuel : ℕ) (l : MessageLoop) (sent : List (ℕ × Reply))
    → (l.is_terminal ≡ false → loop (suc fuel) l sent ≡ some (l, sent))
      × (l.is_terminal ≡ true → loop fuel l sent ≡ none)
unfolding loop
loop_lem fuel l sent = (stops fuel l sent, runs_on fuel l sent)

nothing_there :
    (n i : ℕ)
    → elim (get_elem? (replicate {A = Option MessageLoop} n none) i) [ none ↦ none | some l ↦ l ]
      ≡ none
nothing_there zero i = refl
nothing_there (suc n) zero = refl
nothing_there (suc n) (suc i) = nothing_there n i

-- `Init` succeeds on an empty pool with a positive count, and then every loop of the pool is a null
-- pointer.
pub init_pool_lem :
    (loop_count index : ℕ)
    → 0 < loop_count
    → (pool : List (Option MessageLoop)) × (init_pool [] loop_count ≡ some pool)
      × (get_message_loop pool index ≡ none)
unfolding init_pool get_message_loop
init_pool_lem loop_count index pos = (
  replicate loop_count none,
  rw (lt→ltb 0 loop_count pos) refl,
  nothing_there loop_count (index % length (replicate {A = Option MessageLoop} loop_count none)),
)
