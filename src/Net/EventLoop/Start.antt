-- ===== src/Net/EventLoop/Start.antt =====
-- What `InitEventLoop` of event_loop.cc starts with.
use green_turtle.Base.{
  ℕ, zero, suc, ◌+◌, ◌-◌, ◌*◌, ◌/◌, ◌≤◌, ◌<◌, ◌≡◌, refl, sym, ap, ap₂, subst, ◌^◌, ◌∙◌, Option,
  some, lt→ltb, List, [], ◌∷◌, ◌++◌, arith, length,
}
use native.Mathlib.Nat.{lt-div-mul-add}
use green_turtle.Net.Balance.{next_loop, next_loop-lt, turn-zero, dealt, dealt-next}
use green_turtle.Net.EventLoop.{
  IoLoop, EventLoop, size_per_thread, new_loops, distribute, init_event_loop,
}

pub length-new_loops : (size : Option ℕ) (idx count : ℕ) → length (new_loops size idx count) ≡ count
unfolding new_loops
length-new_loops size idx zero = refl
length-new_loops size idx (suc count) = ap suc (length-new_loops size (suc idx) count)

distribute_lem :
    (hs : List ℕ) (loops idx : ℕ) → idx < loops → distribute loops idx hs ≡ dealt loops idx 0 hs
unfolding distribute
distribute_lem [] loops idx h = refl
distribute_lem (x ∷ hs) loops idx h =
    ap (λ l. (x, idx) ∷ l)
      (distribute_lem hs loops (next_loop loops idx) (next_loop-lt loops idx h)
        ∙ dealt-next loops idx 0 hs h)
    ∙ ap (λ i. (x, i) ∷ dealt loops idx 1 hs) (sym (turn-zero loops idx h))

enough_for_all :
    (expected threads : ℕ) → 0 < threads → expected ≤ (expected + threads - 1) / threads * threads
enough_for_all expected threads pos =
    let bound = lt-div-mul-add {a = expected + threads - 1} pos in omega (arith, bound)

-- Every loop expects so many handlers.
abbrev pub AllSized : ℕ → List IoLoop → Type 0
AllSized size [] = Unit
AllSized size (l ∷ ls) = (l.expected_size ≡ some size) × AllSized size ls

new_loops-AllSized : (size idx count : ℕ) → AllSized size (new_loops (some size) idx count)
unfolding new_loops
new_loops-AllSized size idx zero = tt
new_loops-AllSized size idx (suc count) = (refl, new_loops-AllSized size (suc idx) count)

-- From no loops and a positive thread count, which with the expected handlers is less than 2^31:
-- there is one loop for each thread, all of one size, together they are large enough for the
-- expected handlers, and the handlers are dealt to them in turn, from loop 0 on; none is kept for
-- later.
pub init_event_loop_lem :
    (e : EventLoop)
    → e.loops ≡ []
    → 0 < e.thread_count
    → e.expected_size + e.thread_count < 2 ^ 31
    → (length (init_event_loop e).0.loops ≡ e.thread_count)
      × (size : ℕ) × AllSized size (init_event_loop e).0.loops
      × (e.expected_size ≤ size * e.thread_count)
      × ((init_event_loop e).1 ≡ dealt e.thread_count 0 0 e.handlers)
      × ((init_event_loop e).0.handlers ≡ [])
unfolding init_event_loop size_per_thread
init_event_loop_lem e fresh pos small =
    let size = (e.expected_size + e.thread_count - 1) / e.thread_count in
    let sized : size_per_thread e ≡ some size =
      rw (lt→ltb (e.expected_size + e.thread_count) (2 ^ 31) small) refl in
    let all : e.loops ++ new_loops (size_per_thread e) 0 e.thread_count
        ≡ new_loops (some size) 0 e.thread_count =
      ap₂ (λ l s. l ++ new_loops s 0 e.thread_count) fresh sized in
    let count : length (e.loops ++ new_loops (size_per_thread e) 0 e.thread_count)
        ≡ e.thread_count =
      ap length all ∙ length-new_loops (some size) 0 e.thread_count in
    (
      count,
      size,
      subst (AllSized size) (sym all) (new_loops-AllSized size 0 e.thread_count),
      enough_for_all e.expected_size e.thread_count pos,
      ap (λ n. distribute n 0 e.handlers) count ∙ distribute_lem e.handlers e.thread_count 0 pos,
      refl,
    )
