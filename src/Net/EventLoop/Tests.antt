-- ===== src/Net/EventLoop/Tests.antt =====
-- Five handlers and two threads.
use green_turtle.Base.{◌*◌, ◌≤◌, ◌≡◌, refl, [], ◌∷◌, arith, length}
use green_turtle.Net.Balance.{dealt}
use green_turtle.Net.EventLoop.{EventLoop, new_event_loop, init_event_loop}
use green_turtle.Net.EventLoop.Start.{AllSized, init_event_loop_lem}
use green_turtle.Base.{ℕ, List, map, some, true, false, length}
use green_turtle.Net.TimerQueue
use green_turtle.Net.TimerQueue.Tests.{busy, busy-Timely, nothing}
use green_turtle.Net.ConnManager.{new_manager}
use green_turtle.Net.EventLoop.Run.{Pass, MainLoop, Report, returns, came, left, run}
use green_turtle.Net.EventLoop.Run.Passes.{Fits}
use green_turtle.Net.EventLoop.Run.Whole.{Ran, made}
use green_turtle.Net.EventLoop.Run.Threads.{fresh_loops, run_lem}

abbrev five : EventLoop
five = record (new_event_loop 1024) { handlers = 10 ∷ 11 ∷ 12 ∷ 13 ∷ 14 ∷ []; thread_count = 2 }

dealt_out : dealt 2 0 0 five.handlers ≡ (10, 0) ∷ (11, 1) ∷ (12, 0) ∷ (13, 1) ∷ (14, 0) ∷ []
dealt_out = refl

init_event_loop_lem_example :
    (length (init_event_loop five).0.loops ≡ 2)
    × (size : ℕ) × AllSized size (init_event_loop five).0.loops
    × (1024 ≤ size * 2)
    × ((init_event_loop five).1 ≡ dealt 2 0 0 five.handlers)
    × ((init_event_loop five).0.handlers ≡ [])
init_event_loop_lem_example = init_event_loop_lem five refl (omega arith) (omega arith)

-- A main loop with a timer.
abbrev turning : MainLoop
turning = record { event_loop = five; world = busy; manager = new_manager }

abbrev first_pass : Pass
first_pass = record {
  message_begin = 1003;
  now = 1003;
  process_end = 1010;
  loop_once = λ w. w;
  requests = came 5 ∷ came 6 ∷ [];
  stop = false;
}

abbrev last_pass : Pass
last_pass = record first_pass { now = 1023; requests = left 5 ∷ came 7 ∷ []; stop = true }

abbrev three_passes : List Pass
three_passes = first_pass ∷ last_pass ∷ first_pass ∷ []

two_made : made false three_passes ≡ first_pass ∷ last_pass ∷ []
two_made = refl

abbrev same : ℕ → ℕ
same h = h

step_of_busy : busy.wheel.interval ≡ 2
unfolding TimerQueue.schedule_timer TimerQueue.enter_slot TimerQueue.set_timer TimerQueue.set_list
step_of_busy = refl

first_pass-Fits : Fits same 2000 3 busy.wheel.interval first_pass
first_pass-Fits = record {
  polite = λ w t. t;
  pace = λ w. refl;
  soon = omega (arith, step_of_busy);
  opened = (omega arith, (omega arith, tt));
}

last_pass-Fits : Fits same 2000 3 busy.wheel.interval last_pass
last_pass-Fits = record {
  polite = λ w t. t;
  pace = λ w. refl;
  soon = omega (arith, step_of_busy);
  opened = (omega arith, tt);
}

run_lem_example :
    let e = (init_event_loop turning.event_loop).0 in
    (need : ℕ) × (m' : MainLoop) × (rs : List Report) × ((fuel : ℕ)
      → need ≤ fuel
      → run nothing same fuel three_passes turning
        ≡ (map some (fresh_loops turning.event_loop), some (m', rs, returns)))
    × Ran 2000 3 three_passes (record turning { event_loop = e }) m' rs
run_lem_example =
    run_lem nothing (λ t time w. refl) same 2000 3 (omega arith) three_passes turning refl refl
      busy-Timely (omega (arith, step_of_busy)) tt
      (first_pass-Fits, (last_pass-Fits, (first_pass-Fits, tt)))
