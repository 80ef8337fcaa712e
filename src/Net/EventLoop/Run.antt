-- ===== src/Net/EventLoop/Run.antt =====
-- `EventLoop::Run` of green_turtle/net/event_loop.cc: the main thread, that turns the timers and tells
-- of the connections that came and went. Another thread, or the callback, asks for what it wants
-- between two updates.
pub mod Passes
pub mod Whole
pub mod Threads
use green_turtle.Base.{
  ℕ, zero, suc, ◌+◌, ◌-◌, Bool, Option, none, some, List, [], ◌∷◌, sub64, ltb, if◌then◌else◌,
  get_elem?,
}
use green_turtle.Net.TimerQueue.{World}
use green_turtle.Net.TimerQueue
use green_turtle.Net.ConnManager.{ConnManager, add_conn, remove_conn}
use green_turtle.Net.ConnManager
use green_turtle.Net.EventLoop.{IoLoop, EventLoop, terminal, init_event_loop}

-- `AddConn` and `RemoveConn`, by the handler.
pub data Request : Type 0 where
  came left : ℕ → Request

-- What a pass of the main loop meets: the clock, three times; what `loop_once_` does to the timers;
-- what is asked of the connections since the last update; and whether `Terminal` is called.
pub record Pass : Type 0 where
  pub message_begin : ℕ
  pub now : ℕ
  pub process_end : ℕ
  pub loop_once : World → World
  pub requests : List Request
  pub stop : Bool

pub record MainLoop : Type 0 where
  pub event_loop : EventLoop
  pub world : World
  pub manager : ConnManager

-- What a pass tells of, and how many milliseconds it waits.
pub record Report : Type 0 where
  pub added : List ℕ
  pub removed : List ℕ
  pub pause : ℕ

-- `if (cost < 20) System::Yield(20 - cost)`
unfoldable pub pause_after : ℕ → ℕ → ℕ
pause_after message_begin process_end =
    let cost = sub64 process_end message_begin in if ltb cost 20 then 20 - cost else 0

-- The loop that each thread of `InitThreads` runs.
unfoldable pub init_threads : List IoLoop → ℕ → ℕ → List (Option IoLoop)
init_threads loops i zero = []
init_threads loops i (suc count) = get_elem? loops i ∷ init_threads loops (suc i) count

-- Where `Run` stands when the passes are used up: in its loop, in a `join`, or behind the last.
pub data Ending : Type 0 where
  goes_on returns : Ending
  waits_for : ℕ → Ending

-- The joins, from thread `i` on. A thread ends if its loop is told to end, and else its `join` does
-- not return.
unfoldable pub join_all : ℕ → List IoLoop → Ending
join_all i [] = returns
join_all i (l ∷ ls) = let rest = join_all (suc i) ls in if l.is_terminal then rest else waits_for i

unfoldable pub ending : EventLoop → Ending
ending e = if e.is_terminal then join_all 0 e.loops else goes_on

module _ (fd_of : ℕ → ℕ) where
  unfoldable pub ask : Request → ConnManager → ConnManager
  ask (came h) m = add_conn fd_of m h
  ask (left h) m = remove_conn fd_of m h

  unfoldable pub ask_all : List Request → ConnManager → ConnManager
  ask_all [] m = m
  ask_all (r ∷ rs) m = ask_all rs (ask r m)

module _ (on_time_out : ℕ → ℕ → World → World) (fd_of : ℕ → ℕ) where
  -- The body of the loop; `none` is a store out of range, or not enough fuel for the timers.
  unfoldable pub run_pass : ℕ → Pass → MainLoop → Option (MainLoop × Report)
  run_pass fuel p m = elim (TimerQueue.update on_time_out fuel p.now (p.loop_once m.world)) [
    | none ↦ none
    | some w ↦ elim (ConnManager.update fd_of (ask_all fd_of p.requests m.manager)) [
      | none ↦ none
      | some r ↦ some (
        record {
          event_loop = if p.stop then terminal m.event_loop else m.event_loop;
          world = w;
          manager = r.0;
        },
        record { added = r.1; removed = r.2; pause = pause_after p.message_begin p.process_end },
      )
    ]
  ]

  -- `while (!is_terminal_)`, for as many passes as are given.
  unfoldable pub run_loop : ℕ → List Pass → MainLoop → Option (MainLoop × List Report)
  run_loop fuel [] m = some (m, [])
  run_loop fuel (p ∷ ps) m =
      if m.event_loop.is_terminal then some (m, []) else elim (run_pass fuel p m) [
        | none ↦ none
        | some r ↦ elim (run_loop fuel ps r.0) [
          | none ↦ none
          | some rest ↦ some (rest.0, r.1 ∷ rest.1)
        ]
      ]

  -- `Run`: the loops of the threads, the passes, and the joins.
  unfoldable pub run :
      ℕ → List Pass → MainLoop → List (Option IoLoop) × Option (MainLoop × List Report × Ending)
  run fuel ps m =
      let e = (init_event_loop m.event_loop).0 in
      (
        init_threads e.loops 0 e.thread_count,
        elim (run_loop fuel ps (record m { event_loop = e })) [
          | none ↦ none
          | some r ↦ some (r.0, r.1, ending r.0.event_loop)
        ],
      )
