-- ===== src/Net/EventLoop/Run/Passes.antt =====
-- One pass of the loop of `EventLoop::Run`.
use green_turtle.Base.{
  ℕ, ◌+◌, ◌≤◌, ◌<◌, ◌≡◌, refl, sym, ◌∙◌, some, List, [], ◌∷◌, ◌++◌, append-nil, append_assoc, arith,
  word_mod, if◌then◌else◌,
}
use green_turtle.Net.TimerQueue.{World}
use green_turtle.Net.TimerQueue
use green_turtle.Net.TimerQueue.Ends.Visits.{Timely}
use green_turtle.Net.TimerQueue.Ends.Turns.{update_ends}
use green_turtle.Net.ConnManager
use green_turtle.Net.ConnManager.{ConnManager, add_conn, remove_conn}
use green_turtle.Net.ConnManager.Held.{AllPositive, update_lem}
use green_turtle.Net.EventLoop.{terminal}
use green_turtle.Net.EventLoop.Run.{
  Request, came, left, Pass, MainLoop, Report, pause_after, ask, ask_all, run_pass,
}

-- The handlers that came, and those that left, in order.
abbrev pub came_of : List Request → List ℕ
came_of [] = []
came_of (came h ∷ rs) = h ∷ came_of rs
came_of (left h ∷ rs) = came_of rs

abbrev pub left_of : List Request → List ℕ
left_of [] = []
left_of (came h ∷ rs) = left_of rs
left_of (left h ∷ rs) = h ∷ left_of rs

-- The loop does not wait for more than 20 ms, and with a clock that does not go back a pass takes
-- at least 20 ms.
pause_after_lem :
    (message_begin process_end : ℕ)
    → (pause_after message_begin process_end ≤ 20)
      × (message_begin ≤ process_end
          → process_end < word_mod
          → message_begin + 20 ≤ process_end + pause_after message_begin process_end)
unfolding pause_after
pause_after_lem message_begin process_end = (ground arith, λ a b. ground arith)

module _ (fd_of : ℕ → ℕ) where
  AllPositive-append :
      (hs ks : List ℕ) → AllPositive fd_of hs → AllPositive fd_of ks → AllPositive fd_of (hs ++ ks)
  AllPositive-append [] ks a b = b
  AllPositive-append (h ∷ hs) ks a b = (a.0, AllPositive-append hs ks a.1 b)

  add_handlers-ask_all :
      (rs : List Request) (m : ConnManager)
      → (ask_all fd_of rs m).add_handlers ≡ m.add_handlers ++ came_of rs
  unfolding ask_all ask add_conn remove_conn
  add_handlers-ask_all [] m = sym (append-nil m.add_handlers)
  add_handlers-ask_all (came h ∷ rs) m =
      add_handlers-ask_all rs (add_conn fd_of m h)
      ∙ append_assoc m.add_handlers (h ∷ []) (came_of rs)
  add_handlers-ask_all (left h ∷ rs) m = add_handlers-ask_all rs (remove_conn fd_of m h)

  remove_handlers-ask_all :
      (rs : List Request) (m : ConnManager)
      → (ask_all fd_of rs m).remove_handlers ≡ m.remove_handlers ++ left_of rs
  unfolding ask_all ask add_conn remove_conn
  remove_handlers-ask_all [] m = sym (append-nil m.remove_handlers)
  remove_handlers-ask_all (came h ∷ rs) m = remove_handlers-ask_all rs (add_conn fd_of m h)
  remove_handlers-ask_all (left h ∷ rs) m =
      remove_handlers-ask_all rs (remove_conn fd_of m h)
      ∙ append_assoc m.remove_handlers (h ∷ []) (left_of rs)

-- What a pass must meet: a callback that keeps the timers fit and the frame time, a clock that stays
-- before the limit, and descriptors that are positive.
pub record Fits (fd_of : ℕ → ℕ) (limit longest interval : ℕ) (p : Pass) : Type 0 where
  pub polite : (w : World) → Timely limit longest w → Timely limit longest (p.loop_once w)
  pub pace : (w : World) → (p.loop_once w).wheel.interval ≡ w.wheel.interval
  pub soon : p.now + interval + interval + longest ≤ limit
  pub opened : AllPositive fd_of (came_of p.requests)

-- The loop and its report after a pass, from those before.
pub record After (limit longest : ℕ) (p : Pass) (m m' : MainLoop) (r : Report) : Type 0 where
  pub timely : Timely limit longest m'.world
  pub pace : m'.world.wheel.interval ≡ m.world.wheel.interval
  pub past : p.now + m.world.wheel.interval ≤ m'.world.wheel.last_update_time
  pub added : r.added ≡ m.manager.add_handlers ++ came_of p.requests
  pub removed : r.removed ≡ m.manager.remove_handlers ++ left_of p.requests
  pub none_added : m'.manager.add_handlers ≡ []
  pub none_removed : m'.manager.remove_handlers ≡ []
  pub told : m'.event_loop ≡ (if p.stop then terminal m.event_loop else m.event_loop)
  pub pause : r.pause ≤ 20
  pub slow :
      p.message_begin ≤ p.process_end
      → p.process_end < word_mod
      → p.message_begin + 20 ≤ p.process_end + r.pause

module _ (on_time_out : ℕ → ℕ → World → World)
    (quiet : (t time : ℕ) (w : World) → on_time_out t time w ≡ w) (fd_of : ℕ → ℕ)
    (limit longest : ℕ) (fits : limit + limit < word_mod) where
  pass_runs :
      (fuel : ℕ) (p : Pass) (m : MainLoop) {w : World} {manager : ConnManager}
      {added removed : List ℕ}
      → TimerQueue.update on_time_out fuel p.now (p.loop_once m.world) ≡ some w
      → ConnManager.update fd_of (ask_all fd_of p.requests m.manager)
        ≡ some (manager, added, removed)
      → run_pass on_time_out fd_of fuel p m
        ≡ some (
          record {
            event_loop = if p.stop then terminal m.event_loop else m.event_loop;
            world = w;
            manager = manager;
          },
          record {
            added = added;
            removed = removed;
            pause = pause_after p.message_begin p.process_end;
          },
        )
  unfolding run_pass
  pass_runs fuel p m a b = rw (a, run_pass) (rw b refl)

  pub run_pass_lem :
      (p : Pass) (m : MainLoop)
      → Timely limit longest m.world
      → 0 < m.world.wheel.interval
      → AllPositive fd_of m.manager.add_handlers
      → Fits fd_of limit longest m.world.wheel.interval p
      → (need : ℕ) × (m' : MainLoop) × (r : Report) × ((fuel : ℕ)
          → need ≤ fuel
          → run_pass on_time_out fd_of fuel p m ≡ some (m', r))
        × After limit longest p m m' r
  run_pass_lem p m timely pos opened fit =
      let pace = fit.pace m.world in
      let (need, w, done, timely', same, past) =
        update_ends on_time_out quiet limit longest fits p.now (p.loop_once m.world)
          (fit.polite m.world timely) (rw pace pos) (rw pace fit.soon) in
      let asked = ask_all fd_of p.requests m.manager in
      let added = add_handlers-ask_all fd_of p.requests m.manager in
      let (manager, reported, _, no_add, no_remove) = update_lem fd_of asked (
        rw added (
          AllPositive-append fd_of m.manager.add_handlers (came_of p.requests) opened
            fit.opened)) in
      let (pause, slow) = pause_after_lem p.message_begin p.process_end in
      (
        need,
        record {
          event_loop = if p.stop then terminal m.event_loop else m.event_loop;
          world = w;
          manager = manager;
        },
        record {
          added = asked.add_handlers;
          removed = asked.remove_handlers;
          pause = pause_after p.message_begin p.process_end;
        },
        λ fuel enough. pass_runs fuel p m (done fuel enough) reported,
        record {
          timely = timely';
          pace = same ∙ pace;
          past = rw pace at past;
          added = added;
          removed = remove_handlers-ask_all fd_of p.requests m.manager;
          none_added = no_add;
          none_removed = no_remove;
          told = refl;
          pause = pause;
          slow = slow;
        },
      )
