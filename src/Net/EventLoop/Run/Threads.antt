-- ===== src/Net/EventLoop/Run/Threads.antt =====
-- `EventLoop::Run` from the start, with its threads.
use green_turtle.Base.{
  ℕ, suc, ◌+◌, ◌≤◌, ◌<◌, ◌≡◌, refl, sym, ap, ap₂, if◌then◌else◌, ◌∙◌, Bool, true, false, some, List,
  [], ◌∷◌, ◌++◌, map, append_assoc, word_mod, length, get_elem?,
}
use green_turtle.Net.TimerQueue.{World}
use green_turtle.Net.TimerQueue.Ends.Visits.{Timely}
use green_turtle.Net.ConnManager.Held.{AllPositive}
use green_turtle.Net.EventLoop.{IoLoop, EventLoop, size_per_thread, new_loops, init_event_loop}
use green_turtle.Net.EventLoop.Start.{length-new_loops}
use green_turtle.Net.EventLoop.Run.{
  Pass, MainLoop, Report, goes_on, returns, join_all, ending, init_threads, run,
}
use green_turtle.Net.EventLoop.Run.Whole.{Told, stopped, AllTold, AllFit, Ran, run_loop_lem}

get_elem?-append :
    (before : List IoLoop) (l : IoLoop) (ls : List IoLoop)
    → get_elem? (before ++ (l ∷ ls)) (length before) ≡ some l
get_elem?-append [] l ls = refl
get_elem?-append (b ∷ before) l ls = get_elem?-append before l ls

init_threads_lem :
    (before ls : List IoLoop)
    → init_threads (before ++ ls) (length before) (length ls) ≡ map some ls
unfolding init_threads
init_threads_lem before [] = refl
init_threads_lem before (l ∷ ls) =
    ap₂ (λ o os. o ∷ os) (get_elem?-append before l ls)
      (ap₂ (λ all i. init_threads all i (length ls)) (sym (append_assoc before (l ∷ []) ls))
          (length-snoc before l)
        ∙ init_threads_lem (before ++ (l ∷ [])) ls)
  where
    length-snoc : (xs : List IoLoop) (x : IoLoop) → suc (length xs) ≡ length (xs ++ (x ∷ []))
    length-snoc [] x = refl
    length-snoc (y ∷ xs) x = ap suc (length-snoc xs x)

-- The loops of the threads, from an event loop without loops.
abbrev pub fresh_loops : EventLoop → List IoLoop
fresh_loops e = new_loops (size_per_thread e) 0 e.thread_count

loops-init_event_loop : (e : EventLoop) → e.loops ≡ [] → (init_event_loop e).0.loops ≡ fresh_loops e
unfolding init_event_loop
loops-init_event_loop e fresh = ap (λ l. l ++ fresh_loops e) fresh

threads_of :
    (e : EventLoop)
    → e.loops ≡ []
    → init_threads (init_event_loop e).0.loops 0 (init_event_loop e).0.thread_count
      ≡ map some (fresh_loops e)
unfolding init_event_loop
threads_of e fresh =
    ap₂ (λ l n. init_threads l 0 n) (loops-init_event_loop e fresh)
      (sym (length-new_loops (size_per_thread e) 0 e.thread_count))
    ∙ init_threads_lem [] (fresh_loops e)

joins_return : (i : ℕ) (ls : List IoLoop) → AllTold true ls → join_all i ls ≡ returns
unfolding join_all
joins_return i [] told = refl
joins_return i (l ∷ ls) told = rw (told.0) (joins_return (suc i) ls told.1)

ending_lem :
    (e : EventLoop) (b : Bool)
    → e.is_terminal ≡ b
    → Told e
    → ending e ≡ (if b then returns else goes_on)
unfolding ending
ending_lem e true over told = rw over (joins_return 0 e.loops (told over))
ending_lem e false going told = rw going refl

module _ (on_time_out : ℕ → ℕ → World → World)
    (quiet : (t time : ℕ) (w : World) → on_time_out t time w ≡ w) (fd_of : ℕ → ℕ)
    (limit longest : ℕ) (fits : limit + limit < word_mod) where
  -- From an event loop without loops that is not ended, `Run` starts a thread on each of its new
  -- loops. Where the timers have positive intervals and next times up to a limit, what they do leaves
  -- the wheel alone, every callback keeps the timers so, the clock stays before the limit, and what
  -- comes has a positive descriptor, enough fuel makes it go on pass by pass up to the first one in
  -- which `Terminal` is called, and end there: every loop is told to end, every join returns, and so
  -- does `Run`, which goes on as long as there is no such pass. What the passes report, with what is
  -- not reported yet, is what was asked before and in the passes made, each connection once and in
  -- order.
  pub run_lem :
      (ps : List Pass) (m : MainLoop)
      → m.event_loop.loops ≡ []
      → m.event_loop.is_terminal ≡ false
      → Timely limit longest m.world
      → 0 < m.world.wheel.interval
      → AllPositive fd_of m.manager.add_handlers
      → AllFit fd_of limit longest m.world.wheel.interval ps
      → let e = (init_event_loop m.event_loop).0 in
        (need : ℕ) × (m' : MainLoop) × (rs : List Report) × ((fuel : ℕ)
          → need ≤ fuel
          → run on_time_out fd_of fuel ps m ≡ (
            map some (fresh_loops m.event_loop),
            some (m', rs, if stopped false ps then returns else goes_on),
          ))
        × Ran limit longest ps (record m { event_loop = e }) m' rs
  unfolding run init_event_loop ending
  run_lem ps m fresh going timely pos opened all =
      let e = (init_event_loop m.event_loop).0 in
      let (need, m', rs, done, ran) =
        run_loop_lem on_time_out quiet fd_of limit longest fits ps (record m { event_loop = e })
          timely pos opened (λ h. absurd (cc)) all in
      (
        need,
        m',
        rs,
        λ fuel enough.
            ap₂ (λ a b. (a, b)) (threads_of m.event_loop fresh)
              (rw (done fuel enough, run)
                (ap (λ x. some (m', rs, x))
                  (ending_lem m'.event_loop (stopped false ps)
                    (ran.ended ∙ ap (λ b. stopped b ps) going) ran.told))),
        ran,
      )
