-- ===== src/Net/EventLoop/Run/Whole.antt =====
-- All passes of `EventLoop::Run`.
use green_turtle.Base.{
  ℕ, ◌+◌, ◌≤◌, ◌<◌, ◌≡◌, refl, sym, ap, ap₂, ◌∙◌, subst, Bool, true, false, some, List, [], ◌∷◌,
  ◌++◌, append-nil, append_assoc, arith, word_mod, if◌then◌else◌, inl, inr, Bool-cases,
}
use green_turtle.Net.TimerQueue.{World}
use green_turtle.Net.TimerQueue.Ends.Visits.{Timely}
use green_turtle.Net.ConnManager.Held.{AllPositive}
use green_turtle.Net.EventLoop.{IoLoop, EventLoop, terminal, terminal_all}
use green_turtle.Net.EventLoop.Run.{Pass, MainLoop, Report, run_pass, run_loop}
use green_turtle.Net.EventLoop.Run.Passes.{came_of, left_of, Fits, After, run_pass_lem}

-- Every loop is told to end, or none is.
abbrev pub AllTold : Bool → List IoLoop → Type 0
AllTold b [] = Unit
AllTold b (l ∷ ls) = (l.is_terminal ≡ b) × AllTold b ls

-- Where the event loop ends, so do the loops of the threads.
abbrev pub Told : EventLoop → Type 0
Told e = e.is_terminal ≡ true → AllTold true e.loops

abbrev pub AllFit : (ℕ → ℕ) → ℕ → ℕ → ℕ → List Pass → Type 0
AllFit fd_of limit longest interval [] = Unit
AllFit fd_of limit longest interval (p ∷ ps) =
    Fits fd_of limit longest interval p × AllFit fd_of limit longest interval ps

-- The passes up to the first one in which `Terminal` is called.
abbrev pub made : Bool → List Pass → List Pass
made true ps = []
made false [] = []
made false (p ∷ ps) = p ∷ made p.stop ps

abbrev pub stopped : Bool → List Pass → Bool
stopped true ps = true
stopped false [] = false
stopped false (p ∷ ps) = stopped p.stop ps

abbrev pub all_came : List Pass → List ℕ
all_came [] = []
all_came (p ∷ ps) = came_of p.requests ++ all_came ps

abbrev pub all_left : List Pass → List ℕ
all_left [] = []
all_left (p ∷ ps) = left_of p.requests ++ all_left ps

abbrev pub all_added : List Report → List ℕ
all_added [] = []
all_added (r ∷ rs) = r.added ++ all_added rs

abbrev pub all_removed : List Report → List ℕ
all_removed [] = []
all_removed (r ∷ rs) = r.removed ++ all_removed rs

AllTold-terminal_all : (ls : List IoLoop) → AllTold true (terminal_all ls)
AllTold-terminal_all [] = tt
AllTold-terminal_all (l ∷ ls) = (refl, AllTold-terminal_all ls)

terminal-Told : (e : EventLoop) → Told (terminal e)
unfolding terminal
terminal-Told e h = AllTold-terminal_all e.loops

stop_lem :
    (b : Bool) (e e' : EventLoop)
    → e.is_terminal ≡ false
    → e' ≡ (if b then terminal e else e)
    → (e'.is_terminal ≡ b) × Told e'
unfolding terminal
stop_lem true e e' going told =
    (ap (λ (x : EventLoop). x.is_terminal) told, subst Told (sym told) (terminal-Told e))
stop_lem false e e' going told =
    (ap (λ (x : EventLoop). x.is_terminal) told ∙ going, subst Told (sym told) (λ h. absurd (cc)))

-- What was asked for before `a`, in a pass `b` and after it `c`, and what is left `d`.
regroup :
    (a b c r rest d before : List ℕ)
    → r ≡ a ++ b
    → before ≡ []
    → rest ++ d ≡ before ++ c
    → (r ++ rest) ++ d ≡ a ++ (b ++ c)
regroup a b c r rest d before x y z =
    append_assoc r rest d ∙ ap₂ (λ u v. u ++ v) x (z ∙ ap (λ u. u ++ c) y) ∙ append_assoc a b c

-- The main loop after some passes.
pub record Ran (limit longest : ℕ) (ps : List Pass) (m m' : MainLoop) (rs : List Report)
    : Type 0 where
  pub timely : Timely limit longest m'.world
  pub ended : m'.event_loop.is_terminal ≡ stopped m.event_loop.is_terminal ps
  pub told : Told m'.event_loop
  pub added :
      all_added rs ++ m'.manager.add_handlers
      ≡ m.manager.add_handlers ++ all_came (made m.event_loop.is_terminal ps)
  pub removed :
      all_removed rs ++ m'.manager.remove_handlers
      ≡ m.manager.remove_handlers ++ all_left (made m.event_loop.is_terminal ps)

add_pass :
    (limit longest : ℕ) (p : Pass) (ps : List Pass) (m one m' : MainLoop) (r : Report)
    (rs : List Report)
    → m.event_loop.is_terminal ≡ false
    → After limit longest p m one r
    → one.event_loop.is_terminal ≡ p.stop
    → Ran limit longest ps one m' rs
    → Ran limit longest (p ∷ ps) m m' (r ∷ rs)
add_pass limit longest p ps m one m' r rs going after ends ran = record {
  timely = ran.timely;
  ended = ran.ended ∙ ap (λ b. stopped b ps) ends ∙ sym (ap (λ b. stopped b (p ∷ ps)) going);
  told = ran.told;
  added =
      regroup m.manager.add_handlers (came_of p.requests) (all_came (made p.stop ps)) r.added
        (all_added rs) m'.manager.add_handlers one.manager.add_handlers after.added after.none_added
        (ran.added ∙ ap (λ b. one.manager.add_handlers ++ all_came (made b ps)) ends)
      ∙ sym (ap (λ b. m.manager.add_handlers ++ all_came (made b (p ∷ ps))) going);
  removed =
      regroup m.manager.remove_handlers (left_of p.requests) (all_left (made p.stop ps)) r.removed
        (all_removed rs) m'.manager.remove_handlers one.manager.remove_handlers after.removed
        after.none_removed
        (ran.removed ∙ ap (λ b. one.manager.remove_handlers ++ all_left (made b ps)) ends)
      ∙ sym (ap (λ b. m.manager.remove_handlers ++ all_left (made b (p ∷ ps))) going);
}

nothing_made :
    (limit longest : ℕ) (ps : List Pass) (m : MainLoop)
    → Timely limit longest m.world
    → Told m.event_loop
    → stopped m.event_loop.is_terminal ps ≡ m.event_loop.is_terminal
    → made m.event_loop.is_terminal ps ≡ []
    → Ran limit longest ps m m []
nothing_made limit longest ps m timely told same empty = record {
  timely = timely;
  ended = sym same;
  told = told;
  added =
      sym
        (ap (λ l. m.manager.add_handlers ++ all_came l) empty ∙ append-nil m.manager.add_handlers);
  removed = sym (
      ap (λ l. m.manager.remove_handlers ++ all_left l) empty
      ∙ append-nil m.manager.remove_handlers);
}

module _ (on_time_out : ℕ → ℕ → World → World) (fd_of : ℕ → ℕ) where
  loop_goes :
      (fuel : ℕ) (p : Pass) (ps : List Pass) (m : MainLoop) {m' m'' : MainLoop} {r : Report}
      {rs : List Report}
      → m.event_loop.is_terminal ≡ false
      → run_pass on_time_out fd_of fuel p m ≡ some (m', r)
      → run_loop on_time_out fd_of fuel ps m' ≡ some (m'', rs)
      → run_loop on_time_out fd_of fuel (p ∷ ps) m ≡ some (m'', r ∷ rs)
  unfolding run_loop run_pass
  loop_goes fuel p ps m going one rest = rw (going, run_loop) (rw one (rw rest refl))

  pub loop_stays :
      (fuel : ℕ) (ps : List Pass) (m : MainLoop)
      → m.event_loop.is_terminal ≡ true
      → run_loop on_time_out fd_of fuel ps m ≡ some (m, [])
  unfolding run_loop
  loop_stays fuel [] m over = refl
  loop_stays fuel (p ∷ ps) m over = rw (over, run_loop) refl

module _ (on_time_out : ℕ → ℕ → World → World)
    (quiet : (t time : ℕ) (w : World) → on_time_out t time w ≡ w) (fd_of : ℕ → ℕ)
    (limit longest : ℕ) (fits : limit + limit < word_mod) where
  pub run_loop_lem :
      (ps : List Pass) (m : MainLoop)
      → Timely limit longest m.world
      → 0 < m.world.wheel.interval
      → AllPositive fd_of m.manager.add_handlers
      → Told m.event_loop
      → AllFit fd_of limit longest m.world.wheel.interval ps
      → (need : ℕ) × (m' : MainLoop) × (rs : List Report) × ((fuel : ℕ)
          → need ≤ fuel
          → run_loop on_time_out fd_of fuel ps m ≡ some (m', rs))
        × Ran limit longest ps m m' rs
  unfolding run_loop
  run_loop_lem [] m timely pos opened told all = elim (Bool-cases m.event_loop.is_terminal) [
    | inl over ↦ (
      0,
      m,
      [],
      λ fuel enough. refl,
      nothing_made limit longest [] m timely told (rw over refl) (rw over refl),
    )
    | inr going ↦ (
      0,
      m,
      [],
      λ fuel enough. refl,
      nothing_made limit longest [] m timely told (rw going refl) (rw going refl),
    )
  ]
  run_loop_lem (p ∷ ps) m timely pos opened told all = elim (Bool-cases m.event_loop.is_terminal) [
    | inl over ↦ (
      0,
      m,
      [],
      λ fuel enough. loop_stays on_time_out fd_of fuel (p ∷ ps) m over,
      nothing_made limit longest (p ∷ ps) m timely told (rw over refl) (rw over refl),
    )
    | inr going ↦
        let (need, one, r, done, after) =
          run_pass_lem on_time_out quiet fd_of limit longest fits p m timely pos opened all.0 in
        let (ends, told') = stop_lem p.stop m.event_loop one.event_loop going after.told in
        let (need', m', rs, rest, ran) =
          run_loop_lem ps one after.timely (rw after.pace pos) (rw after.none_added tt) told'
            (rw after.pace all.1) in
        (
          need + need',
          m',
          r ∷ rs,
          λ fuel enough.
              loop_goes on_time_out fd_of fuel p ps m going (done fuel (omega arith))
                (rest fuel (omega arith)),
          add_pass limit longest p ps m one m' r rs going after ends ran,
        )
  ]
