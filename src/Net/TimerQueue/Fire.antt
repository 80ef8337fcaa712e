-- ===== src/Net/TimerQueue/Fire.antt =====
-- The inner loop of `Update` of timer_queue.cc: how often a timer fires, and whether the loop ends.
use green_turtle.Base.{
  ℕ, zero, suc, ◌+◌, ◌-◌, ◌*◌, ◌/◌, ◌≤◌, ◌<◌, ◌≡◌, ◌≢◌, refl, ap, ◌∙◌, none, some, arith, ltb,
  if◌then◌else◌, Bool-cases, ==_refl, ==_of_ne, le→leb, lt→leb, word_mod, add64, inl, inr,
}
use native.Mathlib.Nat.{div-mul-le_self, lt-div-mul-add}
use green_turtle.Net.TimerQueue.{
  TimerQueue, World, set_timer, get_pointer, handle_time_out, fire_loop,
}

-- `w` after one period of timer `t` has been counted, and after `n` periods.
abbrev pub period : ℕ → World → World
period t w = set_timer w t (record (w.timers t) {
  next_handle_time = add64 (w.timers t).next_handle_time (w.timers t).timer_interval;
})

abbrev pub fired : ℕ → World → ℕ → World
fired t w zero = w
fired t w (suc n) = fired t (period t w) n

timer-period :
    (t : ℕ) (w : World)
    → ((period t w).timers t).next_handle_time
        ≡ add64 (w.timers t).next_handle_time (w.timers t).timer_interval
      × (((period t w).timers t).timer_interval ≡ (w.timers t).timer_interval)
      × ((period t w).wheel ≡ w.wheel)
unfolding set_timer
timer-period t w = (rw (==_refl t), rw (==_refl t), refl)

next-fired :
    (t n : ℕ) (w : World)
    → (w.timers t).next_handle_time + n * (w.timers t).timer_interval < word_mod
    → ((fired t w n).timers t).next_handle_time
      ≡ (w.timers t).next_handle_time + n * (w.timers t).timer_interval
next-fired t zero w small = omega arith
next-fired t (suc n) w small =
    let (next, same, _) = timer-period t w in
    let at : ((period t w).timers t).next_handle_time + n * ((period t w).timers t).timer_interval
        ≡ (w.timers t).next_handle_time + suc n * (w.timers t).timer_interval =
      rw (next, same) (omega arith) in
    next-fired t n (period t w) (rw at small) ∙ at

one_less :
    (n interval next last : ℕ)
    → n ≢ 0
    → next + (suc n - 1) * interval ≤ last
    → next + suc n * interval < word_mod
    → add64 next interval + (n - 1) * interval ≤ last
one_less zero interval next last ne h small = absurd (ne refl)
one_less (suc n) interval next last ne h small =
    let up : suc (suc n) - 1 ≡ suc n = omega arith in
    let down : suc n - 1 ≡ n = omega arith in
    let h' : next + suc n * interval ≤ last = rw up at h in rw down (omega arith)

no_wrap :
    (n next interval last : ℕ)
    → last + interval + next < word_mod
    → (n ≢ 0 → next + (n - 1) * interval ≤ last)
    → next + n * interval < word_mod
no_wrap zero next interval last small before = omega arith
no_wrap (suc n) next interval last small before =
    let down : suc n - 1 ≡ n = omega arith in
    let h : next + n * interval ≤ last = rw down at (before (omega arith)) in omega arith

-- How often a timer with next time `next` is due by `last`.
abbrev pub firings : ℕ → ℕ → ℕ → ℕ
firings last next interval = if ltb last next then 0 else (last - next) / interval + 1

pub firings_bounds :
    (last next interval : ℕ)
    → 0 < interval
    → (last < next + firings last next interval * interval)
      × (firings last next interval ≢ 0 → next + (firings last next interval - 1) * interval ≤ last)
firings_bounds last next interval pos = elim (Bool-cases (ltb last next)) [
  | inl early ↦ rw early (ground arith, λ ne. absurd (ne refl))
  | inr due ↦
      let low = div-mul-le_self (last - next) interval in
      let high = lt-div-mul-add {a = last - next} pos in rw due (ground arith, λ ne. ground arith)
]

pointer-period : (t : ℕ) (w : World) (s i : ℕ) → get_pointer (period t w) s i ≡ get_pointer w s i
unfolding get_pointer set_timer
pointer-period t w s i = refl

-- Timers whose `OnTimeOut` leaves the queue alone, and a timer that its slot holds.
module _ (on_time_out : ℕ → ℕ → World → World)
    (quiet : (t time : ℕ) (w : World) → on_time_out t time w ≡ w) where
  handle_quiet : (t : ℕ) (w : World) → handle_time_out on_time_out t w ≡ period t w
  unfolding handle_time_out
  handle_quiet t w = quiet t (w.timers t).next_handle_time (period t w)

  fire_step :
      (fuel s i t : ℕ) (w : World)
      → t ≢ 0
      → (w.timers t).next_handle_time ≤ w.wheel.last_update_time
      → get_pointer w s i ≡ t
      → fire_loop on_time_out (suc fuel) s i t w ≡ fire_loop on_time_out fuel s i t (period t w)
  unfolding fire_loop
  fire_step fuel s i t w real due held =
      let due' = le→leb (w.timers t).next_handle_time w.wheel.last_update_time due in
      rw (==_of_ne real, due', handle_quiet t w)
        (ap (λ p. fire_loop on_time_out fuel s i p (period t w)) (pointer-period t w s i ∙ held))

  fire_zero : (s i t : ℕ) (w : World) → fire_loop on_time_out 0 s i t w ≡ none
  unfolding fire_loop
  fire_zero s i t w = refl

  fire_stop :
      (fuel s i t : ℕ) (w : World)
      → t ≢ 0
      → w.wheel.last_update_time < (w.timers t).next_handle_time
      → fire_loop on_time_out (suc fuel) s i t w ≡ some (t, w)
  unfolding fire_loop
  fire_stop fuel s i t w real later =
      rw (==_of_ne real, lt→leb (w.timers t).next_handle_time w.wheel.last_update_time later)

  fire_loop_count :
      (n fuel s i t : ℕ) (w : World)
      → n < fuel
      → t ≢ 0
      → get_pointer w s i ≡ t
      → w.wheel.last_update_time < (w.timers t).next_handle_time + n * (w.timers t).timer_interval
      → (w.timers t).next_handle_time + n * (w.timers t).timer_interval < word_mod
      → (n ≢ 0
          → (w.timers t).next_handle_time + (n - 1) * (w.timers t).timer_interval
            ≤ w.wheel.last_update_time)
      → fire_loop on_time_out fuel s i t w ≡ some (t, fired t w n)
  fire_loop_count zero zero s i t w enough real held past small before = absurd (omega arith)
  fire_loop_count zero (suc fuel) s i t w enough real held past small before =
      fire_stop fuel s i t w real (omega arith)
  fire_loop_count (suc n) zero s i t w enough real held past small before = absurd (omega arith)
  fire_loop_count (suc n) (suc fuel) s i t w enough real held past small before =
      let (next, same, wheel) = timer-period t w in
      let time = ap (λ (q : TimerQueue). q.last_update_time) wheel in
      let now = before (omega arith) in
      fire_step fuel s i t w real (omega arith) held
      ∙ fire_loop_count n fuel s i t (period t w) (omega arith) real (pointer-period t w s i ∙ held)
          (rw (next, same, time) (omega arith)) (rw (next, same) (omega arith))
          (λ ne. rw (next, same, time) (one_less n (w.timers t).timer_interval _ _ ne now small))

  pub fire_loop_ends :
      (fuel s i t : ℕ) (w : World)
      → t ≢ 0
      → get_pointer w s i ≡ t
      → 0 < (w.timers t).timer_interval
      → w.wheel.last_update_time + (w.timers t).timer_interval + (w.timers t).next_handle_time
        < word_mod
      → firings w.wheel.last_update_time (w.timers t).next_handle_time (w.timers t).timer_interval
        < fuel
      → let n =
          firings w.wheel.last_update_time
            (w.timers t).next_handle_time
            (w.timers t).timer_interval in
        (fire_loop on_time_out fuel s i t w ≡ some (t, fired t w n))
        × (((fired t w n).timers t).next_handle_time
            ≡ (w.timers t).next_handle_time + n * (w.timers t).timer_interval)
        × (w.wheel.last_update_time < ((fired t w n).timers t).next_handle_time)
  fire_loop_ends fuel s i t w real held pos small enough =
      let last = w.wheel.last_update_time in
      let next = (w.timers t).next_handle_time in
      let interval = (w.timers t).timer_interval in
      let n = firings last next interval in
      let (past, before) = firings_bounds last next interval pos in
      let fits : next + n * interval < word_mod = no_wrap n next interval last small before in
      let at = next-fired t n w fits in
      (fire_loop_count n fuel s i t w enough real held past fits before, at, rw at past)

  -- At interval 0 a timer that is due keeps the loop from ending.
  pub fire_loop_hangs :
      (fuel s i t : ℕ) (w : World)
      → t ≢ 0
      → get_pointer w s i ≡ t
      → (w.timers t).timer_interval ≡ 0
      → (w.timers t).next_handle_time ≤ w.wheel.last_update_time
      → w.wheel.last_update_time < word_mod
      → fire_loop on_time_out fuel s i t w ≡ none
  fire_loop_hangs zero s i t w real held off due small = fire_zero s i t w
  fire_loop_hangs (suc fuel) s i t w real held off due small =
      let (next, same, wheel) = timer-period t w in
      let time = ap (λ (q : TimerQueue). q.last_update_time) wheel in
      fire_step fuel s i t w real due held
      ∙ fire_loop_hangs fuel s i t (period t w) real (pointer-period t w s i ∙ held) (same ∙ off)
          (rw (next, time, off) (omega arith)) (rw time small)
