-- ===== src/Net/TimerQueue/Ends/Visits.antt =====
-- The walk of `Update` in timer_queue.cc over one timer: it fires, and goes back into the wheel.
use green_turtle.Base.{
  ℕ, zero, suc, ◌+◌, ◌-◌, ◌*◌, ◌/◌, ◌≤◌, ◌<◌, ◌≡◌, ◌≢◌, refl, sym, ap, ◌∙◌, subst, true, false,
  some, arith, ltb, ◌==◌, length, get_elem?, Bool-cases, ==_iff, ==_refl, ==_of_ne, ne_of_==, inl,
  inr, word_mod, add64, sub64, get_or,
}
use green_turtle.UnorderedList
use green_turtle.UnorderedList.{SlotList}
use green_turtle.UnorderedList.Slots.{slot_of_unmarked}
use green_turtle.Net.TimerQueue.{
  TimerQueue, World, deleted_mark, list_at, set_timer, schedule_timer, get_pointer, fire_loop,
  reschedule, visit_timer, empty_list,
}
use green_turtle.Net.TimerQueue.Links.Schedule.{frame, schedule_timer_lem}
use green_turtle.Net.TimerQueue.Links.Update.{Sound, touch-Sound, schedule-Sound}
use green_turtle.Net.TimerQueue.Fire.{period, fired, firings, firings_bounds, fire_loop_ends}
use green_turtle.Net.TimerQueue.Ends.Lengths.{length-schedule_timer}

-- A sound wheel whose timers have positive intervals, and next times up to a limit.
pub record Timely (limit longest : ℕ) (w : World) : Type 0 where
  pub sound : Sound w
  pub due :
      (t : ℕ)
      → (w.timers t).in_queue ≡ true
      → (0 < (w.timers t).timer_interval)
        × ((w.timers t).timer_interval ≤ longest)
        × ((w.timers t).next_handle_time ≤ limit)

-- Firing changes the next time of the timer alone.
record Fired (t : ℕ) (w w' : World) : Type 0 where
  sound : Sound w'
  wheel : w'.wheel ≡ w.wheel
  in_queue : (w'.timers t).in_queue ≡ (w.timers t).in_queue
  iter_slot : (w'.timers t).iter_slot ≡ (w.timers t).iter_slot
  interval : (w'.timers t).timer_interval ≡ (w.timers t).timer_interval
  others : (a : ℕ) → a ≢ t → w'.timers a ≡ w.timers a

period-Fired : (t : ℕ) (w : World) → Sound w → Fired t w (period t w)
unfolding set_timer
period-Fired t w sound = record {
  sound = unfold set_timer in touch-Sound w t _ refl refl refl sound;
  wheel = refl;
  in_queue = rw (==_refl t) refl;
  iter_slot = rw (==_refl t) refl;
  interval = rw (==_refl t) refl;
  others = λ a ne. rw (==_of_ne ne) refl;
}

fired-Fired : (n t : ℕ) (w : World) → Sound w → Fired t w (fired t w n)
fired-Fired zero t w sound = record {
  sound = sound;
  wheel = refl;
  in_queue = refl;
  iter_slot = refl;
  interval = refl;
  others = λ a ne. refl;
}
fired-Fired (suc n) t w sound =
    let once = period-Fired t w sound in
    let rest = fired-Fired n t (period t w) once.sound in
    record {
      sound = rest.sound;
      wheel = rest.wheel ∙ once.wheel;
      in_queue = rest.in_queue ∙ once.in_queue;
      iter_slot = rest.iter_slot ∙ once.iter_slot;
      interval = rest.interval ∙ once.interval;
      others = λ a ne. rest.others a ne ∙ once.others a ne;
    }

div_le : (x i : ℕ) → 0 < i → x / i ≤ x
div_le x i pos = grind arith

firings_le : (last next interval : ℕ) → 0 < interval → firings last next interval ≤ last + 1
firings_le last next interval pos = elim (Bool-cases (ltb last next)) [
  | inl early ↦ rw early (omega arith)
  | inr late ↦ rw late (omega (arith, div_le (last - next) interval pos))
]

next_le :
    (n next interval last limit : ℕ)
    → (n ≢ 0 → next + (n - 1) * interval ≤ last)
    → next ≤ limit
    → last + interval ≤ limit
    → next + n * interval ≤ limit
next_le zero next interval last limit before small enough = omega arith
next_le (suc n) next interval last limit before small enough =
    let down : suc n - 1 ≡ n = omega arith in
    let h : next + n * interval ≤ last = rw down at (before (omega arith)) in omega arith

pointer_there :
    (w : World) (s i t : ℕ)
    → get_elem? (list_at w s).list i ≡ some t
    → (t == (list_at w s).deleted) ≡ false
    → get_pointer w s i ≡ t
unfolding get_pointer UnorderedList.get
pointer_there w s i t there live = rw (there, get_pointer, UnorderedList.get) (rw live refl)

back_in_time :
    (next interval last : ℕ)
    → next < word_mod
    → interval + last < word_mod
    → add64 (add64 (sub64 next (add64 interval last)) interval) last ≡ next
back_in_time next interval last small small' = omega arith

-- What is known where a walk meets a timer.
module _ (on_time_out : ℕ → ℕ → World → World)
    (quiet : (t time : ℕ) (w : World) → on_time_out t time w ≡ w) (limit longest : ℕ) (w : World)
    (timely : Timely limit longest w) (room : w.wheel.last_update_time + longest ≤ limit)
    (fits : limit + limit < word_mod) (s i t : ℕ) (there : get_elem? (list_at w s).list i ≡ some t)
    (live : (t == (list_at w s).deleted) ≡ false) where
  abbrev last : ℕ
  last = w.wheel.last_update_time

  abbrev next : ℕ
  next = (w.timers t).next_handle_time

  abbrev interval : ℕ
  interval = (w.timers t).timer_interval

  abbrev n : ℕ
  n = firings last next interval

  abbrev after : World
  after = fired t w n

  held :
      ((w.timers t).in_queue ≡ true)
      × ((w.timers t).iter_slot ≡ s)
      × ((w.timers t).iter_pos ≡ i)
      × (t ≢ 0)
      × (t ≢ deleted_mark)
  held =
      timely.sound.linked.held s i t
        (slot_of_unmarked (list_at w s) i t (timely.sound.linked.lists s) there (ne_of_== live))

  fires :
      (fuel : ℕ)
      → limit + 1 < fuel
      → (fire_loop on_time_out fuel s i t w ≡ some (t, after))
        × ((after.timers t).next_handle_time ≡ next + n * interval)
        × (next + n * interval ≤ limit)
  fires fuel enough =
      let (pos, short, early) = timely.due t held.0 in
      let (done, at, past) =
        fire_loop_ends on_time_out quiet fuel s i t w held.3 (pointer_there w s i t there live) pos
          (omega arith) (omega (arith, firings_le last next interval pos)) in
      (
        done,
        at,
        next_le n next interval last limit (firings_bounds last next interval pos).1 early
            (omega arith),
      )

  abbrev again : World
  again =
      schedule_timer t (after.timers t).timer_interval
        (sub64 (after.timers t).next_handle_time
          (add64 (after.timers t).timer_interval after.wheel.last_update_time))
        after

  pub visit_ends :
      (v : World) × ((fuel : ℕ)
        → limit + 1 < fuel
        → visit_timer on_time_out fuel s t i w ≡ some (true, v))
      × Timely limit longest v
      × (length (list_at v s).list ≡ length (list_at w s).list)
      × (frame v.wheel ≡ frame w.wheel)
  unfolding visit_timer reschedule
  visit_ends =
      let (was, at_s, at_i, real, unmarked) = held in
      let (pos, short, early) = timely.due t was in
      let (done, at, low) = fires (limit + 2) (omega arith) in
      let f = fired-Fired n t w timely.sound in
      let time : after.wheel.last_update_time ≡ last =
        ap (λ (q : TimerQueue). q.last_update_time) f.wheel in
      let (linked, queued, place, same, next', others, fixed) =
        schedule_timer_lem t (after.timers t).timer_interval
          (sub64 (after.timers t).next_handle_time
            (add64 (after.timers t).timer_interval after.wheel.last_update_time))
          after f.sound.linked f.sound.slots f.sound.fits real unmarked in
      let back =
        back_in_time (after.timers t).next_handle_time (after.timers t).timer_interval
          after.wheel.last_update_time (rw at (omega arith))
          (rw (f.interval, time) (omega arith)) in
      (
        again,
        λ fuel enough.
            rw (==_of_ne real, (fires fuel enough).0, visit_timer) (rw (==_of_ne real) refl),
        record {
          sound = schedule-Sound t _ _ after real unmarked f.sound;
          due = λ a in_queue. elim (Bool-cases (a == t)) [
            | inl e ↦
                let here : t ≡ a = sym ((==_iff a t).0 e) in
                subst
                  (λ a.
                    (0 < (again.timers a).timer_interval)
                    × ((again.timers a).timer_interval ≤ longest)
                    × ((again.timers a).next_handle_time ≤ limit))
                  here
                  (
                    subst (λ x. 0 < x) (sym (same ∙ f.interval)) pos,
                    subst (λ x. x ≤ longest) (sym (same ∙ f.interval)) short,
                    subst (λ x. x ≤ limit) (sym (next' ∙ back ∙ at)) low,
                  )
            | inr e ↦
                let old : again.timers a ≡ w.timers a =
                  others a (ne_of_== e) ∙ f.others a (ne_of_== e) in
                rw old (timely.due a (rw old at in_queue))
          ];
        },
        length-schedule_timer t s after f.sound.linked real (f.in_queue ∙ was) (f.iter_slot ∙ at_s)
              _ _ f.sound.slots f.sound.fits
            ∙ ap (λ (q : TimerQueue). length (get_or q.queues s empty_list).list) f.wheel,
        fixed ∙ ap frame f.wheel,
      )
