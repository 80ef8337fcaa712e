-- ===== src/Net/TimerQueue/Links/Update.antt =====
-- `Update` of timer_queue.cc keeps the links, whatever its timers do when they fire.
use green_turtle.Base.{
  ℕ, zero, suc, ◌≤◌, ◌<◌, ◌≡◌, ◌≢◌, refl, sym, ap, ◌∙◌, subst, Bool, false, some, arith, ltb, leb,
  ◌==◌, if◌then◌else◌, get_elem?, Bool-cases, Option-cases, inl, inr, some_inj, ne_of_==, ==_of_ne,
  if_of, word_mod, add64,
}
use green_turtle.UnorderedList
use green_turtle.UnorderedList.{SlotList, for_each}
use green_turtle.UnorderedList.Slots.{slot_of_unmarked}
use green_turtle.UnorderedList.Walk.{for_each_inv}
use green_turtle.Net.TimerQueue.{
  Timer, TimerQueue, World, pointer, deleted_mark, list_at, set_timer, schedule_timer,
  handle_time_out, get_pointer, fire_loop, reschedule, visit_timer, tick, turn_wheel, update_loop,
  update,
}
use green_turtle.Net.TimerQueue.Links.{IsLinked}
use green_turtle.Net.TimerQueue.Links.Schedule.{schedule_timer_lem}

-- A linked wheel with as many slots as a word can count.
pub record Sound (w : World) : Type 0 where
  pub linked : IsLinked w
  pub slots : 0 < w.wheel.slot_size
  pub fits : w.wheel.slot_size < word_mod

-- A change of a timer that leaves its place alone.
pub touch-Sound :
    (w : World) (t : ℕ) (timer : Timer)
    → timer.in_queue ≡ (w.timers t).in_queue
    → timer.iter_slot ≡ (w.timers t).iter_slot
    → timer.iter_pos ≡ (w.timers t).iter_pos
    → Sound w
    → Sound (set_timer w t timer)
unfolding set_timer
touch-Sound w t timer q s p sound = record {
  linked = record {
    size = sound.linked.size;
    lists = sound.linked.lists;
    marks = sound.linked.marks;
    held = λ s' i a h.
        let old = sound.linked.held s' i a h in
        (queue a ∙ old.0, place a ∙ old.1, position a ∙ old.2, old.3, old.4);
    queued = λ a h. rw (place a, position a) (sound.linked.queued a (sym (queue a) ∙ h));
  };
  slots = sound.slots;
  fits = sound.fits;
}
  where
    new : ℕ → Timer
    new a = if a == t then timer else w.timers a

    queue : (a : ℕ) → (new a).in_queue ≡ (w.timers a).in_queue
    queue a = ground arith

    place : (a : ℕ) → (new a).iter_slot ≡ (w.timers a).iter_slot
    place a = ground arith

    position : (a : ℕ) → (new a).iter_pos ≡ (w.timers a).iter_pos
    position a = ground arith

pub schedule-Sound :
    (t interval delay : ℕ) (w : World)
    → t ≢ 0
    → t ≢ deleted_mark
    → Sound w
    → Sound (schedule_timer t interval delay w)
schedule-Sound t interval delay w real unmarked sound =
    let r =
      schedule_timer_lem t interval delay w sound.linked sound.slots sound.fits real unmarked in
    let same = ap (λ (f : TimerQueue). f.slot_size) r.6 in
    record { linked = r.0; slots = rw same sound.slots; fits = rw same sound.fits }

get_pointer_unmarked : (w : World) (s i : ℕ) → Sound w → get_pointer w s i ≢ deleted_mark
unfolding get_pointer UnorderedList.get
get_pointer_unmarked w s i sound = ground (arith, sound.linked.marks s)

pub clock-Sound :
    (time : ℕ) (w : World)
    → Sound w
    → Sound (record w { wheel = record w.wheel { last_update_time = time } })
clock-Sound time w sound = record {
  linked = record {
    size = sound.linked.size;
    lists = sound.linked.lists;
    marks = sound.linked.marks;
    held = sound.linked.held;
    queued = sound.linked.queued;
  };
  slots = sound.slots;
  fits = sound.fits;
}

pub tick-Sound : (w : World) → Sound w → Sound (tick w)
unfolding tick
tick-Sound w sound = record {
  linked = record {
    size = sound.linked.size;
    lists = sound.linked.lists;
    marks = sound.linked.marks;
    held = sound.linked.held;
    queued = sound.linked.queued;
  };
  slots = sound.slots;
  fits = sound.fits;
}

-- The part of `Update` that depends on what the timers do: they keep the wheel sound.
module _ (on_time_out : ℕ → ℕ → World → World)
    (polite : (t time : ℕ) (w : World) → Sound w → Sound (on_time_out t time w)) where
  handle-Sound : (t : ℕ) (w : World) → Sound w → Sound (handle_time_out on_time_out t w)
  unfolding handle_time_out
  handle-Sound t w sound =
      polite t (w.timers t).next_handle_time _ (touch-Sound w t _ refl refl refl sound)

  fire_loop-Sound :
      (fuel s i t : ℕ) (w : World) (r : ℕ × World)
      → t ≢ deleted_mark
      → Sound w
      → fire_loop on_time_out fuel s i t w ≡ some r
      → (r.0 ≢ deleted_mark) × Sound r.1
  unfolding fire_loop
  fire_loop-Sound zero s i t w r unmarked sound h = cc
  fire_loop-Sound (suc fuel) s i t w r unmarked sound h =
      let stop : some (t, w) ≡ some r → (r.0 ≢ deleted_mark) × Sound r.1 = λ e.
        subst (λ (q : ℕ × World). (q.0 ≢ deleted_mark) × Sound q.1) (some_inj e)
          (unmarked, sound) in
      elim (Bool-cases (t == 0)) [
        | inl null ↦ stop (rw null at h)
        | inr real ↦
            elim (Bool-cases (leb (w.timers t).next_handle_time w.wheel.last_update_time)) [
              | inr later ↦ stop (rw (real, later) at h)
              | inl due ↦
                  let w' = handle_time_out on_time_out t w in
                  let fired = handle-Sound t w sound in
                  fire_loop-Sound fuel s i (get_pointer w' s i) w' r
                    (get_pointer_unmarked w' s i fired) fired (rw (real, due) at h)
            ]
      ]

  reschedule-Sound : (t : ℕ) (w : World) → t ≢ deleted_mark → Sound w → Sound (reschedule t w)
  unfolding reschedule
  reschedule-Sound t w unmarked sound = elim (Bool-cases (t == 0)) [
    | inl null ↦ rw null sound
    | inr real ↦ rw real (schedule-Sound t _ _ w (ne_of_== real) unmarked sound)
  ]

  -- A round of the walk: the timer that it meets is one that the slot really holds.
  visit_timer-Sound :
      (fuel s t i : ℕ) (w : World) (b : Bool) (w' : World)
      → Sound w
      → get_elem? (list_at w s).list i ≡ some t
      → (t == (list_at w s).deleted) ≡ false
      → visit_timer on_time_out fuel s t i w ≡ some (b, w')
      → Sound w'
  unfolding visit_timer
  visit_timer-Sound fuel s t i w b w' sound there live h =
      let unmarked : t ≢ deleted_mark = rw (sound.linked.marks s) at (ne_of_== live) in
      let held = slot_of_unmarked (list_at w s) i t (sound.linked.lists s) there (ne_of_== live) in
      let real = (sound.linked.held s i t held).3 in
      elim (Option-cases (fire_loop on_time_out fuel s i t w)) [
        | inl hangs ↦ let e = rw (==_of_ne real, hangs, visit_timer) at h in cc
        | inr (r, fired) ↦
            let (out, kept) = fire_loop-Sound fuel s i t w r unmarked sound fired in
            let e = rw (==_of_ne real, fired, visit_timer) at h in
            subst Sound (ap (λ (q : Bool × World). q.1) (some_inj e))
              (reschedule-Sound r.0 r.1 out kept)
      ]

  turn_wheel-Sound :
      (fuel : ℕ) (w w' : World) → Sound w → turn_wheel on_time_out fuel w ≡ some w' → Sound w'
  unfolding turn_wheel
  turn_wheel-Sound fuel w w' sound h =
      for_each_inv pointer (λ s. list_at s w.wheel.current_slot) Sound
        (λ t i s. visit_timer on_time_out fuel w.wheel.current_slot t i s)
        (λ t i s b s' p there live called.
          visit_timer-Sound fuel w.wheel.current_slot t i s b s' p there live called)
        fuel 0 (tick w) w' (tick-Sound w sound) h

  update_loop-Sound :
      (fuel delta_time : ℕ) (w w' : World)
      → Sound w
      → update_loop on_time_out fuel delta_time w ≡ some w'
      → Sound w' × (delta_time ≤ w'.wheel.last_update_time)
  unfolding update_loop
  update_loop-Sound zero delta_time w w' sound h = cc
  update_loop-Sound (suc fuel) delta_time w w' sound h =
      elim (Bool-cases (ltb w.wheel.last_update_time delta_time)) [
        | inr done ↦
            let e : w ≡ w' = some_inj (rw (done, update_loop) at h) in
            subst (λ (v : World). Sound v × (delta_time ≤ v.wheel.last_update_time)) e
              (sound, ground arith)
        | inl behind ↦ elim (Option-cases (turn_wheel on_time_out fuel w)) [
          | inl hangs ↦ let e = rw (behind, hangs, update_loop) at h in cc
          | inr (v, turned) ↦
              update_loop-Sound fuel delta_time v w' (turn_wheel-Sound fuel w v sound turned)
                (rw (behind, turned, update_loop) at h)
        ]
      ]

  -- When `Update` returns, the links stand and the wheel has gone past the current time.
  pub update-Sound :
      (fuel current_time : ℕ) (w w' : World)
      → Sound w
      → update on_time_out fuel current_time w ≡ some w'
      → Sound w' × (add64 current_time w.wheel.interval ≤ w'.wheel.last_update_time)
  unfolding update
  update-Sound fuel current_time w w' sound h =
      update_loop-Sound fuel (add64 current_time w.wheel.interval) _ w'
        (if_of Sound (w.wheel.last_update_time == 0) _ w (clock-Sound current_time w sound) sound) h
