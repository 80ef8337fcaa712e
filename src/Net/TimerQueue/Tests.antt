-- ===== src/Net/TimerQueue/Tests.antt =====
-- A wheel of four slots of two milliseconds, with a timer in it.
use green_turtle.Base.{
  ℕ, zero, suc, ◌+◌, ◌≤◌, ◌<◌, ◌≡◌, ◌≢◌, refl, true, none, some, arith, add64, replicate,
}
use green_turtle.UnorderedList
use green_turtle.UnorderedList.{SlotList}
use green_turtle.UnorderedList.Slots.{IsValid}
use green_turtle.Net.TimerQueue.{
  new_timer, TimerQueue, World, empty_list, exponent_loop, assertion, make, list_at, set_timer,
  set_list, cancel_timer, slot_for, schedule_timer, get_pointer, fire_loop, tick, update,
  enter_slot, update_loop, turn_wheel, visit_timer, handle_time_out, reschedule,
}
use green_turtle.Net.TimerQueue.Arithmetic.{Geometry, ticks, visited_when_due}
use green_turtle.Net.TimerQueue.Links.{occupant, IsLinked}
use green_turtle.Net.TimerQueue.Links.Schedule.{frame, schedule_timer_lem}
use green_turtle.Net.TimerQueue.Links.Update.{Sound, update-Sound}
use green_turtle.Net.TimerQueue.Ends.Visits.{Timely}
use green_turtle.Net.TimerQueue.Ends.Turns.{update_ends}

abbrev pub small_wheel : TimerQueue
small_wheel = record {
  queues = replicate 4 empty_list;
  slot_size = 4;
  last_update_time = 1000;
  interval = 2;
  current_slot = 3;
  interval_exponent = 1;
  circle_time = 8;
}

abbrev pub idle : World
idle = record { wheel = small_wheel; timers = λ t. new_timer }

made : make 9 4 2 ≡ some (record small_wheel { last_update_time = 0; current_slot = 0 })
unfolding make assertion exponent_loop
made = refl

idle_list : (s : ℕ) → list_at idle s ≡ empty_list
idle_list zero = refl
idle_list (suc zero) = refl
idle_list (suc (suc zero)) = refl
idle_list (suc (suc (suc zero))) = refl
idle_list (suc (suc (suc (suc s)))) = refl

empty_list-IsValid : IsValid empty_list
empty_list-IsValid = record { distinct = tt; inside = tt; blank = λ i h. cc }

nothing_held : (s i t : ℕ) → occupant idle s i ≢ some t
unfolding UnorderedList.Slots.slot
nothing_held s i t h = let e = rw (idle_list s) at h in cc

idle-IsLinked : IsLinked idle
idle-IsLinked = record {
  size = refl;
  lists = λ s. rw (idle_list s) empty_list-IsValid;
  marks = λ s. rw (idle_list s) refl;
  held = λ s i t h. absurd (nothing_held s i t h);
  queued = λ t h. cc;
}

-- Timer 5, every 3 milliseconds.
abbrev pub busy : World
busy = schedule_timer 5 3 0 idle

busy-IsLinked : IsLinked busy
busy-IsLinked =
    (schedule_timer_lem 5 3 0 idle idle-IsLinked (omega arith) (omega arith) (omega arith)
      (omega arith)).0

busy-Sound : Sound busy
busy-Sound = record {
  linked = busy-IsLinked;
  slots = unfold schedule_timer enter_slot set_timer set_list in omega arith;
  fits = unfold schedule_timer enter_slot set_timer set_list in omega arith;
}

small_wheel-Geometry : Geometry 2 1 small_wheel
small_wheel-Geometry = record {
  slots = refl;
  slot_bits = omega arith;
  step = refl;
  exponent = refl;
  circle = refl;
  current = omega arith;
}

schedule_timer_lem_example :
    let w' = schedule_timer 6 3 0 busy in
    IsLinked w'
    × ((w'.timers 6).in_queue ≡ true)
    × ((w'.timers 6).iter_slot ≡ slot_for busy.wheel 3 0)
    × ((w'.timers 6).timer_interval ≡ 3)
    × ((w'.timers 6).next_handle_time ≡ add64 (add64 0 3) busy.wheel.last_update_time)
    × ((a : ℕ) → a ≢ 6 → w'.timers a ≡ busy.timers a)
    × (frame w'.wheel ≡ frame busy.wheel)
schedule_timer_lem_example =
    schedule_timer_lem 6 3 0 busy busy-IsLinked busy-Sound.slots busy-Sound.fits (omega arith)
      (omega arith)

visited_when_due_example :
    (d : ℕ) × ((ticks d idle).wheel.current_slot ≡ slot_for idle.wheel 3 0)
    × ((ticks d idle).wheel.last_update_time ≤ 1003)
    × (1003 < (tick (ticks d idle)).wheel.last_update_time)
    × ((tick (ticks d idle)).wheel.last_update_time ≤ 1003 + 2)
visited_when_due_example =
    visited_when_due {j = 2} {e = 1} idle 3 0 1003 small_wheel-Geometry refl (omega arith)
      (omega arith)

abbrev pub nothing : ℕ → ℕ → World → World
nothing t time w = w

abbrev updated : World
updated = elim (update nothing 20 1003 busy) [ none ↦ busy | some w ↦ w ]

update_runs : update nothing 20 1003 busy ≡ some updated
unfolding update update_loop turn_wheel UnorderedList.for_each UnorderedList.visit visit_timer
    fire_loop schedule_timer enter_slot set_timer set_list tick slot_for UnorderedList.insert
    get_pointer UnorderedList.get handle_time_out reschedule cancel_timer UnorderedList.erase
update_runs = refl

update-Sound_example :
    Sound updated × (add64 1003 busy.wheel.interval ≤ updated.wheel.last_update_time)
update-Sound_example =
    update-Sound nothing (λ t time w s. s) 20 1003 busy updated busy-Sound update_runs

-- The wheel of `busy`, where timer 5 is due.
abbrev late : World
late = record busy { wheel = record busy.wheel { last_update_time = 1010 } }

held_there : get_pointer late 0 0 ≡ 5
unfolding get_pointer schedule_timer enter_slot set_timer set_list slot_for UnorderedList.get
    UnorderedList.insert
held_there = refl

-- Timer 5 with interval 0.
abbrev stuck : World
stuck = record late { timers = λ t. record (late.timers t) { timer_interval = 0 } }

held_stuck : get_pointer stuck 0 0 ≡ 5
unfolding get_pointer
held_stuck = held_there

busy_due :
    (t : ℕ)
    → (busy.timers t).in_queue ≡ true
    → (0 < (busy.timers t).timer_interval)
      × ((busy.timers t).timer_interval ≤ 3)
      × ((busy.timers t).next_handle_time ≤ 2000)
unfolding schedule_timer enter_slot set_timer set_list
busy_due t h = ground arith

pub busy-Timely : Timely 2000 3 busy
busy-Timely = record { sound = busy-Sound; due = busy_due }

update_ends_example :
    (need : ℕ) × (v : World) × ((fuel : ℕ) → need ≤ fuel → update nothing fuel 1003 busy ≡ some v)
    × Timely 2000 3 v
    × (v.wheel.interval ≡ busy.wheel.interval)
    × (1003 + busy.wheel.interval ≤ v.wheel.last_update_time)
update_ends_example =
    update_ends nothing (λ t time w. refl) 2000 3 (omega arith) 1003 busy busy-Timely
      (unfold schedule_timer enter_slot set_timer set_list in omega arith)
      (unfold schedule_timer enter_slot set_timer set_list in omega arith)
