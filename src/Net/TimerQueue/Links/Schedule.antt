-- ===== src/Net/TimerQueue/Links/Schedule.antt =====
-- `CancelTimer` and `ScheduleTimer` of timer_queue.cc keep the links between timers and slots.
use green_turtle.Base.{
  ℕ, ◌<◌, ◌≡◌, ◌≢◌, refl, sym, ap, ◌∙◌, subst, true, false, not, ◌||◌, Option, none, some, [],
  arith, ◌==◌, if◌then◌else◌, length, length-set, Bool-cases, ==_refl, ◌⊎◌, inl, inr, lt→ltb, if_of,
  bit_and-le, word_mod, add64, sub64,
}
use green_turtle.UnorderedList
use green_turtle.UnorderedList.{SlotList}
use green_turtle.UnorderedList.Slots.{
  IsValid, slot, insert-IsValid, insert-slot, erase-IsValid, erase-slot, deleted-insert,
}
use green_turtle.Net.TimerQueue.{
  Timer, TimerQueue, World, deleted_mark, list_at, set_list, set_timer, cancel_timer, enter_slot,
  schedule_timer, slot_for,
}
use green_turtle.Net.TimerQueue.Links.{
  occupant, IsLinked, Moved, leave-IsLinked, enter-IsLinked, list_at-set_list, occupant-set_list,
}

each :
    (P : SlotList ℕ → Type 0) (w : World) (s : ℕ) (l : SlotList ℕ)
    → s < length w.wheel.queues
    → P l
    → ((s' : ℕ) → P (list_at w s'))
    → (s' : ℕ) → P (list_at (set_list w s l) s')
each P w s l h new old s' =
    subst P (sym (list_at-set_list w s s' l h)) (if_of P (s == s') l (list_at w s') new (old s'))

-- A replaced list and a replaced timer, as a move.
Moved-set :
    (w : World) (t s p : ℕ) (l : SlotList ℕ) (v : Option ℕ) (timer : Timer)
    → IsLinked w
    → s < w.wheel.slot_size
    → IsValid l
    → l.deleted ≡ deleted_mark
    → ((i : ℕ) → slot l i ≡ (if p == i then v else slot (list_at w s) i))
    → Moved w (set_timer (set_list w s l) t timer) t s p v timer
Moved-set w t s p l v timer linked inside valid mark point =
    let h : s < length w.wheel.queues = omega (arith, linked.size) in
    record {
      same_size = unfold set_timer set_list in refl;
      size = unfold set_timer set_list in length-set w.wheel.queues s l ∙ linked.size;
      lists = λ s'. unfold set_timer in each IsValid w s l h valid linked.lists s';
      marks = λ s'.
          unfold set_timer in
          each (λ (m : SlotList ℕ). m.deleted ≡ deleted_mark) w s l h mark linked.marks s';
      at_slot = λ s' i. unfold set_timer in occupant-set_list w s p l v h point s' i;
      at_timer = λ a. unfold set_timer set_list in refl;
    }

-- What `cancel_timer` does, branch by branch.
pub cancel_cases :
    (t : ℕ) (w : World)
    → IsLinked w
    → (((t ≡ 0) ⊎ ((w.timers t).in_queue ≡ false)) × (cancel_timer t w ≡ w))
      ⊎ (((w.timers t).in_queue ≡ true)
          × Moved w
              (cancel_timer t w)
              t
              (w.timers t).iter_slot
              (w.timers t).iter_pos
              none
              (record (w.timers t) { in_queue = false }))
unfolding cancel_timer
cancel_cases t w linked = elim (Bool-cases ((t == 0) || not (w.timers t).in_queue)) [
  | inl off ↦ inl (ground arith, rw off)
  | inr on ↦
      let was : (w.timers t).in_queue ≡ true = ground arith in
      let place = linked.queued t was in
      let slot = (w.timers t).iter_slot in
      let pos = (w.timers t).iter_pos in
      inr (
        was,
        rw (on, lt→ltb slot w.wheel.slot_size place.0)
            (Moved-set w t slot pos (UnorderedList.erase (list_at w slot) pos) none
              (record (w.timers t) { in_queue = false }) linked place.0
              (erase-IsValid (list_at w slot) pos place.1 (linked.lists slot))
              (unfold UnorderedList.erase in linked.marks slot) (erase-slot (list_at w slot) pos)),
      )
]

-- Cancelling keeps the links, and takes the timer off the queue.
pub cancel-IsLinked :
    (t : ℕ) (w : World)
    → IsLinked w
    → IsLinked (cancel_timer t w)
      × ((t ≢ 0) → ((cancel_timer t w).timers t).in_queue ≡ false)
      × ((cancel_timer t w).wheel.slot_size ≡ w.wheel.slot_size)
cancel-IsLinked t w linked = elim (cancel_cases t w linked) [
  | inl (why, same) ↦ (rw same linked, λ real. rw same (ground arith), rw same)
  | inr (was, moved) ↦ (
    leave-IsLinked linked moved refl was refl refl,
    λ real. ap (λ (x : Timer). x.in_queue) (moved.at_timer t) ∙ ground arith,
    moved.same_size,
  )
]

-- All of the wheel but the lists.
abbrev pub frame : TimerQueue → TimerQueue
frame q = record q { queues = [] }

pub frame-cancel : (t : ℕ) (w : World) → frame (cancel_timer t w).wheel ≡ frame w.wheel
unfolding cancel_timer set_list set_timer
frame-cancel t w = ground arith

-- A timer that is cancelled changes alone.
timers-cancel : (t : ℕ) (w : World) (a : ℕ) → a ≢ t → (cancel_timer t w).timers a ≡ w.timers a
unfolding cancel_timer set_list set_timer
timers-cancel t w a ne = ground arith

slot_for-frame :
    (q q' : TimerQueue) (interval delay : ℕ)
    → frame q' ≡ frame q
    → slot_for q' interval delay ≡ slot_for q interval delay
unfolding slot_for
slot_for-frame q q' interval delay e = ap (λ (f : TimerQueue). slot_for f interval delay) e

pub slot_for-lt :
    (q : TimerQueue) (interval delay : ℕ)
    → 0 < q.slot_size
    → q.slot_size < word_mod
    → slot_for q interval delay < q.slot_size
unfolding slot_for
slot_for-lt q interval delay pos small = omega (arith, bit_and-le _ (sub64 q.slot_size 1))

module _ (t interval next s : ℕ) (w : World) where
  enter-Moved :
      IsLinked w
      → s < w.wheel.slot_size
      → t ≢ deleted_mark
      → (occupant w s (UnorderedList.insert (list_at w s) t).0 ≡ none)
        × Moved w
            (enter_slot t interval next s w)
            t
            s
            (UnorderedList.insert (list_at w s) t).0
            (some t)
            (record {
              in_queue = true;
              iter_slot = s;
              iter_pos = (UnorderedList.insert (list_at w s) t).0;
              timer_interval = interval;
              next_handle_time = next;
            })
  unfolding enter_slot
  enter-Moved linked inside unmarked =
      let (free, point) = insert-slot (list_at w s) t (linked.lists s) in
      (
        free,
        Moved-set w t s (UnorderedList.insert (list_at w s) t).0
            (UnorderedList.insert (list_at w s) t).1 (some t) _ linked inside
            (insert-IsValid (list_at w s) t (linked.lists s))
            (deleted-insert (list_at w s) t ∙ linked.marks s) point,
      )

  enter_slot-IsLinked :
      IsLinked w
      → s < w.wheel.slot_size
      → (w.timers t).in_queue ≡ false
      → t ≢ 0
      → t ≢ deleted_mark
      → IsLinked (enter_slot t interval next s w)
  enter_slot-IsLinked linked inside out real unmarked =
      let (free, moved) = enter-Moved linked inside unmarked in
      enter-IsLinked linked moved inside free out real unmarked refl refl refl

  timers-enter_slot :
      (a : ℕ)
      → (enter_slot t interval next s w).timers a ≡ (
          if a == t
          then record {
            in_queue = true;
            iter_slot = s;
            iter_pos = (UnorderedList.insert (list_at w s) t).0;
            timer_interval = interval;
            next_handle_time = next;
          }
          else w.timers a)
  unfolding enter_slot set_list set_timer
  timers-enter_slot a = refl

  frame-enter_slot : frame (enter_slot t interval next s w).wheel ≡ frame w.wheel
  unfolding enter_slot set_list set_timer
  frame-enter_slot = refl

-- Where `ScheduleTimer` has taken the timer out of its slot.
abbrev pub released : ℕ → World → World
released t w = if (w.timers t).in_queue then cancel_timer t w else w

released-IsLinked :
    (t : ℕ) (w : World)
    → IsLinked w
    → t ≢ 0
    → IsLinked (released t w)
      × (((released t w).timers t).in_queue ≡ false)
      × (frame (released t w).wheel ≡ frame w.wheel)
      × ((a : ℕ) → a ≢ t → (released t w).timers a ≡ w.timers a)
released-IsLinked t w linked real = elim (Bool-cases (w.timers t).in_queue) [
  | inl was ↦
      let (kept, out, size) = cancel-IsLinked t w linked in
      rw was (kept, out real, frame-cancel t w, timers-cancel t w)
  | inr out ↦ rw out (linked, out, refl, λ a ne. refl)
]

-- `ScheduleTimer` keeps the links, records the interval and the next time, and moves the timer to
-- the slot that `slot_for` gives; the other timers and the rest of the wheel stay as they were.
pub schedule_timer_lem :
    (t interval delay : ℕ) (w : World)
    → IsLinked w
    → 0 < w.wheel.slot_size
    → w.wheel.slot_size < word_mod
    → t ≢ 0
    → t ≢ deleted_mark
    → let w' = schedule_timer t interval delay w in
      IsLinked w'
      × ((w'.timers t).in_queue ≡ true)
      × ((w'.timers t).iter_slot ≡ slot_for w.wheel interval delay)
      × ((w'.timers t).timer_interval ≡ interval)
      × ((w'.timers t).next_handle_time ≡ add64 (add64 delay interval) w.wheel.last_update_time)
      × ((a : ℕ) → a ≢ t → w'.timers a ≡ w.timers a)
      × (frame w'.wheel ≡ frame w.wheel)
unfolding schedule_timer
schedule_timer_lem t interval delay w linked pos small real unmarked =
    let (kept, out, fixed, others) = released-IsLinked t w linked real in
    let next = add64 (add64 delay interval) w.wheel.last_update_time in
    let to_slot = slot_for (released t w).wheel interval delay in
    let size : (released t w).wheel.slot_size ≡ w.wheel.slot_size =
      ap (λ (f : TimerQueue). f.slot_size) fixed in
    let inside : to_slot < (released t w).wheel.slot_size =
      slot_for-lt (released t w).wheel interval delay (rw size pos) (rw size small) in
    let at = timers-enter_slot t interval next to_slot (released t w) in
    (
      enter_slot-IsLinked t interval next to_slot (released t w) kept inside out real unmarked,
      rw (at t, ==_refl t),
      rw (at t, ==_refl t) (slot_for-frame w.wheel (released t w).wheel interval delay fixed),
      rw (at t, ==_refl t),
      rw (at t, ==_refl t),
      λ a ne. at a ∙ rw (other a ne) (others a ne),
      frame-enter_slot t interval next to_slot (released t w) ∙ fixed,
    )
  where
    other : (a : ℕ) → a ≢ t → (a == t) ≡ false
    other a ne = ground arith
