-- ===== src/Net/TimerQueue/Links.antt =====
-- A timer in the queue of timer_queue.cc and the slot that holds it point at one another.
pub mod Schedule
pub mod Update
use mathlib.Core.Bool.{false≢true}
use green_turtle.Base.{
  ℕ, ◌+◌, ◌-◌, ◌%◌, ◌^◌, ◌≤◌, ◌<◌, ◌≡◌, ◌≢◌, refl, sym, ap, ◌∙◌, subst, Bool, true, false, not,
  ◌&&◌, Option, none, some, List, [], ◌∷◌, arith, ltb, ◌==◌, if◌then◌else◌, length, get_or-set,
  length-set, Bool-cases, ==_iff, ==_refl, inl, inr, lt→ltb, some_inj,
}
use green_turtle.UnorderedList
use green_turtle.UnorderedList.{SlotList, insert_at}
use green_turtle.UnorderedList.Slots.{
  IsValid, slot, insert-IsValid, insert-slot, erase-IsValid, erase-slot,
}
use green_turtle.Net.TimerQueue.{
  Timer, TimerQueue, World, empty_list, deleted_mark, list_at, set_list, set_timer, cancel_timer,
  enter_slot, schedule_timer,
}

-- The timer that position `i` of slot `s` holds.
abbrev pub occupant : World → ℕ → ℕ → Option ℕ
occupant w s i = slot (list_at w s) i

pub record IsLinked (w : World) : Type 0 where
  pub size : length w.wheel.queues ≡ w.wheel.slot_size
  pub lists : (s : ℕ) → IsValid (list_at w s)
  pub marks : (s : ℕ) → (list_at w s).deleted ≡ deleted_mark
  -- Whatever a slot holds is a timer that knows its place.
  pub held :
      (s i t : ℕ)
      → occupant w s i ≡ some t
      → ((w.timers t).in_queue ≡ true)
        × ((w.timers t).iter_slot ≡ s)
        × ((w.timers t).iter_pos ≡ i)
        × (t ≢ 0)
        × (t ≢ deleted_mark)
  -- Whatever timer is in the queue is held where it says.
  pub queued :
      (t : ℕ)
      → (w.timers t).in_queue ≡ true
      → ((w.timers t).iter_slot < w.wheel.slot_size)
        × (occupant w (w.timers t).iter_slot (w.timers t).iter_pos ≡ some t)

-- A change of one list of the wheel, seen at every slot.
pub list_at-set_list :
    (w : World) (s s' : ℕ) (l : SlotList ℕ)
    → s < length w.wheel.queues
    → list_at (set_list w s l) s' ≡ (if s == s' then l else list_at w s')
unfolding set_list
list_at-set_list w s s' l h = get_or-set w.wheel.queues s s' l empty_list h

pub occupant-set_list :
    (w : World) (s p : ℕ) (l : SlotList ℕ) (v : Option ℕ)
    → s < length w.wheel.queues
    → ((i : ℕ) → slot l i ≡ (if p == i then v else slot (list_at w s) i))
    → (s' i : ℕ)
    → occupant (set_list w s l) s' i ≡ (if (s == s') && (p == i) then v else occupant w s' i)
occupant-set_list w s p l v h point s' i =
    ap (λ l. slot l i) (list_at-set_list w s s' l h) ∙ elim (Bool-cases (s == s')) [
      | inl here ↦ let same : s ≡ s' = (==_iff s s').0 here in rw (here, ← same) (point i)
      | inr there ↦ rw there
    ]

-- One list and one timer are replaced, and position `p` of slot `s` now holds `v`.
pub record Moved (w w' : World) (t s p : ℕ) (v : Option ℕ) (timer : Timer) : Type 0 where
  pub same_size : w'.wheel.slot_size ≡ w.wheel.slot_size
  pub size : length w'.wheel.queues ≡ w.wheel.slot_size
  pub lists : (s' : ℕ) → IsValid (list_at w' s')
  pub marks : (s' : ℕ) → (list_at w' s').deleted ≡ deleted_mark
  pub at_slot :
      (s' i : ℕ) → occupant w' s' i ≡ (if (s == s') && (p == i) then v else occupant w s' i)
  pub at_timer : (a : ℕ) → w'.timers a ≡ (if a == t then timer else w.timers a)

module _ {w w' : World} {t s p : ℕ} {timer : Timer} where
  -- A timer that leaves its slot leaves the other links as they were.
  leave-IsLinked :
      IsLinked w
      → Moved w w' t s p none timer
      → timer.in_queue ≡ false
      → (w.timers t).in_queue ≡ true
      → (w.timers t).iter_slot ≡ s
      → (w.timers t).iter_pos ≡ p
      → IsLinked w'
  leave-IsLinked linked moved out was at_s at_p = record {
    size = moved.size ∙ sym moved.same_size;
    lists = moved.lists;
    marks = moved.marks;
    held = λ s' i a h. ground (arith, moved.at_slot s' i, moved.at_timer a, linked.held s' i a);
    queued = λ a h. ground (
      arith,
      moved.same_size,
      moved.at_timer a,
      moved.at_slot (w.timers a).iter_slot (w.timers a).iter_pos,
      linked.queued a,
      linked.queued t,
    );
  }

  -- A timer that enters a free position leaves the other links as they were.
  enter-IsLinked :
      IsLinked w
      → Moved w w' t s p (some t) timer
      → s < w.wheel.slot_size
      → occupant w s p ≡ none
      → (w.timers t).in_queue ≡ false
      → t ≢ 0
      → t ≢ deleted_mark
      → timer.in_queue ≡ true
      → timer.iter_slot ≡ s
      → timer.iter_pos ≡ p
      → IsLinked w'
  enter-IsLinked linked moved inside free out real unmarked now at_s at_p = record {
    size = moved.size ∙ sym moved.same_size;
    lists = moved.lists;
    marks = moved.marks;
    held = λ s' i a h. ground (arith, moved.at_slot s' i, moved.at_timer a, linked.held s' i a);
    queued = λ a h. ground (
      arith,
      moved.same_size,
      moved.at_timer a,
      moved.at_slot s p,
      moved.at_slot (w.timers a).iter_slot (w.timers a).iter_pos,
      linked.queued a,
    );
  }
