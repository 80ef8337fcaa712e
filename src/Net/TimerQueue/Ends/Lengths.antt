-- ===== src/Net/TimerQueue/Ends/Lengths.antt =====
-- A timer that goes back into the wheel of timer_queue.cc does not lengthen the list that it was in.
use green_turtle.Base.{
  ℕ, ◌<◌, ◌≡◌, ◌≢◌, ap, ◌∙◌, subst, true, arith, ◌==◌, length, length-set, Bool-cases, ==_of_ne,
  inl, inr, lt→ltb, word_mod, set, ==_refl, ==_iff,
}
use green_turtle.UnorderedList
use green_turtle.UnorderedList.{SlotList, insert_at}
use green_turtle.Net.TimerQueue.{
  TimerQueue, World, list_at, set_list, set_timer, cancel_timer, enter_slot, schedule_timer,
  slot_for,
}
use green_turtle.Net.TimerQueue.Links.{IsLinked, list_at-set_list}
use green_turtle.Net.TimerQueue.Links.Schedule.{slot_for-lt, frame-cancel}

length-insert-erase :
    (l : SlotList ℕ) (p v : ℕ)
    → length (UnorderedList.insert (UnorderedList.erase l p) v).1.list ≡ length l.list
unfolding UnorderedList.insert UnorderedList.erase
length-insert-erase l p v = length-set (set l.list p l.deleted) p v ∙ length-set l.list p l.deleted

module _ (t s : ℕ) (w : World) (linked : IsLinked w) (real : t ≢ 0)
    (was : (w.timers t).in_queue ≡ true) (at_s : (w.timers t).iter_slot ≡ s) where
  inside : s < length w.wheel.queues
  inside =
      let place = (linked.queued t was).0 in
      subst (λ z. z < length w.wheel.queues) at_s (omega (arith, linked.size))

  list-cancel :
      list_at (cancel_timer t w) s ≡ UnorderedList.erase (list_at w s) (w.timers t).iter_pos
  unfolding cancel_timer set_timer
  list-cancel =
      let place = (linked.queued t was).0 in
      rw (==_of_ne real, was, lt→ltb (w.timers t).iter_slot w.wheel.slot_size place)
        (rw at_s (
          list_at-set_list w s s (UnorderedList.erase (list_at w s) (w.timers t).iter_pos) inside
          ∙ rw (==_refl s)))

  size-cancel : length (cancel_timer t w).wheel.queues ≡ length w.wheel.queues
  unfolding cancel_timer set_timer set_list
  size-cancel =
      let place = (linked.queued t was).0 in
      rw (==_of_ne real, was, lt→ltb (w.timers t).iter_slot w.wheel.slot_size place)
        (length-set w.wheel.queues (w.timers t).iter_slot _)

  pub length-schedule_timer :
      (interval delay : ℕ)
      → 0 < w.wheel.slot_size
      → w.wheel.slot_size < word_mod
      → length (list_at (schedule_timer t interval delay w) s).list ≡ length (list_at w s).list
  unfolding schedule_timer enter_slot set_timer
  length-schedule_timer interval delay pos small =
      let w1 = cancel_timer t w in
      let to = slot_for w1.wheel interval delay in
      let size : w1.wheel.slot_size ≡ w.wheel.slot_size =
        ap (λ (f : TimerQueue). f.slot_size) (frame-cancel t w) in
      let there : to < length w1.wheel.queues =
        let lt = slot_for-lt w1.wheel interval delay (rw size pos) (rw size small) in
        omega (arith, size, size-cancel, linked.size) in
      let erased = length-set (list_at w s).list (w.timers t).iter_pos (list_at w s).deleted in
      rw was (
        ap (λ (l : SlotList ℕ). length l.list)
          (list_at-set_list w1 to s (UnorderedList.insert (list_at w1 to) t).1 there)
        ∙ elim (Bool-cases (to == s)) [
          | inl e ↦
              let same : to ≡ s = (==_iff to s).0 e in
              rw e (
                ap (λ z. length (UnorderedList.insert (list_at w1 z) t).1.list) same
                ∙ ap (λ l. length (UnorderedList.insert l t).1.list) list-cancel
                ∙ length-insert-erase (list_at w s) (w.timers t).iter_pos t)
          | inr e ↦ rw e (
              ap (λ (l : SlotList ℕ). length l.list) list-cancel
              ∙ unfold UnorderedList.erase in erased)
        ])
