-- ===== src/Net/TimerQueue/Ends/Turns.antt =====
-- The loops of `Update` in timer_queue.cc end.
use green_turtle.Base.{
  ℕ, zero, suc, ◌+◌, ◌-◌, ◌≤◌, ◌<◌, ◌≡◌, refl, sym, ap, ◌∙◌, subst, true, false, Option, none, some,
  arith, ltb, ◌==◌, length, get_elem?, get_elem?-none, Bool-cases, Option-cases, inl, inr, word_mod,
  add64, if◌then◌else◌, le→ltb, ltb→lt,
}
use green_turtle.UnorderedList.{visit, for_each}
use green_turtle.Net.TimerQueue.{
  TimerQueue, World, pointer, list_at, visit_timer, tick, turn_wheel, update_loop, update,
}
use green_turtle.Net.TimerQueue.Links.Schedule.{frame}
use green_turtle.Net.TimerQueue.Links.Update.{Sound, clock-Sound, tick-Sound, update-Sound}
use green_turtle.Net.TimerQueue.Ends.Visits.{Timely, visit_ends}

module _ (on_time_out : ℕ → ℕ → World → World)
    (quiet : (t time : ℕ) (w : World) → on_time_out t time w ≡ w) (limit longest : ℕ)
    (fits : limit + limit < word_mod) where
  abbrev walk : ℕ → ℕ → ℕ → ℕ → World → Option World
  walk s inner outer iter w =
      for_each pointer (λ v. list_at v s) (λ t i v. visit_timer on_time_out inner s t i v) outer
        iter w

  walk_out :
      (s iter : ℕ) (w : World)
      → get_elem? (list_at w s).list iter ≡ none
      → (inner outer : ℕ) → 0 < outer
      → walk s inner outer iter w ≡ some w
  unfolding for_each
  walk_out s iter w out inner zero pos = absurd (omega arith)
  walk_out s iter w out inner (suc outer) pos = rw (out, for_each) refl

  walk_step :
      (s iter : ℕ) (w : World) (t : ℕ)
      → get_elem? (list_at w s).list iter ≡ some t
      → (u : World) (inner outer : ℕ) {v : World} → 0 < outer
      → visit pointer (λ v. list_at v s) (λ t i v. visit_timer on_time_out inner s t i v) iter w t
        ≡ some (true, u)
      → walk s inner (outer - 1) (suc iter) u ≡ some v
      → walk s inner outer iter w ≡ some v
  unfolding for_each
  walk_step s iter w t there u inner zero pos visited rest = absurd (omega arith)
  walk_step s iter w t there u inner (suc outer) pos visited rest =
      let less : suc outer - 1 ≡ outer = omega arith in
      rw (there, for_each) (rw (visited) (rw less at rest))

  -- The walk over what is left of a list.
  walk_ends :
      (k s iter : ℕ) (w : World)
      → Timely limit longest w
      → w.wheel.last_update_time + longest ≤ limit
      → length (list_at w s).list ≤ iter + k
      → (v : World) × ((inner outer : ℕ)
          → limit + 1 < inner
          → k < outer
          → walk s inner outer iter w ≡ some v)
        × Timely limit longest v
        × (frame v.wheel ≡ frame w.wheel)
  unfolding for_each visit
  walk_ends zero s iter w timely room short =
      let out = get_elem?-none (list_at w s).list iter (omega arith) in
      (w, λ inner outer a b. walk_out s iter w out inner outer (omega arith), timely, refl)
  walk_ends (suc k) s iter w timely room short =
      elim (Option-cases (get_elem? (list_at w s).list iter)) [
        | inl out ↦
            (w, λ inner outer a b. walk_out s iter w out inner outer (omega arith), timely, refl)
        | inr (t, there) ↦ elim (Bool-cases (t == (list_at w s).deleted)) [
          | inl dead ↦
              let (v, done, timely', same) = walk_ends k s (suc iter) w timely room (omega arith) in
              (
                v,
                λ inner outer a b.
                    walk_step s iter w t there w inner outer (omega arith) (rw dead refl)
                      (done inner (outer - 1) a (omega arith)),
                timely',
                same,
              )
          | inr live ↦
              let (u, visited, timely_u, size, kept) =
                visit_ends on_time_out quiet limit longest w timely room fits s iter t there live in
              let time : u.wheel.last_update_time ≡ w.wheel.last_update_time =
                ap (λ (q : TimerQueue). q.last_update_time) kept in
              let (v, done, timely', same) =
                walk_ends k s (suc iter) u timely_u (rw time room) (omega (arith, size)) in
              (
                v,
                λ inner outer a b.
                    walk_step s iter w t there u inner outer (omega arith)
                      (rw live (visited inner a)) (done inner (outer - 1) a (omega arith)),
                timely',
                same ∙ kept,
              )
        ]
      ]

  tick-Timely : (w : World) → Timely limit longest w → Timely limit longest (tick w)
  tick-Timely w timely = record {
    sound = tick-Sound w timely.sound;
    due = unfold tick in timely.due;
  }

  -- One round of the loop, from a wheel that is behind.
  turn_ends :
      (w : World)
      → Timely limit longest w
      → w.wheel.last_update_time + w.wheel.interval + longest ≤ limit
      → (v : World) × (need : ℕ) × ((fuel : ℕ)
          → need ≤ fuel
          → turn_wheel on_time_out fuel w ≡ some v)
        × Timely limit longest v
        × (v.wheel.interval ≡ w.wheel.interval)
        × (v.wheel.last_update_time ≡ w.wheel.last_update_time + w.wheel.interval)
  unfolding turn_wheel tick
  turn_ends w timely room =
      let s = w.wheel.current_slot in
      let time : add64 w.wheel.last_update_time w.wheel.interval
          ≡ w.wheel.last_update_time + w.wheel.interval =
        omega arith in
      let count = length (list_at (tick w) s).list in
      let (v, done, timely', same) =
        walk_ends count s 0 (tick w) (tick-Timely w timely) (rw time room) (omega arith) in
      (
        v,
        limit + 2 + count,
        λ fuel enough. done fuel fuel (omega arith) (omega arith),
        timely',
        ap (λ (q : TimerQueue). q.interval) same,
        ap (λ (q : TimerQueue). q.last_update_time) same ∙ time,
      )

  loop_stops :
      (fuel target : ℕ) (w : World)
      → 1 ≤ fuel
      → ltb w.wheel.last_update_time target ≡ false
      → update_loop on_time_out fuel target w ≡ some w
  unfolding update_loop
  loop_stops zero target w enough done = absurd (omega arith)
  loop_stops (suc fuel) target w enough done = rw (done, update_loop) refl

  loop_goes :
      (fuel target : ℕ) (w v : World) {u : World}
      → 1 ≤ fuel
      → ltb w.wheel.last_update_time target ≡ true
      → turn_wheel on_time_out (fuel - 1) w ≡ some v
      → update_loop on_time_out (fuel - 1) target v ≡ some u
      → update_loop on_time_out fuel target w ≡ some u
  unfolding update_loop
  loop_goes zero target w v enough behind turned rest = absurd (omega arith)
  loop_goes (suc fuel) target w v enough behind turned rest =
      let less : suc fuel - 1 ≡ fuel = omega arith in
      rw (behind, update_loop) (rw (rw less at turned) (rw less at rest))

  -- `r` is at least what the wheel is behind, and more than 0 where it is behind.
  loop_ends :
      (r target : ℕ) (w : World)
      → Timely limit longest w
      → 0 < w.wheel.interval
      → target + w.wheel.interval + longest ≤ limit
      → target ≤ w.wheel.last_update_time + r
      → (need : ℕ) × (v : World) × ((fuel : ℕ)
          → need ≤ fuel
          → update_loop on_time_out fuel target w ≡ some v)
        × Timely limit longest v
        × (v.wheel.interval ≡ w.wheel.interval)
  loop_ends zero target w timely pos room near = (
    1,
    w,
    λ fuel enough.
        loop_stops fuel target w enough (le→ltb w.wheel.last_update_time target (omega arith)),
    timely,
    refl,
  )
  loop_ends (suc r) target w timely pos room near =
      elim (Bool-cases (ltb w.wheel.last_update_time target)) [
        | inr done ↦ (1, w, λ fuel enough. loop_stops fuel target w enough done, timely, refl)
        | inl behind ↦
            let (v, need, turned, timely_v, step, time) =
              turn_ends w timely (omega (arith, ltb→lt w.wheel.last_update_time target behind)) in
            let (need', u, rest, timely_u, same) =
              loop_ends r target v timely_v (rw step pos) (rw step room) (omega (arith, time)) in
            (
              suc (need + need'),
              u,
              λ fuel enough.
                  loop_goes fuel target w v (omega arith) behind (turned (fuel - 1) (omega arith))
                    (rest (fuel - 1) (omega arith)),
              timely_u,
              same ∙ step,
            )
      ]

  clock-Timely :
      (time : ℕ) (w : World)
      → Timely limit longest w
      → Timely limit longest (record w { wheel = record w.wheel { last_update_time = time } })
  clock-Timely time w timely = record { sound = clock-Sound time w timely.sound; due = timely.due }

  -- What `Update` starts its loop with.
  abbrev started : ℕ → World → World
  started current_time w =
      if w.wheel.last_update_time == 0
      then record w { wheel = record w.wheel { last_update_time = current_time } }
      else w

  started_lem :
      (current_time : ℕ) (w : World)
      → Timely limit longest w
      → Timely limit longest (started current_time w)
        × ((started current_time w).wheel.interval ≡ w.wheel.interval)
  started_lem current_time w timely = elim (Bool-cases (w.wheel.last_update_time == 0)) [
    | inl e ↦ rw e (clock-Timely current_time w timely, refl)
    | inr e ↦ rw e (timely, refl)
  ]

  -- `Update` ends, if the timers in the queue have positive intervals up to `longest` and next times
  -- up to `limit`, which is not before the time that the wheel may reach and the longest interval
  -- after it, and if what the timers do leaves the wheel alone: some fuel is enough, and so is more;
  -- then the timers are as they were asked to be, the frame time is the same, and the wheel has gone
  -- past the current time.
  pub update_ends :
      (current_time : ℕ) (w : World)
      → Timely limit longest w
      → 0 < w.wheel.interval
      → current_time + w.wheel.interval + w.wheel.interval + longest ≤ limit
      → (need : ℕ) × (v : World) × ((fuel : ℕ)
          → need ≤ fuel
          → update on_time_out fuel current_time w ≡ some v)
        × Timely limit longest v
        × (v.wheel.interval ≡ w.wheel.interval)
        × (current_time + w.wheel.interval ≤ v.wheel.last_update_time)
  unfolding update
  update_ends current_time w timely pos room =
      let target = add64 current_time w.wheel.interval in
      let sum : target ≡ current_time + w.wheel.interval = omega arith in
      let polite = λ (t time : ℕ) (x : World) (s : Sound x). subst Sound (sym (quiet t time x)) s in
      let (timely', same) = started_lem current_time w timely in
      let (need, v, done, timely_v, kept) =
        loop_ends target target (started current_time w) timely' (rw same pos) (omega (arith, same))
          (omega arith) in
      let (_, past) =
        update-Sound on_time_out polite need current_time w v timely.sound
          (done need (omega arith)) in
      (need, v, done, timely_v, kept ∙ same, rw sum at past)
