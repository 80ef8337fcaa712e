-- ===== src/Net/IoLoop/Rounds.antt =====
-- A round of the loop of io_loop.cc, as a change of the set of handlers.
use green_turtle.Base.{
  ℕ, ◌≡◌, refl, sym, ap, ◌∙◌, Bool, true, none, some, List, [], ◌++◌, ltb, if◌then◌else◌,
  Bool-cases, inl, inr, append-nil,
}
use green_turtle.Net.Poller.{get_event_handler, check_event_handler_time_out}
use green_turtle.Net.Poller.Backend.{Backend, Laws, get}
use green_turtle.Net.IoLoop.{
  IoLoop, Round, HandlerKind, removals, check_time_outs, drain, second_half,
}
use green_turtle.Net.IoLoop.View.{View, view_all, AllDue, Shows}
use green_turtle.Net.IoLoop.Due.{AllTrue, check_time_out-AllTrue, AllDue-removals, AllDue-append}
use green_turtle.Net.IoLoop.Changes.{Shows-ended, apply_all_lem}

-- The handlers that a round finds to have timed out, if it looks for them.
abbrev pub timed_out : {b : Backend} → IoLoop b → Round b → List ℕ
timed_out {b} l r =
    if ltb l.check_timeout r.seconds
    then check_event_handler_time_out (b.registry l.poller) r.check_time []
    else []

-- What the round works off: the queue, the time-outs, and what the other threads asked for.
abbrev pub queue : {b : Backend} → IoLoop b → Round b → List (Bool × ℕ)
queue l r = (l.changed_handler ++ removals (timed_out l r)) ++ r.asked

module _ {b : Backend} (laws : Laws b) where
  pub get-serves :
      (l : IoLoop b) (v : View) (j h : ℕ)
      → Shows l v
      → get b l.poller j ≡ some h
      → v.serves h ≡ true
  get-serves l v j h shows there = elim (Bool-cases (v.serves h)) [
    | inl e ↦ e
    | inr e ↦
        let name = laws.named l.poller j h shows.valid there in
        let x : some h ≡ none =
          sym there ∙ ap (get b l.poller) (sym name) ∙ shows.registered h ∙ rw e in
        cc
  ]

  pub timed_out-AllTrue :
      (l : IoLoop b) (v : View) (r : Round b) → Shows l v → AllTrue v.owns (timed_out l r)
  unfolding check_event_handler_time_out get_event_handler
  timed_out-AllTrue l v r shows = elim (Bool-cases (ltb l.check_timeout r.seconds)) [
    | inl e ↦ rw e (
        check_time_out-AllTrue (b.registry l.poller).event_handlers (b.registry l.poller).handlers
          r.check_time v.owns shows.unique
          (λ j h there. shows.served h (get-serves l v j h shows there)))
    | inr e ↦ rw e tt
  ]

  Shows-same :
      (l m : IoLoop b) (v : View)
      → Shows l v
      → m.poller ≡ l.poller
      → m.self ≡ l.self
      → m.terminal ≡ l.terminal
      → Shows m v
  Shows-same l m v shows poller self terminal =
      Shows-ended laws m v.ended shows poller self (terminal ∙ shows.ends)

  -- From the check for time-outs on, a round works off the queue, the removal of every handler that
  -- timed out, and what the other threads asked for before it took the queue; then the queue is
  -- empty.
  pub second_half_lem :
      (kind : ℕ → HandlerKind) (r : Round b) (l : IoLoop b) (v : View)
      → ((a : ℕ) → r.taken a ≡ true)
      → Shows l v
      → AllDue l.self kind v l.changed_handler
      → AllDue l.self kind
          (view_all l.self kind v (l.changed_handler ++ removals (timed_out l r)))
          r.asked
      → (m : IoLoop b) × (second_half kind r l ≡ some m)
        × Shows m (view_all l.self kind v (queue l r))
        × (m.changed_handler ≡ [])
        × (m.check_timeout
            ≡ (if ltb l.check_timeout r.seconds then r.seconds_after else l.check_timeout))
        × (m.self ≡ l.self)
  unfolding second_half drain check_time_outs
  second_half_lem kind r l v takes shows due due' =
      let all =
        AllDue-append l.self kind (l.changed_handler ++ removals (timed_out l r)) r.asked v
          (AllDue-removals l.self kind l.changed_handler v (timed_out l r) due
            (timed_out-AllTrue l v r shows))
          due' in
      elim (Bool-cases (ltb l.check_timeout r.seconds)) [
        | inl e ↦
            let l' : IoLoop b = record l {
              check_timeout = r.seconds_after;
              changed_handler = [];
            } in
            let (m, done, shows', stays) =
              apply_all_lem laws kind r.taken (queue l r) l' v takes
                (Shows-same l l' v shows refl refl refl) all in
            (
              m,
              rw (e, check_time_outs) (rw e at done),
              shows',
              stays.changed_handler,
              rw e stays.check_timeout,
              stays.self,
            )
        | inr e ↦
            let l' : IoLoop b = record l { changed_handler = [] } in
            let (m, done, shows', stays) =
              apply_all_lem laws kind r.taken (queue l r) l' v takes
                (Shows-same l l' v shows refl refl refl) all in
            (
              m,
              rw (e, check_time_outs) (rw (e, append-nil l.changed_handler) at done),
              shows',
              stays.changed_handler,
              rw e stays.check_timeout,
              stays.self,
            )
      ]
