-- ===== src/Net/IoLoop/WholeRound.antt =====
-- A whole round of the loop of io_loop.cc, from polling to the end of the queue.
use green_turtle.Base.{
  ℕ, ◌<◌, ◌≡◌, sym, ap, ◌∙◌, subst, true, some, List, [], ◌∷◌, ◌++◌, IsMap, contains, ltb, lt→ltb,
  if◌then◌else◌,
}
use green_turtle.Net.EventHandler.{is_timeout}
use green_turtle.Net.Poller.{get_event_handler, check_event_handler_time_out}
use green_turtle.Net.Poller.Backend.{Backend, Laws, handler, get, AllRegistered}
use green_turtle.Net.IoLoop.{IoLoop, Round, HandlerKind, removals, handle_all, round}
use green_turtle.Net.IoLoop.View.{View, view_all, AllDue, Shows}
use green_turtle.Net.IoLoop.Due.{AllTrue, check_time_out-contains}
use green_turtle.Net.IoLoop.Rounds.{timed_out, get-serves, second_half_lem}
use green_turtle.Net.IoLoop.Handling.{failures, all_asked, handle_all_lem}

-- The loop after `PollOnce`, and the handlers that fired.
abbrev pub after_poll : {b : Backend} → IoLoop b → Round b → IoLoop b
after_poll {b} l r = record l { poller = (b.poll_once l.poller r.report).0 }

abbrev pub fired_of : {b : Backend} → IoLoop b → Round b → List ℕ
fired_of {b} l r = (b.poll_once l.poller r.report).1

module _ {b : Backend} (laws : Laws b) where
  polled-Shows : (l : IoLoop b) (v : View) (r : Round b) → Shows l v → Shows (after_poll l r) v
  polled-Shows l v r shows =
      let polled = laws.polls l.poller r.report shows.valid in
      let q = (b.poll_once l.poller r.report).0 in
      let fd : (a : ℕ) → (handler b q a).fd ≡ (handler b l.poller a).fd =
        λ a. (polled.same.keeps a).fd in
      record {
        valid = polled.valid;
        unique = subst IsMap (sym polled.same.pairs) shows.unique;
        positive = λ a. subst (λ z. 0 < z) (sym (fd a)) (shows.positive a);
        distinct = λ a c e. shows.distinct a c (sym (fd a) ∙ e ∙ fd c);
        registered = λ a.
            ap (get b q) (fd a) ∙ polled.same.get (handler b l.poller a).fd ∙ shows.registered a;
        owned = λ a mine. (polled.same.keeps a).event_loop ∙ shows.owned a mine;
        served = shows.served;
        ends = shows.ends;
      }

  registered-AllTrue :
      (l : IoLoop b) (v : View) (hs : List ℕ)
      → Shows l v
      → AllRegistered (b.registry l.poller) hs
      → AllTrue v.owns hs
  registered-AllTrue l v [] shows all = tt
  registered-AllTrue l v (h ∷ hs) shows all = (
    shows.served h (get-serves laws l v all.0.0 h shows all.0.1),
    registered-AllTrue l v hs shows all.1,
  )

  -- Every handler that the loop serves, and that timed out, is found by a round that looks.
  timed_out-contains :
      (n : IoLoop b) (v : View) (r : Round b) (h : ℕ)
      → Shows n v
      → n.check_timeout < r.seconds
      → v.serves h ≡ true
      → is_timeout (handler b n.poller h) r.check_time ≡ true
      → contains (timed_out n r) h ≡ true
  unfolding get_event_handler check_event_handler_time_out
  timed_out-contains n v r h shows second mine late = rw (lt→ltb n.check_timeout r.seconds second) (
      check_time_out-contains (b.registry n.poller).event_handlers (b.registry n.poller).handlers
        r.check_time (handler b n.poller h).fd h (shows.registered h ∙ rw mine) late)

  -- Of a loop whose handlers have positive and distinct descriptors, with those that it serves
  -- registered under theirs, a round in which the system takes every descriptor, and whose changes
  -- are due when their turn comes, whoever timed out, succeeds. It removes or ends for the handlers
  -- that failed, and then works off what was queued before, what the handlers asked for, the
  -- handlers that the poller reports to have timed out, and what other threads asked for; then the
  -- queue is empty. Every handler that is still served and timed out is among those, if the second
  -- in which time-outs were last looked for is over; and that second is then taken anew.
  pub round_lem :
      (kind : ℕ → HandlerKind) (r : Round b) (l : IoLoop b) (v : View)
      → ((a : ℕ) → r.taken a ≡ true)
      → Shows l v
      → let failed = failures kind r.outcome (after_poll l r) (fired_of l r) in
        AllDue l.self kind
          (view_all l.self kind v (removals failed))
          (l.changed_handler ++ all_asked r.outcome (fired_of l r))
        → let failed = failures kind r.outcome (after_poll l r) (fired_of l r) in
          ((late : List ℕ)
            → AllDue l.self kind
                (view_all l.self kind
                  (view_all l.self kind v (removals failed))
                  ((l.changed_handler ++ all_asked r.outcome (fired_of l r)) ++ removals late))
                r.asked)
          → let v' =
              view_all l.self kind v
                (removals (failures kind r.outcome (after_poll l r) (fired_of l r))) in
            (n : IoLoop b) × (m : IoLoop b) × (handle_all kind r.outcome
                (after_poll l r)
                (fired_of l r)
              ≡ some n)
            × (round kind r l ≡ some m)
            × Shows m (
                view_all l.self kind v' (
                  ((l.changed_handler ++ all_asked r.outcome (fired_of l r))
                    ++ removals (timed_out n r))
                  ++ r.asked))
            × ((h : ℕ)
                → l.check_timeout < r.seconds
                → v'.serves h ≡ true
                → is_timeout (handler b n.poller h) r.check_time ≡ true
                → contains (timed_out n r) h ≡ true)
            × (m.changed_handler ≡ [])
            × (m.check_timeout
                ≡ (if ltb l.check_timeout r.seconds then r.seconds_after else l.check_timeout))
            × (m.self ≡ l.self)
  unfolding round
  round_lem kind r l v takes shows due due' =
      let polled = laws.polls l.poller r.report shows.valid in
      let failed = failures kind r.outcome (after_poll l r) (fired_of l r) in
      let (n, handled, shown, self, asked, time) =
        handle_all_lem laws kind r.outcome (fired_of l r) (after_poll l r) v
          (polled-Shows l v r shows) (registered-AllTrue l v (fired_of l r) shows polled.known) in
      let v' = view_all l.self kind v (removals failed) in
      let late = timed_out n r in
      let due_n : AllDue n.self kind v' n.changed_handler =
        subst (λ s. AllDue s kind v' n.changed_handler) (sym self)
          (subst (AllDue l.self kind v') (sym asked) due) in
      let due_n' : AllDue n.self kind (view_all n.self kind v' (n.changed_handler ++ removals late))
          r.asked =
        subst (λ s. AllDue s kind (view_all s kind v' (n.changed_handler ++ removals late)) r.asked)
          (sym self)
          (subst (λ q. AllDue l.self kind (view_all l.self kind v' (q ++ removals late)) r.asked)
            (sym asked) (due' late)) in
      let (m, done, shows', empty, time', self') =
        second_half_lem laws kind r n v' takes shown due_n due_n' in
      (
        n,
        m,
        handled,
        rw (handled, round) done,
        subst
            (λ s. Shows m (
              view_all s kind v' (
                ((l.changed_handler ++ all_asked r.outcome (fired_of l r)) ++ removals late)
                ++ r.asked)))
            self
            (subst (λ q. Shows m (view_all n.self kind v' ((q ++ removals late) ++ r.asked))) asked
              shows'),
        λ h second mine past.
            timed_out-contains n v' r h shown (subst (λ t. t < r.seconds) (sym time) second) mine
              past,
        empty,
        time' ∙ ap (λ t. if ltb t r.seconds then r.seconds_after else t) time,
        self' ∙ self,
      )
