-- ===== src/Net/IoLoop/TimeOuts.antt =====
-- What a time-out comes to in the loop of io_loop.cc, by the class of the handler.
use green_turtle.Base.{
  ℕ, ◌<◌, ◌≡◌, refl, sym, ap, ◌∙◌, subst, true, false, none, some, List, [], ◌∷◌, ◌++◌, ◌==◌,
  Bool-cases, ==_iff, ==_refl, inl, inr, contains, lt→ltb, append-nil,
}
use green_turtle.Net.EventHandler.{is_timeout}
use green_turtle.Net.Poller.{get_event_handler, check_event_handler_time_out}
use green_turtle.Net.Poller.Backend.{Backend, Laws, handler, get}
use green_turtle.Net.IoLoop.{
  IoLoop, Round, HandlerKind, buffered_socket, tcp_client, tcp_acceptor, removals, second_half,
  loop,
}
use green_turtle.Net.IoLoop.View.{View, view_error, view_all, AllDue, Shows}
use green_turtle.Net.IoLoop.Due.{check_time_out-contains, view_all-append, or_true}
use green_turtle.Net.IoLoop.Rounds.{timed_out, queue, second_half_lem}

module _ (self : ℕ) (kind : ℕ → HandlerKind) where
  gone-view_error :
      (k : HandlerKind) (v : View) (g h : ℕ)
      → v.serves h ≡ false
      → (view_error self k v g).serves h ≡ false
  gone-view_error buffered_socket v g h gone = elim (Bool-cases (h == g)) [
    | inl e ↦ rw e
    | inr e ↦ rw e gone
  ]
  gone-view_error tcp_client v g h gone = gone
  gone-view_error (tcp_acceptor loops) v g h gone = gone

  gone-removals :
      (hs : List ℕ) (v : View) (h : ℕ)
      → v.serves h ≡ false
      → (view_all self kind v (removals hs)).serves h ≡ false
  gone-removals [] v h gone = gone
  gone-removals (g ∷ hs) v h gone =
      gone-removals hs (view_error self (kind g) v g) h (gone-view_error (kind g) v g h gone)

  -- A socket that is among the removed is not served.
  removed_gone :
      (hs : List ℕ) (v : View) (h : ℕ)
      → kind h ≡ buffered_socket
      → contains hs h ≡ true
      → (view_all self kind v (removals hs)).serves h ≡ false
  removed_gone [] v h socket among = absurd (cc)
  removed_gone (g ∷ hs) v h socket among = elim (Bool-cases (g == h)) [
    | inl e ↦
        let same : g ≡ h = (==_iff g h).0 e in
        gone-removals hs (view_error self (kind g) v g) h (rw (same, socket) (rw (==_refl h) refl))
    | inr e ↦ removed_gone hs (view_error self (kind g) v g) h socket (rw e at among)
  ]

  ended-view_error :
      (k : HandlerKind) (v : View) (g : ℕ) → v.ended ≡ true → (view_error self k v g).ended ≡ true
  ended-view_error buffered_socket v g ended = ended
  ended-view_error tcp_client v g ended = refl
  ended-view_error (tcp_acceptor loops) v g ended = rw ended

  ended-removals :
      (hs : List ℕ) (v : View) → v.ended ≡ true → (view_all self kind v (removals hs)).ended ≡ true
  ended-removals [] v ended = ended
  ended-removals (g ∷ hs) v ended =
      ended-removals hs (view_error self (kind g) v g) (ended-view_error (kind g) v g ended)

  -- An acceptor that deals to this loop, among the removed, ends the loop.
  removed_ends :
      (hs : List ℕ) (v : View) (h : ℕ) (loops : List ℕ)
      → kind h ≡ tcp_acceptor loops
      → contains loops self ≡ true
      → contains hs h ≡ true
      → (view_all self kind v (removals hs)).ended ≡ true
  removed_ends [] v h loops acceptor mine among = absurd (cc)
  removed_ends (g ∷ hs) v h loops acceptor mine among = elim (Bool-cases (g == h)) [
    | inl e ↦
        let same : g ≡ h = (==_iff g h).0 e in
        ended-removals hs (view_error self (kind g) v g)
          (rw (same, acceptor) (rw mine (or_true v.ended)))
    | inr e ↦ removed_ends hs (view_error self (kind g) v g) h loops acceptor mine (rw e at among)
  ]

module _ {b : Backend} (laws : Laws b) (kind : ℕ → HandlerKind) (r : Round b) (l : IoLoop b)
    (v : View) (takes : (a : ℕ) → r.taken a ≡ true) (shows : Shows l v)
    (due : AllDue l.self kind v l.changed_handler) (quiet : r.asked ≡ [])
    (second : l.check_timeout < r.seconds) (h : ℕ) (mine : v.serves h ≡ true)
    (late : is_timeout (handler b l.poller h) r.check_time ≡ true) where
  among : contains (timed_out l r) h ≡ true
  unfolding get_event_handler check_event_handler_time_out
  among = rw (lt→ltb l.check_timeout r.seconds second) (
      check_time_out-contains (b.registry l.poller).event_handlers (b.registry l.poller).handlers
        r.check_time (handler b l.poller h).fd h (shows.registered h ∙ rw mine) late)

  all_done :
      (m : IoLoop b) × (second_half kind r l ≡ some m)
      × Shows m (
          view_all l.self kind
            (view_all l.self kind v l.changed_handler)
            (removals (timed_out l r)))
  all_done =
      let (m, done, shows', queue, time, self) = second_half_lem laws kind r l v takes shows due (
        subst
          (AllDue l.self kind
            (view_all l.self kind v (l.changed_handler ++ removals (timed_out l r))))
          (sym quiet) tt) in
      (
        m,
        done,
        subst (Shows m)
            (ap (view_all l.self kind v) (
                ap (λ q. (l.changed_handler ++ removals (timed_out l r)) ++ q) quiet
                ∙ append-nil (l.changed_handler ++ removals (timed_out l r)))
              ∙ view_all-append l.self kind l.changed_handler (removals (timed_out l r)) v)
            shows',
      )

  -- Where the handlers have positive and distinct descriptors, with those that the loop serves
  -- registered under theirs, the system takes every descriptor, what is queued is due when its turn
  -- comes, no other thread asks for a change in the meantime, and the second of the last look is
  -- over: a socket that the loop serves and that timed out is no longer registered when the round
  -- is over.
  pub idle_socket_leaves :
      kind h ≡ buffered_socket
      → (m : IoLoop b) × (second_half kind r l ≡ some m)
        × (get b m.poller (handler b m.poller h).fd ≡ none)
  idle_socket_leaves socket =
      let (m, done, shows') = all_done in
      (
        m,
        done,
        shows'.registered h
            ∙ rw
                (removed_gone l.self kind (timed_out l r) (view_all l.self kind v l.changed_handler)
                  h socket among)
                refl,
      )

  -- Where the handlers have positive and distinct descriptors, with those that the loop serves
  -- registered under theirs, the system takes every descriptor, what is queued is due when its turn
  -- comes, no other thread asks for a change in the meantime, and the second of the last look is
  -- over: an acceptor that the loop serves, that deals to this loop, and to which nobody connected
  -- until it timed out, ends the loop: the next round is not begun.
  pub idle_acceptor_ends :
      (loops : List ℕ)
      → kind h ≡ tcp_acceptor loops
      → contains loops l.self ≡ true
      → (m : IoLoop b) × (second_half kind r l ≡ some m)
        × ((next : Round b) (rest : List (Round b))
            → loop kind (next ∷ rest) m ≡ some (m, next ∷ rest))
  unfolding loop
  idle_acceptor_ends loops acceptor member =
      let (m, done, shows') = all_done in
      let ended : m.terminal ≡ true =
        shows'.ends
        ∙ removed_ends l.self kind (timed_out l r) (view_all l.self kind v l.changed_handler) h
            loops acceptor member among in
      (m, done, λ next rest. rw ended refl)
