-- ===== src/Net/IoLoop/Tests.antt =====
-- A loop over an EpollPoller, that serves one handler with a second one in its queue.
use green_turtle.Base.{
  ℕ, ◌+◌, ◌≡◌, refl, true, false, none, some, List, [], ◌∷◌, ◌++◌, ◌==◌, if◌then◌else◌, Bool-cases,
  inl, inr, arith, contains, ltb, ◌<◌,
}
use green_turtle.Net.EventHandler.{
  Status, EventHandler, new_handler, is_timeout, handle_event, handle_write,
}
use green_turtle.Net.Poller.{set_handler, get_event_handler}
use green_turtle.Net.Poller.Backend.{handler, get}
use green_turtle.Net.EpollPoller.{
  EpollPoller, new_epoll_poller, epoll_once, epoll_collect, epoll_mask,
}
use green_turtle.Net.EpollPoller.Methods.{epoll_backend, epoll_laws}
use green_turtle.Net.IoLoop.{
  HandlerKind, buffered_socket, tcp_acceptor, IoLoop, Round, removals, second_half, handle_one,
  handle_all, round, loop,
}
use green_turtle.Net.IoLoop.View.{View, view_all, Shows}
use green_turtle.Net.IoLoop.Rounds.{timed_out}
use green_turtle.Net.IoLoop.Handling.{failures, all_asked}
use green_turtle.Net.IoLoop.WholeRound.{after_poll, fired_of, round_lem}
use green_turtle.Net.IoLoop.TimeOuts.{idle_socket_leaves, idle_acceptor_ends}

-- Handler `a` has descriptor `a + 3`, and waits to read.
abbrev waiting : ℕ → EventHandler
waiting a = record (new_handler (a + 3) 0) { events = 1; event_loop = some 7 }

abbrev poller : EpollPoller
poller = new_epoll_poller (record { event_handlers = (3, 0) ∷ []; handlers = waiting })

abbrev serving : IoLoop epoll_backend
serving = record {
  self = 7;
  terminal = false;
  check_timeout = 50;
  poller = poller;
  changed_handler = (true, 1) ∷ [];
  outside = [];
}

abbrev first_only : View
first_only = record { serves = λ a. a == 0; owns = λ a. true; ended = false }

found : (a : ℕ) → get epoll_backend poller (a + 3) ≡ (if a == 0 then some a else none)
unfolding get_event_handler
found a = elim (Bool-cases (a == 0)) [ inl e ↦ ground arith | inr e ↦ ground arith ]

serving-Shows : Shows serving first_only
unfolding get_event_handler
serving-Shows = record {
  valid = record { ready = refl; named = λ fd h got. ground arith };
  unique = (refl, tt);
  positive = λ a. omega arith;
  distinct = λ a c e. omega arith;
  registered = found;
  owned = λ a mine. refl;
  served = λ a mine. refl;
  ends = refl;
}

abbrev quiet_round : Round epoll_backend
quiet_round = record {
  report = (3, 1) ∷ [];
  outcome = λ a. record { now = 9; read_result = Status.ok; write_result = Status.ok; asked = [] };
  seconds = 60;
  seconds_after = 60;
  check_time = 60000;
  asked = [];
  taken = λ a. true;
}

abbrev sockets : ℕ → HandlerKind
sockets a = buffered_socket

abbrev acceptors : ℕ → HandlerKind
acceptors a = tcp_acceptor (6 ∷ 7 ∷ [])

late : is_timeout (waiting 0) 60000 ≡ true
unfolding is_timeout
late = refl

idle_socket_leaves_example :
    (m : IoLoop epoll_backend) × (second_half sockets quiet_round serving ≡ some m)
    × (get epoll_backend m.poller (handler epoll_backend m.poller 0).fd ≡ none)
idle_socket_leaves_example =
    idle_socket_leaves epoll_laws sockets quiet_round serving first_only (λ a. refl) serving-Shows
      (refl, tt) refl (omega arith) 0 refl late refl

idle_acceptor_ends_example :
    (m : IoLoop epoll_backend) × (second_half acceptors quiet_round serving ≡ some m)
    × ((next : Round epoll_backend) (rest : List (Round epoll_backend))
        → loop acceptors (next ∷ rest) m ≡ some (m, next ∷ rest))
idle_acceptor_ends_example =
    idle_acceptor_ends epoll_laws acceptors quiet_round serving first_only (λ a. refl) serving-Shows
      (refl, tt) refl (omega arith) 0 refl late (6 ∷ 7 ∷ []) refl refl

round_lem_example :
    let v' = view_all 7 sockets first_only (
      removals (
        failures sockets quiet_round.outcome
          (after_poll serving quiet_round)
          (fired_of serving quiet_round))) in
    (n : IoLoop epoll_backend) × (m : IoLoop epoll_backend) × (handle_all sockets
        quiet_round.outcome
        (after_poll serving quiet_round)
        (fired_of serving quiet_round)
      ≡ some n)
    × (round sockets quiet_round serving ≡ some m)
    × Shows m (
        view_all 7 sockets v' (
          (((true, 1) ∷ []) ++ all_asked quiet_round.outcome (fired_of serving quiet_round))
          ++ removals (timed_out n quiet_round)
          ++ []))
    × ((h : ℕ)
        → serving.check_timeout < quiet_round.seconds
        → v'.serves h ≡ true
        → is_timeout (handler epoll_backend n.poller h) quiet_round.check_time ≡ true
        → contains (timed_out n quiet_round) h ≡ true)
    × (m.changed_handler ≡ [])
    × (m.check_timeout ≡ (
        if ltb serving.check_timeout quiet_round.seconds
        then quiet_round.seconds_after
        else serving.check_timeout))
    × (m.self ≡ 7)
unfolding epoll_once epoll_collect get_event_handler set_handler handle_one handle_event
    handle_write epoll_mask
round_lem_example =
    round_lem epoll_laws sockets quiet_round serving first_only (λ a. refl) serving-Shows (refl, tt)
      (λ l. tt)
