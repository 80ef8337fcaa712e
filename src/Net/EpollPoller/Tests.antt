-- ===== src/Net/EpollPoller/Tests.antt =====
-- A handler that the system refuses, and one event that both pollers report.
use green_turtle.Base.{ℕ, ◌+◌, ◌≡◌, refl, false, none, some, List, [], ◌∷◌, arith, push_back}
use green_turtle.Net.EventHandler.{new_handler}
use green_turtle.Net.Poller.{Registry, get_event_handler}
use green_turtle.Net.Poller.Backend.{Changed}
use green_turtle.Net.PollPoller.{PollFd, collect}
use green_turtle.Net.EpollPoller.{
  EpollPoller, new_epoll_poller, ctl_add, epoll_interest, epoll_add, epoll_collect,
}
use green_turtle.Net.EpollPoller.Methods.{IsNamed, epoll_backend, epoll_add_lem}
use green_turtle.Net.EpollPoller.Agrees.{fired_events, collect-epoll_collect}

abbrev nobody : Registry
nobody = record {
  event_handlers = [];
  handlers = λ a. record (new_handler (a + 3) 0) { events = 3 };
}

nobody-IsNamed : IsNamed (new_epoll_poller nobody)
unfolding get_event_handler
nobody-IsNamed = record { ready = refl; named = λ fd h got. cc }

-- The system is asked for reading and writing.
both_interests : epoll_interest 3 ≡ 5
unfolding epoll_interest
both_interests = refl

one_added :
    (q : EpollPoller) × (epoll_add (new_epoll_poller nobody) 2 false ≡ some q)
    × Changed epoll_backend (new_epoll_poller nobody) q 5 none
    × (q.ctls ≡ push_back [] (record { operation = ctl_add; fd = 5; events = epoll_interest 3 }))
one_added = epoll_add_lem (new_epoll_poller nobody) 2 nobody-IsNamed (omega arith) false

abbrev pair : Registry
pair = record nobody { event_handlers = (3, 0) ∷ (4, 1) ∷ [] }

abbrev entries : List (PollFd × ℕ)
entries = (record { fd = 3; events = 1 }, 0) ∷ (record { fd = 4; events = 5 }, 16) ∷ []

collect-epoll_collect_example :
    collect pair entries 1 [] ≡ epoll_collect pair (fired_events entries) []
collect-epoll_collect_example = collect-epoll_collect entries pair 1 [] (omega arith)
