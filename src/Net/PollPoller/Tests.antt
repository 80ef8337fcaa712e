-- ===== src/Net/PollPoller/Tests.antt =====
-- Three handlers in a poller, the second of them removed.
use green_turtle.Base.{
  ℕ, suc, ◌+◌, ◌≡◌, refl, sym, ap, subst, false, none, some, List, [], ◌∷◌, arith, length,
  push_back,
}
use green_turtle.Net.EventHandler.{new_handler}
use green_turtle.Net.Poller.{Registry, set_handler, set_event_handler, get_event_handler}
use green_turtle.Net.PollPoller.{
  PollFd, PollPoller, set_index, interest, add_event_handler, remove_event_handler, with_revents,
}
use green_turtle.Net.PollPoller.Places.{IsPlaced, add_lem}
use green_turtle.Net.PollPoller.Removal.{remove_lem}

-- Handler `a` has descriptor `a + 3`, and waits to read.
abbrev nobody : PollPoller
nobody = record {
  registry = record {
    event_handlers = [];
    handlers = λ a. record (new_handler (a + 3) 0) { events = 1 };
  };
  pollfds = [];
  polling = false;
}

nobody-IsPlaced : IsPlaced nobody
unfolding get_event_handler
nobody-IsPlaced = record {
  ready = refl;
  entry = λ i e h. cc;
  placed = λ h i at. cc;
  known = λ fd h at. cc;
}

add_lem_example :
    (q : PollPoller) × (add_event_handler nobody 0 ≡ some q)
    × IsPlaced q
    × (get_event_handler q.registry 3 ≡ some 0)
    × (q.pollfds ≡ push_back [] (record { fd = 3; events = interest 1 }))
unfolding get_event_handler
add_lem_example = add_lem nobody 0 nobody-IsPlaced (omega arith) refl

abbrev alone : PollPoller
alone = elim (add_event_handler nobody 0) [ none ↦ nobody | some q ↦ q ]

alone-IsPlaced : IsPlaced alone
alone-IsPlaced =
    let (q, done, placed, got, fds) = add_lem_example in
    subst IsPlaced (sym (ap (λ o. elim o [ none ↦ nobody | some q ↦ q ]) done)) placed

alone_place : (alone.registry.handlers 0).poll_idx ≡ some 0
unfolding add_event_handler set_event_handler set_index set_handler
alone_place = refl

alone_fd : (alone.registry.handlers 0).fd ≡ 3
unfolding add_event_handler set_event_handler set_index set_handler
alone_fd = refl

remove_lem_example :
    (q : PollPoller) × (remove_event_handler alone 0 ≡ some q)
    × IsPlaced q
    × (get_event_handler q.registry (alone.registry.handlers 0).fd ≡ none)
    × ((q.registry.handlers 0).poll_idx ≡ none)
    × (suc (length q.pollfds) ≡ length alone.pollfds)
remove_lem_example = remove_lem alone 0 0 alone-IsPlaced (omega (arith, alone_fd)) alone_place

-- Two handlers, of which the second fired.
abbrev known_pair : Registry
known_pair = record nobody.registry { event_handlers = (3, 0) ∷ (4, 1) ∷ [] }

abbrev entries : List (PollFd × ℕ)
entries =
    with_revents (record { fd = 3; events = 1 } ∷ record { fd = 4; events = 1 } ∷ []) (0 ∷ 1 ∷ [])
