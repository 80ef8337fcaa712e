-- ===== src/Net/KqueuePoller/Tests.antt =====
-- A handler that waits for both events, of which the system takes writing alone.
use green_turtle.Base.{◌+◌, ◌≡◌, refl, inl, inr, true, false, none, some, [], ◌∷◌, ◌++◌, arith}
use green_turtle.Net.EventHandler.{new_handler}
use green_turtle.Net.Poller.{Registry, get_event_handler}
use green_turtle.Net.KqueuePoller.{
  KqueuePoller, ev_add, ev_delete, evfilt_read, evfilt_write, kqueue_add, kqueue_collect,
}
use green_turtle.Net.KqueuePoller.Filters.{AllBoth, kqueue_collect-AllBoth}
use green_turtle.Net.KqueuePoller.Refused.{changes, kqueue_half_added}

abbrev nobody : KqueuePoller
nobody = record {
  registry = record {
    event_handlers = [];
    handlers = λ a. record (new_handler (a + 3) 0) { events = 3 };
  };
  events_size = 128;
  polling = false;
  kevents = [];
}

kqueue_half_added_example :
    (q : KqueuePoller) × (kqueue_add nobody 2 false true ≡ some q)
    × (get_event_handler q.registry 5 ≡ none)
    × (q.kevents
        ≡ []
          ++ changes 5 (
              (ev_add, evfilt_read)
              ∷ (ev_delete, evfilt_read)
              ∷ (ev_delete, evfilt_write)
              ∷ (ev_add, evfilt_write)
              ∷ []))
kqueue_half_added_example = kqueue_half_added nobody 2 refl (omega arith) refl refl

abbrev pair : Registry
pair = record nobody.registry { event_handlers = (3, 0) ∷ (4, 1) ∷ [] }

both_told :
    let c = kqueue_collect pair ((4, evfilt_read) ∷ (3, evfilt_write) ∷ []) [] in AllBoth c.0 c.1
both_told =
    kqueue_collect-AllBoth ((4, evfilt_read) ∷ (3, evfilt_write) ∷ []) pair []
      (inl refl, (inr refl, tt)) tt
