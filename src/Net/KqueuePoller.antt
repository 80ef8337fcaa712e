-- ===== src/Net/KqueuePoller.antt =====
-- `KqueuePoller` of green_turtle/net/kqueue_poller.{h,cc}: the calls of `kevent`, and what it
-- reported.
pub mod Filters
pub mod Refused
mod Tests
use green_turtle.Base.{
  ℕ, ◌+◌, ◌*◌, Bool, true, false, Option, none, some, List, [], ◌∷◌, ◌<◌, leb, if◌then◌else◌,
  push_back,
}
use green_turtle.Net.EventHandler.{EventHandler, event_readable, event_writeable}
use green_turtle.Net.Poller.{Registry, set_handler, set_event_handler, get_event_handler}
use green_turtle.Net.PollPoller.{has}

-- EVFILT_READ and EVFILT_WRITE are -1 and -2, as 16 bits.
abbrev pub evfilt_read : ℕ
evfilt_read = 65535

abbrev pub evfilt_write : ℕ
evfilt_write = 65534

-- EV_ADD or EV_DELETE of one filter.
pub data Operation : Type 0 where
  ev_add ev_delete : Operation

pub record Kevent : Type 0 where
  pub operation : Operation
  pub fd : ℕ
  pub filter : ℕ

-- `kevents` is every change that `kevent` was called with, in order.
pub record KqueuePoller : Type 0 where
  pub registry : Registry
  pub events_size : ℕ
  pub polling : Bool
  pub kevents : List Kevent

unfoldable pub kevent : KqueuePoller → Operation → ℕ → ℕ → KqueuePoller
kevent p operation fd filter = record p {
  kevents = push_back p.kevents (record { operation = operation; fd = fd; filter = filter });
}

-- One filter, if the handler waits for its event.
unfoldable pub change_filter : KqueuePoller → Operation → EventHandler → ℕ → ℕ → KqueuePoller
unfolding kevent
change_filter p operation handler event filter =
    if has handler.events event then kevent p operation handler.fd filter else p

-- A failed assertion is `none`.
unfoldable pub kqueue_remove : KqueuePoller → ℕ → Option KqueuePoller
unfolding change_filter
kqueue_remove p h =
    let handler = p.registry.handlers h in
    if p.polling then none else elim (set_event_handler p.registry handler.fd none) [
      | none ↦ none
      | some r ↦ some (
          change_filter
            (change_filter (record p { registry = r }) ev_delete handler event_readable evfilt_read)
            ev_delete handler event_writeable evfilt_write)
    ]

-- One of the two calls of `AddEventHandler`; `taken` is whether it does not return -1.
unfoldable pub add_filter : KqueuePoller → ℕ → ℕ → ℕ → Bool → Option KqueuePoller
add_filter p h event filter taken =
    let handler = p.registry.handlers h in
    let p' = change_filter p ev_add handler event filter in
    if has handler.events event then if taken then some p' else kqueue_remove p' h else some p'

unfoldable pub kqueue_add : KqueuePoller → ℕ → Bool → Bool → Option KqueuePoller
kqueue_add p h read_taken write_taken =
    let handler = p.registry.handlers h in
    if p.polling then none else elim (set_event_handler p.registry handler.fd (some h)) [
      | none ↦ none
      | some r ↦
          let size = if leb p.events_size handler.fd then p.events_size * 2 else p.events_size in
          elim (add_filter (record p { registry = r; events_size = size }) h event_readable
            evfilt_read read_taken) [
              | none ↦ none
              | some p' ↦ add_filter p' h event_writeable evfilt_write write_taken
            ]
    ]

-- The mask of what fired, from the filter of the event.
unfoldable pub kqueue_mask : ℕ → ℕ
kqueue_mask filter =
    (if has filter evfilt_read then event_readable else 0)
    + (if has filter evfilt_write then event_writeable else 0)

-- The loop of `PollOnce` over the descriptors and filters that `kevent` gave.
unfoldable pub kqueue_collect : Registry → List (ℕ × ℕ) → List ℕ → Registry × List ℕ
kqueue_collect r [] fired = (r, fired)
kqueue_collect r (e ∷ es) fired = elim (get_event_handler r e.0) [
  | none ↦ kqueue_collect r es fired
  | some h ↦
      kqueue_collect (set_handler r h (record (r.handlers h) { revents = kqueue_mask e.1 })) es
        (push_back fired h)
]

unfoldable pub kqueue_once : KqueuePoller → List (ℕ × ℕ) → List ℕ → KqueuePoller × List ℕ
kqueue_once p events fired =
    let c = kqueue_collect p.registry events fired in
    (record p { registry = c.0; polling = false }, c.1)
