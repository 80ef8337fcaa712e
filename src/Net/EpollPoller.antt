-- ===== src/Net/EpollPoller.antt =====
-- `EpollPoller` of green_turtle/net/epoll_poller.{h,cc}: the calls of `epoll_ctl`, and what
-- `epoll_wait` reported.
pub mod Methods
pub mod Agrees
mod Tests
use green_turtle.Base.{
  ℕ, ◌+◌, ◌*◌, Bool, false, ◌||◌, Option, none, some, List, [], ◌∷◌, leb, if◌then◌else◌, push_back,
}
use green_turtle.Net.EventHandler.{event_readable, event_writeable}
use green_turtle.Net.Poller.{Registry, set_handler, set_event_handler, get_event_handler}
use green_turtle.Net.PollPoller.{has}

-- A call of `epoll_ctl`, with EPOLL_CTL_ADD or EPOLL_CTL_DEL.
pub data Operation : Type 0 where
  ctl_add ctl_del : Operation

pub record Ctl : Type 0 where
  pub operation : Operation
  pub fd : ℕ
  pub events : ℕ

-- `ctls` is every call of `epoll_ctl`, in order; `events_size` is the size of `events_`.
pub record EpollPoller : Type 0 where
  pub registry : Registry
  pub events_size : ℕ
  pub polling : Bool
  pub ctls : List Ctl

-- kInitEventSize
abbrev pub new_epoll_poller : Registry → EpollPoller
new_epoll_poller r = record { registry = r; events_size = 128; polling = false; ctls = [] }

-- EPOLLIN, EPOLLOUT, EPOLLERR and EPOLLHUP
abbrev pub epollin : ℕ
epollin = 1

abbrev pub epollout : ℕ
epollout = 4

abbrev pub epollerr : ℕ
epollerr = 8

abbrev pub epollhup : ℕ
epollhup = 16

-- What `Epoll_Ctl` asks for.
unfoldable pub epoll_interest : ℕ → ℕ
epoll_interest events =
    (if has events event_readable then epollin else 0)
    + (if has events event_writeable then epollout else 0)

unfoldable pub epoll_ctl : EpollPoller → Operation → ℕ → ℕ → EpollPoller
epoll_ctl p operation fd events = record p {
  ctls =
      push_back p.ctls (record { operation = operation; fd = fd; events = epoll_interest events });
}

-- `taken` is whether `epoll_ctl` did not fail. A failed assertion is `none`.
unfoldable pub epoll_add : EpollPoller → ℕ → Bool → Option EpollPoller
unfolding epoll_ctl
epoll_add p h taken =
    let handler = p.registry.handlers h in
    if p.polling then none else elim (set_event_handler p.registry handler.fd (some h)) [
      | none ↦ none
      | some r ↦
          let size = if leb p.events_size handler.fd then p.events_size * 2 else p.events_size in
          let p' =
            epoll_ctl (record p { registry = r; events_size = size }) ctl_add handler.fd
              handler.events in
          if taken then some p' else elim (set_event_handler r handler.fd none) [
            | none ↦ none
            | some r' ↦ some (record p' { registry = r' })
          ]
    ]

-- Whether the system forgets the descriptor is not looked at.
unfoldable pub epoll_remove : EpollPoller → ℕ → Option EpollPoller
unfolding epoll_ctl
epoll_remove p h =
    let handler = p.registry.handlers h in
    if p.polling then none else elim (set_event_handler p.registry handler.fd none) [
      | none ↦ none
      | some r ↦ some (epoll_ctl (record p { registry = r }) ctl_del handler.fd handler.events)
    ]

-- The mask of what fired.
unfoldable pub epoll_mask : ℕ → ℕ
epoll_mask events =
    (if has events epollin then event_readable else 0)
    + (if has events epollout || (has events epollerr || has events epollhup)
        then event_writeable
        else 0)

-- The loop of `PollOnce` over the descriptors and events that `epoll_wait` gave.
unfoldable pub epoll_collect : Registry → List (ℕ × ℕ) → List ℕ → Registry × List ℕ
epoll_collect r [] fired = (r, fired)
epoll_collect r (e ∷ es) fired = elim (get_event_handler r e.0) [
  | none ↦ epoll_collect r es fired
  | some h ↦
      epoll_collect (set_handler r h (record (r.handlers h) { revents = epoll_mask e.1 })) es
        (push_back fired h)
]

-- No events are what -1 and 0 of `epoll_wait` stand for.
unfoldable pub epoll_once : EpollPoller → List (ℕ × ℕ) → List ℕ → EpollPoller × List ℕ
epoll_once p events fired =
    let c = epoll_collect p.registry events fired in
    (record p { registry = c.0; polling = false }, c.1)
