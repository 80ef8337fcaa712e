-- ===== src/Net/PollPoller.antt =====
-- `PollPoller` of green_turtle/net/poll_poller.{h,cc}: the array for `poll`, and the place of every
-- handler in it.
pub mod Indices
pub mod Places
pub mod Removed
pub mod Removal
pub mod Masks
pub mod Collects
pub mod Methods
mod Tests
use green_turtle.Base.{
  ℕ, zero, suc, ◌+◌, ◌-◌, Bool, true, false, not, ◌&&◌, ◌||◌, Option, none, some, List, [], ◌∷◌,
  bit_and, ◌==◌, if◌then◌else◌, length, get_elem?, set, take, push_back,
}
use green_turtle.Net.EventHandler.{EventHandler, event_readable, event_writeable}
use green_turtle.Net.Poller.{Registry, set_handler, set_event_handler, get_event_handler}

pub record PollFd : Type 0 where
  pub fd : ℕ
  pub events : ℕ

pub record PollPoller : Type 0 where
  pub registry : Registry
  pub pollfds : List PollFd
  pub polling : Bool

-- POLLIN, POLLOUT, POLLERR and POLLHUP
abbrev pub pollin : ℕ
pollin = 1

abbrev pub pollout : ℕ
pollout = 4

abbrev pub pollerr : ℕ
pollerr = 8

abbrev pub pollhup : ℕ
pollhup = 16

abbrev pub has : ℕ → ℕ → Bool
has mask bit = not (bit_and mask bit == 0)

unfoldable pub interest : ℕ → ℕ
interest events =
    (if has events event_readable then pollin else 0)
    + (if has events event_writeable then pollout else 0)

-- `set_index`
unfoldable pub set_index : Registry → ℕ → Option ℕ → Registry
unfolding set_handler
set_index r h idx = set_handler r h (record (r.handlers h) { poll_idx = idx })

-- A failed assertion, and a use of NULL, are `none`.
unfoldable pub add_event_handler : PollPoller → ℕ → Option PollPoller
add_event_handler p h =
    let handler = p.registry.handlers h in
    if p.polling then none else elim (set_event_handler p.registry handler.fd (some h)) [
      | none ↦ none
      | some r ↦ some (record p {
        registry = set_index r h (some (length p.pollfds));
        pollfds =
            push_back p.pollfds (record { fd = handler.fd; events = interest handler.events });
      })
    ]

-- `iter_swap` of position `idx` with the last, and `pop_back`.
unfoldable pub swap_out : List PollFd → ℕ → List PollFd
swap_out fds idx =
    let last = length fds - 1 in
    elim (get_elem? fds last) [ none ↦ fds | some e ↦ take last (set fds idx e) ]

-- The handler that was last takes the free place.
unfoldable pub move_last : Registry → List PollFd → ℕ → Option Registry
move_last r fds idx = elim (get_elem? fds (length fds - 1)) [
  | none ↦ none
  | some e ↦ elim (get_event_handler r e.fd) [
    | none ↦ none
    | some g ↦ some (set_index r g (some idx))
  ]
]

unfoldable pub remove_at : PollPoller → Registry → ℕ → Option ℕ → Option PollPoller
remove_at p r h none = some (record p { registry = r })
remove_at p r h (some idx) =
    if idx + 1 == length p.pollfds
    then some (record p {
      registry = set_index r h none;
      pollfds = take (length p.pollfds - 1) p.pollfds;
    })
    else elim (move_last r p.pollfds idx) [
      | none ↦ none
      | some r' ↦
          some (record p { registry = set_index r' h none; pollfds = swap_out p.pollfds idx })
    ]

unfoldable pub remove_event_handler : PollPoller → ℕ → Option PollPoller
remove_event_handler p h =
    let handler = p.registry.handlers h in
    if p.polling then none else elim (set_event_handler p.registry handler.fd none) [
      | none ↦ none
      | some r ↦ remove_at p r h handler.poll_idx
    ]

-- The mask of what fired.
unfoldable pub fired_mask : ℕ → ℕ
fired_mask revents =
    (if has revents pollin then event_readable else 0)
    + (if has revents pollout || (has revents pollerr || has revents pollhup)
        then event_writeable
        else 0)

-- The loop of `PollOnce`, where `poll` gave each entry its `revents`, and `num` entries fired. The
-- loop is left when `num` gets to 0, which it does not from 0 or from -1, for which 0 stands too.
unfoldable pub collect : Registry → List (PollFd × ℕ) → ℕ → List ℕ → Registry × List ℕ
collect r [] num fired = (r, fired)
collect r (e ∷ es) num fired = elim (e.1 == 0) [
  | true ↦ collect r es num fired
  | false ↦ elim (get_event_handler r e.0.fd) [
    | none ↦ collect r es num fired
    | some h ↦
        let r' = set_handler r h (record (r.handlers h) { revents = fired_mask e.1 }) in
        elim (num == 1) [
          | true ↦ (r', push_back fired h)
          | false ↦ collect r' es (num - 1) (push_back fired h)
        ]
  ]
]

-- The pairs of the array with what the system returned.
abbrev pub with_revents : List PollFd → List ℕ → List (PollFd × ℕ)
with_revents [] rs = []
with_revents (e ∷ es) [] = []
with_revents (e ∷ es) (r ∷ rs) = (e, r) ∷ with_revents es rs

unfoldable pub poll_once : PollPoller → List ℕ → ℕ → List ℕ → PollPoller × List ℕ
poll_once p returned num fired =
    let c = collect p.registry (with_revents p.pollfds returned) num fired in
    (record p { registry = c.0; polling = false }, c.1)
