-- ===== src/Net/Poller.antt =====
-- `Poller` of green_turtle/net/poller.{h,cc}: the handlers by their descriptors, for the pollers
-- that are built on it.
pub mod Backend
use green_turtle.Base.{
  ℕ, Option, none, some, List, [], ◌∷◌, ◌++◌, ltb, ◌==◌, if◌then◌else◌, lookup, remove, store,
}
use green_turtle.Net.EventHandler.{EventHandler, is_timeout}

-- A handler is named by a number, and `handlers` is what is at that address.
pub record Registry : Type 0 where
  pub event_handlers : List (ℕ × ℕ)
  pub handlers : ℕ → EventHandler

unfoldable pub set_handler : Registry → ℕ → EventHandler → Registry
set_handler r h handler = record r { handlers = λ a. if a == h then handler else r.handlers a }

-- A failed assertion is `none`.
unfoldable pub set_event_handler : Registry → ℕ → Option ℕ → Option Registry
set_event_handler r fd (some h) =
    if ltb 0 fd then some (record r { event_handlers = store r.event_handlers fd h }) else none
set_event_handler r fd none =
    if ltb 0 fd then some (record r { event_handlers = remove r.event_handlers fd }) else none

unfoldable pub get_event_handler : Registry → ℕ → Option ℕ
get_event_handler r fd = lookup r.event_handlers fd

-- The handlers that timed out, in the order of the map.
unfoldable pub check_time_out : List (ℕ × ℕ) → (ℕ → EventHandler) → ℕ → List ℕ
check_time_out [] handlers now = []
check_time_out (p ∷ ps) handlers now =
    let rest = check_time_out ps handlers now in
    if is_timeout (handlers p.1) now then p.1 ∷ rest else rest

unfoldable pub check_event_handler_time_out : Registry → ℕ → List ℕ → List ℕ
unfolding check_time_out
check_event_handler_time_out r now fired = fired ++ check_time_out r.event_handlers r.handlers now

pub data PollerKind : Type 0 where
  poll epoll kqueue : PollerKind

-- `have` is what the platform has.
unfoldable pub create_poller : ℕ → Option PollerKind → PollerKind
create_poller expected_size none = poll
create_poller expected_size (some k) = if ltb 128 expected_size then k else poll
