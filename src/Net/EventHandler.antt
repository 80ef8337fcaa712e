-- ===== src/Net/EventHandler.antt =====
-- `EventHandler` of green_turtle/net/event_handler.{h,cc}: what a descriptor waits for, and how a
-- handler answers the events that fired.
pub mod Answers
mod Tests
use green_turtle.Base.{
  ℕ, zero, suc, ◌%◌, ◌/◌, Bool, true, false, not, ◌&&◌, Option, none, some, List, [], ◌∷◌, ◌++◌,
  bit_and, sub64, leb, ◌==◌, if◌then◌else◌,
}

-- kOK and kErr
pub data Status : Type 0 where
  ok err : Status

abbrev pub event_readable : ℕ
event_readable = 1

abbrev pub event_writeable : ℕ
event_writeable = 2

-- `poll_idx` is `none` for -1, and `event_loop` for NULL; a loop is named by a number.
pub record EventHandler : Type 0 where
  pub fd : ℕ
  pub events : ℕ
  pub revents : ℕ
  pub poll_idx : Option ℕ
  pub last_active_time : ℕ
  pub event_loop : Option ℕ

-- The constructor, at time `now`.
abbrev pub new_handler : ℕ → ℕ → EventHandler
new_handler fd now = record {
  fd = fd;
  events = 0;
  revents = 0;
  poll_idx = none;
  last_active_time = now;
  event_loop = none;
}

abbrev pub socket_recv_timeout : ℕ
socket_recv_timeout = 60000

unfoldable pub is_timeout : EventHandler → ℕ → Bool
is_timeout h now = leb socket_recv_timeout (sub64 now h.last_active_time)

-- The calls that a handler makes of its subclass, of the ConnManager and of the system.
pub data Call : Type 0 where
  read write error remove_conn shut_down : Call

abbrev pub fires : EventHandler → ℕ → Bool
fires h event = not (bit_and (bit_and h.events h.revents) event == 0)

unfoldable pub shutdown : List Call
shutdown = write ∷ shut_down ∷ []

abbrev pub is_err : Status → Bool
is_err ok = false
is_err err = true

-- The part of `HandleEvent` after `OnRead`, where `OnRead` or nothing gave `ret`; `write_result` is
-- what `OnWrite` would return.
unfoldable pub handle_write : EventHandler → Status → Status → List Call × EventHandler
unfolding shutdown
handle_write h ret write_result =
    let writes = fires h event_writeable in
    let ret' = if writes then write_result else ret in
    let calls = if writes then write ∷ [] else [] in
    if is_err ret'
    then (calls ++ (remove_conn ∷ error ∷ shutdown), h)
    else (calls, record h { revents = 0 })

-- The calls of `HandleEvent` at time `now`, in order, and the handler.
unfoldable pub handle_event : EventHandler → ℕ → Status → Status → List Call × EventHandler
handle_event h now read_result write_result =
    let h' = record h { last_active_time = now } in
    let r = handle_write h' ok write_result in
    if fires h event_readable
    then if is_err read_result then (read ∷ error ∷ [], h') else (read ∷ r.0, r.1)
    else handle_write h ok write_result
