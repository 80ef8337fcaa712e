-- ===== src/Net/TcpAcceptor.antt =====
-- `TcpAcceptor::OnRead` of green_turtle/net/tcp_acceptor.{h,cc}: new connections are accepted until
-- there is none, and handed to the loops in turn.
pub mod HandOver
mod Tests
use green_turtle.Base.{
  ℕ, zero, suc, ◌+◌, Bool, true, false, Option, none, some, List, [], ◌∷◌, ltb, ◌==◌, if◌then◌else◌,
  push_back,
}
use green_turtle.Net.EventHandler.{Status, ok, err, event_readable, event_writeable}
use green_turtle.Net.SocketOption.{accept_result}
use green_turtle.Net.Balance.{next_loop}

-- What a call of `accept` returns: a descriptor or -1, and `errno`.
pub record Accepted : Type 0 where
  pub fd : Option ℕ
  pub error_no : ℕ

-- `idx` is where the next connection goes. Then, for the connections so far, with their descriptors:
-- those told to the ConnManager, the events that they were set to wait for, and the loops they were
-- handed to.
pub record Acceptor : Type 0 where
  pub loops : ℕ
  pub idx : ℕ
  pub registered : List ℕ
  pub events : List (ℕ × ℕ)
  pub handed : List (ℕ × ℕ)

abbrev pub hand_over : Acceptor → ℕ → Acceptor
hand_over a new_fd = record a {
  idx = next_loop a.loops a.idx;
  registered = push_back a.registered new_fd;
  events = push_back a.events (new_fd, event_readable + event_writeable);
  handed = push_back a.handed (new_fd, a.idx);
}

-- `OnRead`, where `accept` returns each of a sequence of results in turn; `none` means that they
-- are used up before the handler returns.
unfoldable pub on_read : Acceptor → List Accepted → Option (Status × Acceptor)
on_read a [] = none
on_read a (r ∷ rs) = elim (accept_result r.fd r.error_no) [
  | none ↦ some (err, a)
  | some zero ↦ some (ok, a)
  | some (suc n) ↦ on_read (hand_over a (suc n)) rs
]
