-- ===== src/Net/TcpAcceptor/HandOver.antt =====
-- Whom `OnRead` of tcp_acceptor.cc hands the new connections.
use green_turtle.Base.{ℕ, ◌+◌, ◌<◌, Option, none, some, List, [], ◌∷◌}
use green_turtle.Net.EventHandler.{Status, ok, err, event_readable, event_writeable}
use green_turtle.Net.TcpAcceptor.{Accepted, Acceptor}

abbrev pub AllPositive : List ℕ → Type 0
AllPositive [] = Unit
AllPositive (fd ∷ fds) = (0 < fd) × AllPositive fds

-- `accept` gives these descriptors, and then `last`.
abbrev pub results : List ℕ → Accepted → List Accepted
results [] last = last ∷ []
results (fd ∷ fds) last = record { fd = some fd; error_no = 0 } ∷ results fds last

-- What the handler returns: `last` is a call that gives no connection.
abbrev pub ending : Option ℕ → Status
ending none = err
ending (some n) = ok

-- A connection waits for both events.
abbrev pub both_events : ℕ → ℕ × ℕ
both_events fd = (fd, event_readable + event_writeable)

abbrev becomes :
    Acceptor → Status → ℕ × List (ℕ × ℕ) → List ℕ × List (ℕ × ℕ) → Option (Status × Acceptor)
becomes a s p q = some (s, record a { idx = p.0; handed = p.1; registered = q.0; events = q.1 })
