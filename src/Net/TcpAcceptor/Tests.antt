-- ===== src/Net/TcpAcceptor/Tests.antt =====
-- Three connections for two loops, and then EAGAIN.
use green_turtle.Base.{none, []}
use green_turtle.Net.SocketOption.{eagain}
use green_turtle.Net.TcpAcceptor.{Accepted, Acceptor}

abbrev two_loops : Acceptor
two_loops = record { loops = 2; idx = 1; registered = []; events = []; handed = [] }

abbrev no_more : Accepted
no_more = record { fd = none; error_no = eagain }
