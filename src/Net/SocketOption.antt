-- ===== src/Net/SocketOption.antt =====
-- What green_turtle/net/socket_option.cc makes of the results of the system calls: `none` is -1, and
-- `errno` is an argument.
use green_turtle.Base.{ℕ, Option, none, some, List, [], ◌∷◌, ◌==◌, if◌then◌else◌, contains}

abbrev pub eagain : ℕ
eagain = 11

abbrev pub einprogress : ℕ
einprogress = 115

-- ENETDOWN, EPROTO, ENOPROTOOPT, EHOSTDOWN, ENONET, EHOSTUNREACH, EOPNOTSUPP and ENETUNREACH
abbrev pub transient : List ℕ
transient = eagain ∷ 100 ∷ 71 ∷ 92 ∷ 112 ∷ 64 ∷ 113 ∷ 95 ∷ 101 ∷ []

-- `Write`, `Read` and `Readv`
unfoldable pub transfer_result : Option ℕ → ℕ → Option ℕ
transfer_result none error_no = if error_no == eagain then some 0 else none
transfer_result (some n) error_no = some n

unfoldable pub accept_result : Option ℕ → ℕ → Option ℕ
accept_result none error_no = if contains transient error_no then some 0 else none
accept_result (some fd) error_no = some fd

-- `Connect` compares what `connect` returned, and not `errno`, with EINPROGRESS.
unfoldable pub connect_result : Option ℕ → ℕ → Option ℕ
connect_result none error_no = none
connect_result (some ret) error_no = if ret == einprogress then some 0 else some ret
