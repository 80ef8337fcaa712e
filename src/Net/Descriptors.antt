-- ===== src/Net/Descriptors.antt =====
-- The descriptors of handlers: `Listen` and `DestoryFD` of green_turtle/net/socket_option.cc, `Connect`
-- of tcp_client.cc, and the destructors of event_handler.cc and tcp_acceptor.cc. The table of
-- descriptors is the system's, and is given by what it promises.
pub mod Owners
mod Tests
use green_turtle.Base.{
  ℕ, zero, suc, ◌<◌, ◌≡◌, ◌≢◌, Bool, true, false, Option, none, some, ◌==◌, if◌then◌else◌,
}
use green_turtle.Net.SocketOption.{connect_result}

-- A table of descriptors: which socket a number stands for, `close`, and `socket` or `accept`, which
-- give the lowest number that is free.
pub record FdSystem : Type 1 where
  pub Table : Type 0
  pub held_by : Table → ℕ → Option ℕ
  pub close : ℕ → Table → Table
  pub open_socket : ℕ → Table → ℕ × Table
  pub close_frees : (fd : ℕ) (t : Table) → held_by (close fd t) fd ≡ none
  pub close_keeps : (fd j : ℕ) (t : Table) → fd ≢ j → held_by (close fd t) j ≡ held_by t j
  pub open_free : (s : ℕ) (t : Table) → held_by t (open_socket s t).0 ≡ none
  pub open_lowest : (s j : ℕ) (t : Table) → j < (open_socket s t).0 → held_by t j ≢ none
  pub open_holds : (s : ℕ) (t : Table) → held_by (open_socket s t).1 (open_socket s t).0 ≡ some s

module _ (system : FdSystem) where
  open system use {Table, close}

  -- `SocketOption::Listen`, with what `bind` and `listen` return; `none` is -1.
  unfoldable pub listen : ℕ → Option ℕ → Option ℕ → Table → Option ℕ × Table
  listen fd bound listening t = elim bound [
    | none ↦ (none, close fd t)
    | some b ↦ elim listening [ none ↦ (none, close fd t) | some r ↦ (some r, t) ]
  ]

  -- `TcpAcceptor::Listen`
  unfoldable pub acceptor_listen : ℕ → Option ℕ → Option ℕ → Table → Bool × Table
  acceptor_listen fd bound listening t =
      let (ret, t') = listen fd bound listening t in (elim ret [ none ↦ false | some r ↦ true ], t')

  -- `SocketOption::DestoryFD`
  unfoldable pub destroy_fd : ℕ → Table → Table
  destroy_fd fd t = if fd == 0 then t else close fd t

  -- `~EventHandler`, which is `Close`
  unfoldable pub destroy_handler : ℕ → Table → Table
  destroy_handler fd t = destroy_fd fd t

  -- `~TcpAcceptor`, and then `~EventHandler`; between the two other threads may open and close.
  unfoldable pub destroy_acceptor : ℕ → (Table → Table) → Table → Table
  destroy_acceptor fd meanwhile t = destroy_handler fd (meanwhile (destroy_fd fd t))

-- `TcpClient::Connect`, with what `connect` returns: its result, and whether the socket no longer
-- blocks.
unfoldable pub client_connect : Option ℕ → ℕ → Option ℕ × Bool
client_connect ret error_no =
    let ret' = connect_result ret error_no in
    (ret', elim ret' [ none ↦ false | some zero ↦ true | some (suc n) ↦ false ])
