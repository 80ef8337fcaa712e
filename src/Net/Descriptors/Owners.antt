-- ===== src/Net/Descriptors/Owners.antt =====
-- Whose descriptor is closed, in tcp_acceptor.cc and event_handler.cc.
use green_turtle.Base.{
  ℕ, ◌<◌, ◌≡◌, ◌≢◌, refl, sym, ap, ◌∙◌, false, Option, none, some, arith, ltb, ltb→lt, ◌==◌,
  ==_of_ne, Bool-cases, inl, inr,
}
use green_turtle.Net.Descriptors.{
  FdSystem, listen, acceptor_listen, destroy_fd, destroy_handler, destroy_acceptor,
}

module _ (system : FdSystem) where
  open system use {
    Table, held_by, close, open_socket, close_frees, close_keeps, open_free, open_lowest,
    open_holds,
  }

  -- The number that is free is given again, where all below it are taken.
  reopened :
      (fd s : ℕ) (t : Table)
      → held_by t fd ≡ none
      → ((j : ℕ) → j < fd → held_by t j ≢ none)
      → (open_socket s t).0 ≡ fd
  reopened fd s t free taken =
      let n = (open_socket s t).0 in
      elim (Bool-cases (ltb n fd)) [
        | inl below ↦ absurd (taken n (ltb→lt n fd below) (open_free s t))
        | inr not_below ↦ elim (Bool-cases (ltb fd n)) [
          | inl above ↦ absurd (open_lowest s fd t (ltb→lt fd n above) free)
          | inr not_above ↦ ground arith
        ]
      ]

  closed : (fd : ℕ) (t : Table) → 0 < fd → destroy_fd system fd t ≡ close fd t
  unfolding destroy_fd
  closed fd t pos = let e : (fd == 0) ≡ false = ==_of_ne (λ h. omega arith) in rw e refl

  -- Another thread opens a socket after `fd` was closed: it gets that number, and the socket is
  -- closed by who closes `fd` again.
  taken_again :
      (fd s : ℕ) (t : Table)
      → 0 < fd
      → ((j : ℕ) → j < fd → held_by t j ≢ none)
      → let u = (open_socket s (close fd t)).1 in
        ((open_socket s (close fd t)).0 ≡ fd)
        × (held_by u fd ≡ some s)
        × (held_by (destroy_fd system fd u) fd ≡ none)
  taken_again fd s t pos taken =
      let again =
        reopened fd s (close fd t) (close_frees fd t)
          (λ j below e. taken j below (sym (close_keeps fd j t (λ h. omega arith)) ∙ e)) in
      let u = (open_socket s (close fd t)).1 in
      (
        again,
        ap (held_by u) (sym again) ∙ open_holds s (close fd t),
        ap (λ x. held_by x fd) (closed fd u pos) ∙ close_frees fd u,
      )

  -- Where all numbers below the descriptor of an acceptor are taken: `Listen` closes the descriptor
  -- if `bind` or `listen` fails, and the destructor of an acceptor closes it twice. The number goes
  -- to the next socket that is opened, and that socket is closed by what the acceptor does after.
  pub closes_another :
      (fd s : ℕ) (t : Table)
      → 0 < fd
      → ((j : ℕ) → j < fd → held_by t j ≢ none)
      → let u = (open_socket s (close fd t)).1 in
        ((open_socket s (close fd t)).0 ≡ fd)
        × (held_by u fd ≡ some s)
        × ((bound listening : Option ℕ)
            → (acceptor_listen system fd bound listening t).0 ≡ false
            → (acceptor_listen system fd bound listening t).1 ≡ close fd t)
        × (held_by (destroy_handler system fd u) fd ≡ none)
        × (held_by (destroy_acceptor system fd (λ x. (open_socket s x).1) t) fd ≡ none)
  unfolding destroy_handler destroy_acceptor acceptor_listen listen
  closes_another fd s t pos taken =
      let (again, mine, lost) = taken_again fd s t pos taken in
      (
        again,
        mine,
        λ bound listening. refused bound listening,
        lost,
        ap (λ x. held_by (destroy_fd system fd (open_socket s x).1) fd) (closed fd t pos) ∙ lost,
      )
    where
      refused :
          (bound listening : Option ℕ)
          → (acceptor_listen system fd bound listening t).0 ≡ false
          → (acceptor_listen system fd bound listening t).1 ≡ close fd t
      refused none listening failed = refl
      refused (some b) none failed = refl
      refused (some b) (some r) failed = absurd (cc)
