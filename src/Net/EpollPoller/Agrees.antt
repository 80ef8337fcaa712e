-- ===== src/Net/EpollPoller/Agrees.antt =====
-- `PollOnce` of epoll_poller.cc beside that of poll_poller.cc.
use green_turtle.Base.{
  ℕ, suc, ◌-◌, ◌≤◌, ◌≡◌, refl, List, [], ◌∷◌, arith, ◌==◌, if◌then◌else◌, push_back, Bool-cases,
  Option-cases, ==_iff, inl, inr,
}
use green_turtle.Net.Poller.{Registry, set_handler, get_event_handler}
use green_turtle.Net.PollPoller.{PollFd, fired_mask, collect}
use green_turtle.Net.PollPoller.Masks.{fired_count}
use green_turtle.Net.EpollPoller.{epoll_mask, epoll_collect}

-- The descriptors and events of the entries that fired.
abbrev pub fired_events : List (PollFd × ℕ) → List (ℕ × ℕ)
fired_events [] = []
fired_events (e ∷ es) =
    let rest = fired_events es in if e.1 == 0 then rest else (e.0.fd, e.1) ∷ rest

no_events : (es : List (PollFd × ℕ)) → fired_count es ≡ 0 → fired_events es ≡ []
no_events [] h = refl
no_events (e ∷ es) h = elim (Bool-cases (e.1 == 0)) [
  | inl quiet ↦ rw quiet (no_events es (rw quiet at h))
  | inr fires ↦ let e' : suc (fired_count es) ≡ 0 = rw fires at h in absurd (omega arith)
]

-- Where `poll` counted at least the entries that fired, PollPoller reports the same handlers with
-- the same masks as EpollPoller does for the same events.
pub collect-epoll_collect :
    (es : List (PollFd × ℕ)) (r : Registry) (num : ℕ) (fired : List ℕ)
    → fired_count es ≤ num
    → collect r es num fired ≡ epoll_collect r (fired_events es) fired
unfolding collect epoll_collect fired_mask epoll_mask
collect-epoll_collect [] r num fired enough = refl
collect-epoll_collect (e ∷ es) r num fired enough = elim (Bool-cases (e.1 == 0)) [
  | inl quiet ↦ rw (quiet, collect) (collect-epoll_collect es r num fired (rw quiet at enough))
  | inr fires ↦
      let more : suc (fired_count es) ≤ num = rw fires at enough in
      elim (Option-cases (get_event_handler r e.0.fd)) [
        | inl gone ↦
            rw (fires, gone, collect, epoll_collect)
              (collect-epoll_collect es r num fired (omega arith))
        | inr (h, there) ↦
            let r' = set_handler r h (record (r.handlers h) { revents = epoll_mask e.1 }) in
            elim (Bool-cases (num == 1)) [
              | inl last ↦
                  let only : num ≡ 1 = (==_iff num 1).0 last in
                  let rest : fired_events es ≡ [] = no_events es (omega arith) in
                  rw (fires, there, last, rest, collect, epoll_collect) refl
              | inr others ↦
                  rw (fires, there, others, collect, epoll_collect)
                    (collect-epoll_collect es r' (num - 1) (push_back fired h) (omega arith))
            ]
      ]
]
