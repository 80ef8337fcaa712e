-- ===== src/Net/PollPoller/Collects.antt =====
-- What `PollOnce` of poll_poller.cc collects.
use green_turtle.Base.{
  ℕ, ◌-◌, ◌≡◌, refl, sym, ◌∙◌, List, [], ◌∷◌, ◌==◌, push_back, Bool-cases, Option-cases, inl, inr,
}
use green_turtle.Net.Poller.{Registry, set_handler, get_event_handler}
use green_turtle.Net.Poller.Backend.{
  SameRegistry, SameRegistry-refl, SameRegistry-trans, SameRegistry-set_handler, AllRegistered,
  AllRegistered-push_back, field-set_handler,
}
use green_turtle.Net.PollPoller.{PollFd, fired_mask, collect}

pub collect-SameRegistry :
    (es : List (PollFd × ℕ)) (r : Registry) (num : ℕ) (fired : List ℕ)
    → SameRegistry r (collect r es num fired).0
unfolding collect
collect-SameRegistry [] r num fired = SameRegistry-refl r
collect-SameRegistry (e ∷ es) r num fired = elim (Bool-cases (e.1 == 0)) [
  | inl quiet ↦ rw (quiet, collect) (collect-SameRegistry es r num fired)
  | inr fires ↦ elim (Option-cases (get_event_handler r e.0.fd)) [
    | inl gone ↦ rw (fires, gone, collect) (collect-SameRegistry es r num fired)
    | inr (h, there) ↦
        let r' = set_handler r h (record (r.handlers h) { revents = fired_mask e.1 }) in
        let step =
          SameRegistry-set_handler r h (record (r.handlers h) { revents = fired_mask e.1 })
            (record { fd = refl; events = refl; last_active_time = refl; event_loop = refl }) in
        elim (Bool-cases (num == 1)) [
          | inl last ↦ rw (fires, there, last, collect) step
          | inr others ↦
              rw (fires, there, others, collect)
                (SameRegistry-trans step (collect-SameRegistry es r' (num - 1) (push_back fired h)))
        ]
  ]
]

pub collect_places :
    (es : List (PollFd × ℕ)) (r : Registry) (num : ℕ) (fired : List ℕ) (a : ℕ)
    → ((collect r es num fired).0.handlers a).poll_idx ≡ (r.handlers a).poll_idx
unfolding collect
collect_places [] r num fired a = refl
collect_places (e ∷ es) r num fired a = elim (Bool-cases (e.1 == 0)) [
  | inl quiet ↦ rw (quiet, collect) (collect_places es r num fired a)
  | inr fires ↦ elim (Option-cases (get_event_handler r e.0.fd)) [
    | inl gone ↦ rw (fires, gone, collect) (collect_places es r num fired a)
    | inr (h, there) ↦
        let r' = set_handler r h (record (r.handlers h) { revents = fired_mask e.1 }) in
        let step =
          field-set_handler (λ z. z.poll_idx) r h
            (record (r.handlers h) { revents = fired_mask e.1 }) a refl in
        elim (Bool-cases (num == 1)) [
          | inl last ↦ rw (fires, there, last, collect) step
          | inr others ↦
              rw (fires, there, others, collect)
                (collect_places es r' (num - 1) (push_back fired h) a ∙ step)
        ]
  ]
]

pub collect-AllRegistered :
    (es : List (PollFd × ℕ)) (r s : Registry) (num : ℕ) (fired : List ℕ)
    → SameRegistry r s
    → AllRegistered r fired
    → AllRegistered r (collect s es num fired).1
unfolding collect
collect-AllRegistered [] r s num fired same all = all
collect-AllRegistered (e ∷ es) r s num fired same all = elim (Bool-cases (e.1 == 0)) [
  | inl quiet ↦ rw (quiet, collect) (collect-AllRegistered es r s num fired same all)
  | inr fires ↦ elim (Option-cases (get_event_handler s e.0.fd)) [
    | inl gone ↦ rw (fires, gone, collect) (collect-AllRegistered es r s num fired same all)
    | inr (h, there) ↦
        let s' = set_handler s h (record (s.handlers h) { revents = fired_mask e.1 }) in
        let step =
          SameRegistry-set_handler s h (record (s.handlers h) { revents = fired_mask e.1 })
            (record { fd = refl; events = refl; last_active_time = refl; event_loop = refl }) in
        let more = AllRegistered-push_back r fired h all (e.0.fd, sym (same.get e.0.fd) ∙ there) in
        elim (Bool-cases (num == 1)) [
          | inl last ↦ rw (fires, there, last, collect) more
          | inr others ↦
              rw (fires, there, others, collect)
                (collect-AllRegistered es r s' (num - 1) (push_back fired h)
                  (SameRegistry-trans same step) more)
        ]
  ]
]
