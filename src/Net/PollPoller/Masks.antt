-- ===== src/Net/PollPoller/Masks.antt =====
-- `PollOnce` of poll_poller.cc: whom it reports.
use green_turtle.Base.{
  ℕ, suc, ◌-◌, ◌≡◌, refl, sym, ap, ◌∙◌, none, some, List, [], ◌∷◌, ◌++◌, arith, ◌==◌, if◌then◌else◌,
  push_back, Bool-cases, ==_iff, inl, inr, append-nil, append_assoc,
}
use green_turtle.Net.EventHandler.{EventHandler}
use green_turtle.Net.Poller.{Registry, set_handler, get_event_handler}
use green_turtle.Net.PollPoller.{PollFd, fired_mask, collect}

-- How many entries fired, and the handlers of those entries.
abbrev pub fired_count : List (PollFd × ℕ) → ℕ
fired_count [] = 0
fired_count (e ∷ es) = if e.1 == 0 then fired_count es else suc (fired_count es)

abbrev pub fired_handlers : Registry → List (PollFd × ℕ) → List ℕ
fired_handlers r [] = []
fired_handlers r (e ∷ es) =
    let rest = fired_handlers r es in
    if e.1 == 0 then rest else elim (get_event_handler r e.0.fd) [ none ↦ rest | some h ↦ h ∷ rest ]

-- Every entry has a handler.
abbrev pub AllKnown : Registry → List (PollFd × ℕ) → Type 0
AllKnown r [] = Unit
AllKnown r (e ∷ es) = ((h : ℕ) × (get_event_handler r e.0.fd ≡ some h)) × AllKnown r es

get-set_handler :
    (r : Registry) (h fd : ℕ) (handler : EventHandler)
    → get_event_handler (set_handler r h handler) fd ≡ get_event_handler r fd
unfolding get_event_handler set_handler
get-set_handler r h fd handler = refl

AllKnown-set_handler :
    (r : Registry) (h : ℕ) (handler : EventHandler) (es : List (PollFd × ℕ))
    → AllKnown r es
    → AllKnown (set_handler r h handler) es
AllKnown-set_handler r h handler [] known = tt
AllKnown-set_handler r h handler (e ∷ es) known = (
  (known.0.0, get-set_handler r h e.0.fd handler ∙ known.0.1),
  AllKnown-set_handler r h handler es known.1,
)

fired_handlers-set_handler :
    (r : Registry) (h : ℕ) (handler : EventHandler) (es : List (PollFd × ℕ))
    → fired_handlers (set_handler r h handler) es ≡ fired_handlers r es
unfolding get_event_handler set_handler
fired_handlers-set_handler r h handler [] = refl
fired_handlers-set_handler r h handler (e ∷ es) = rw (fired_handlers-set_handler r h handler es)

none_fired : (r : Registry) (es : List (PollFd × ℕ)) → fired_count es ≡ 0 → fired_handlers r es ≡ []
none_fired r [] h = refl
none_fired r (e ∷ es) h = elim (Bool-cases (e.1 == 0)) [
  | inl quiet ↦ rw quiet (none_fired r es (rw quiet at h))
  | inr fires ↦ let e' : suc (fired_count es) ≡ 0 = rw fires at h in absurd (omega arith)
]

-- Where `poll` returned the number of the entries that fired, and every entry has a handler, the
-- loop reports the handlers of just those entries, in the order of the array.
pub collect_lem :
    (es : List (PollFd × ℕ)) (r : Registry) (num : ℕ) (fired : List ℕ)
    → fired_count es ≡ num
    → AllKnown r es
    → (collect r es num fired).1 ≡ fired ++ fired_handlers r es
unfolding collect
collect_lem [] r num fired count known = sym (append-nil fired)
collect_lem (e ∷ es) r num fired count known = elim (Bool-cases (e.1 == 0)) [
  | inl quiet ↦ rw (quiet, collect) (collect_lem es r num fired (rw quiet at count) known.1)
  | inr fires ↦
      let more : suc (fired_count es) ≡ num = rw fires at count in
      let h = known.0.0 in
      let handler = record (r.handlers h) { revents = fired_mask e.1 } in
      let r' = set_handler r h handler in
      elim (Bool-cases (num == 1)) [
        | inl last ↦
            let only : num ≡ 1 = (==_iff num 1).0 last in
            let rest : fired_handlers r es ≡ [] = none_fired r es (omega arith) in
            rw (fires, known.0.1, last, rest, collect)
        | inr others ↦
            let step =
              collect_lem es r' (num - 1) (push_back fired h) (omega arith)
                (AllKnown-set_handler r h handler es known.1) in
            rw (fires, known.0.1, others, collect)
              (step
                ∙ append_assoc fired (h ∷ []) (fired_handlers r' es)
                ∙ ap (λ l. fired ++ (h ∷ l)) (fired_handlers-set_handler r h handler es))
      ]
]
