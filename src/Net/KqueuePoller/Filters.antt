-- ===== src/Net/KqueuePoller/Filters.antt =====
-- `PollOnce` of kqueue_poller.cc: which events a handler is told of.
use green_turtle.Base.{
  ℕ, ◌+◌, ◌≡◌, List, [], ◌∷◌, ◌⊎◌, ◌==◌, push_back, Bool-cases, Option-cases, inl, inr, ==_refl,
}
use green_turtle.Net.EventHandler.{event_readable, event_writeable}
use green_turtle.Net.Poller.{Registry, set_handler, get_event_handler}
use green_turtle.Net.KqueuePoller.{evfilt_read, evfilt_write, kqueue_mask, kqueue_collect}

-- The system reports the filters that it was asked for.
abbrev pub IsFilter : ℕ → Type 0
IsFilter filter = (filter ≡ evfilt_read) ⊎ (filter ≡ evfilt_write)

abbrev pub AllFilters : List (ℕ × ℕ) → Type 0
AllFilters [] = Unit
AllFilters (e ∷ es) = IsFilter e.1 × AllFilters es

-- Handlers that are told of both events.
abbrev pub AllBoth : Registry → List ℕ → Type 0
AllBoth r [] = Unit
AllBoth r (h ∷ hs) = ((r.handlers h).revents ≡ event_readable + event_writeable) × AllBoth r hs

mask_both : (filter : ℕ) → IsFilter filter → kqueue_mask filter ≡ event_readable + event_writeable
unfolding kqueue_mask
mask_both filter (inl e) = rw e
mask_both filter (inr e) = rw e

revents-set_handler :
    (r : Registry) (h a mask : ℕ)
    → mask ≡ event_readable + event_writeable
    → (r.handlers a).revents ≡ event_readable + event_writeable
    → ((set_handler r h (record (r.handlers h) { revents = mask })).handlers a).revents
      ≡ event_readable + event_writeable
unfolding set_handler
revents-set_handler r h a mask both old = elim (Bool-cases (a == h)) [
  | inl e ↦ rw e both
  | inr e ↦ rw e old
]

AllBoth-set_handler :
    (r : Registry) (h mask : ℕ) (hs : List ℕ)
    → mask ≡ event_readable + event_writeable
    → AllBoth r hs
    → AllBoth (set_handler r h (record (r.handlers h) { revents = mask })) (push_back hs h)
unfolding set_handler
AllBoth-set_handler r h mask [] both all = (rw (==_refl h) both, tt)
AllBoth-set_handler r h mask (x ∷ hs) both all =
    (revents-set_handler r h x mask both all.0, AllBoth-set_handler r h mask hs both all.1)

-- Whichever filter fired, the handler is told of both events: a number that is negative has all of
-- the high bits.
pub kqueue_collect-AllBoth :
    (es : List (ℕ × ℕ)) (r : Registry) (fired : List ℕ)
    → AllFilters es
    → AllBoth r fired
    → AllBoth (kqueue_collect r es fired).0 (kqueue_collect r es fired).1
unfolding kqueue_collect
kqueue_collect-AllBoth [] r fired filters all = all
kqueue_collect-AllBoth (e ∷ es) r fired filters all =
    elim (Option-cases (get_event_handler r e.0)) [
      | inl gone ↦ rw (gone, kqueue_collect) (kqueue_collect-AllBoth es r fired filters.1 all)
      | inr (h, there) ↦
          let r' = set_handler r h (record (r.handlers h) { revents = kqueue_mask e.1 }) in
          rw (there, kqueue_collect)
            (kqueue_collect-AllBoth es r' (push_back fired h) filters.1
              (AllBoth-set_handler r h (kqueue_mask e.1) fired (mask_both e.1 filters.0) all))
    ]
