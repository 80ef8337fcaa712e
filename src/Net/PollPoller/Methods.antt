-- ===== src/Net/PollPoller/Methods.antt =====
-- The methods of `PollPoller` in poll_poller.cc, as those of a `Poller`.
use green_turtle.Base.{
  ℕ, ◌+◌, ◌-◌, ◌<◌, ◌≡◌, refl, sym, ap, ◌∙◌, subst, false, Option, none, some, List, [], ◌⊎◌, ◌==◌,
  length, get_elem?, Bool-cases, Option-cases, ==_iff, some_inj, inl, inr, IsMap,
}
use green_turtle.Net.Poller.{Registry, set_handler, get_event_handler}
use green_turtle.Net.Poller.Backend.{
  Keeps, SameRegistry, SameRegistry-refl, SameRegistry-trans, SameRegistry-set_handler, Backend,
  get-set_handler, field-set_handler, Changed, Laws,
}
use green_turtle.Net.PollPoller.{
  PollFd, PollPoller, set_index, add_event_handler, remove_event_handler, remove_at, move_last,
  with_revents, poll_once,
}
use green_turtle.Net.PollPoller.Places.{IsPlaced, add_lem}
use green_turtle.Net.PollPoller.Indices.{
  changed, set_event_handler_lem, get-changed, changed-IsMap, handlers-changed, if_false,
}
use green_turtle.Net.PollPoller.Removal.{remove_lem}
use green_turtle.Net.PollPoller.Collects.{
  collect-AllRegistered, collect-SameRegistry, collect_places,
}

SameRegistry-set_index : (r : Registry) (h : ℕ) (v : Option ℕ) → SameRegistry r (set_index r h v)
unfolding set_index
SameRegistry-set_index r h v =
    SameRegistry-set_handler r h (record (r.handlers h) { poll_idx = v })
      (record { fd = refl; events = refl; last_active_time = refl; event_loop = refl })

-- `IsPlaced` reads of a registry who is registered, and the descriptors and places.
IsPlaced-same :
    (p q : PollPoller)
    → q.polling ≡ false
    → q.pollfds ≡ p.pollfds
    → ((a : ℕ) → (q.registry.handlers a).fd ≡ (p.registry.handlers a).fd)
    → ((a : ℕ) → (q.registry.handlers a).poll_idx ≡ (p.registry.handlers a).poll_idx)
    → ((j : ℕ) → get_event_handler q.registry j ≡ get_event_handler p.registry j)
    → IsPlaced p
    → IsPlaced q
IsPlaced-same p q ready fds fd idx get valid = record {
  ready = ready;
  entry = λ i e there.
      let (h, got, at) = valid.entry i e (ap (λ l. get_elem? l i) (sym fds) ∙ there) in
      (h, get e.fd ∙ got, idx h ∙ at);
  placed = λ h i at.
      let (got, e, elem, name) = valid.placed h i (sym (idx h) ∙ at) in
      (
        ap (get_event_handler q.registry) (fd h) ∙ get (p.registry.handlers h).fd ∙ got,
        e,
        ap (λ l. get_elem? l i) fds ∙ elem,
        name ∙ sym (fd h),
      );
  known = λ j h got.
      let (name, i, at) = valid.known j h (sym (get j) ∙ got) in (fd h ∙ name, i, idx h ∙ at);
}

module _ (p : PollPoller) (h : ℕ) where
  abbrev own : ℕ
  own = (p.registry.handlers h).fd

  add_effect :
      (q : PollPoller)
      → 0 < own
      → add_event_handler p h ≡ some q
      → SameRegistry (changed p.registry own (some h)) q.registry
  unfolding add_event_handler
  add_effect q pos done = elim (Bool-cases p.polling) [
    | inl busy ↦ let e : none ≡ some q = rw busy at done in cc
    | inr idle ↦
        let start = set_event_handler_lem p.registry own (some h) pos in
        let e = (rw (idle, start) at done) in
        subst (λ (z : PollPoller). SameRegistry (changed p.registry own (some h)) z.registry)
          (some_inj e)
          (SameRegistry-set_index (changed p.registry own (some h)) h (some (length p.pollfds)))
  ]

  move_last_effect :
      (r r' : Registry) (fds : List PollFd) (idx : ℕ)
      → move_last r fds idx ≡ some r'
      → SameRegistry r r'
  unfolding move_last
  move_last_effect r r' fds idx done = elim (Option-cases (get_elem? fds (length fds - 1))) [
    | inl out ↦ let e : none ≡ some r' = rw (out, move_last) at done in cc
    | inr (e, there) ↦ elim (Option-cases (get_event_handler r e.fd)) [
      | inl out ↦ let x : none ≡ some r' = rw (there, out, move_last) at done in cc
      | inr (g, got) ↦
          let x : some (set_index r g (some idx)) ≡ some r' = rw (there, got, move_last) at done in
          subst (SameRegistry r) (some_inj x) (SameRegistry-set_index r g (some idx))
    ]
  ]

  remove_at_effect :
      (r : Registry) (idx : Option ℕ) (q : PollPoller)
      → remove_at p r h idx ≡ some q
      → SameRegistry r q.registry
  unfolding remove_at
  remove_at_effect r none q done =
      subst (λ (z : PollPoller). SameRegistry r z.registry) (some_inj done) (SameRegistry-refl r)
  remove_at_effect r (some idx) q done = elim (Bool-cases (idx + 1 == length p.pollfds)) [
    | inl last ↦
        subst (λ (z : PollPoller). SameRegistry r z.registry) (some_inj (rw last at done))
          (SameRegistry-set_index r h none)
    | inr before ↦ elim (Option-cases (move_last r p.pollfds idx)) [
      | inl out ↦ let x : none ≡ some q = rw (before, out, remove_at) at done in cc
      | inr (r', moved) ↦
          let x = rw (before, moved, remove_at) at done in
          subst (λ (z : PollPoller). SameRegistry r z.registry) (some_inj x)
            (SameRegistry-trans (move_last_effect r r' p.pollfds idx moved)
              (SameRegistry-set_index r' h none))
    ]
  ]

  remove_effect :
      (q : PollPoller)
      → 0 < own
      → remove_event_handler p h ≡ some q
      → SameRegistry (changed p.registry own none) q.registry
  unfolding remove_event_handler
  remove_effect q pos done = elim (Bool-cases p.polling) [
    | inl busy ↦ let e : none ≡ some q = rw busy at done in cc
    | inr idle ↦
        let start = set_event_handler_lem p.registry own none pos in
        remove_at_effect (changed p.registry own none) (p.registry.handlers h).poll_idx q
          (rw (idle, start, remove_event_handler) at done)
  ]

abbrev pub poll_backend : Backend
poll_backend = record {
  State = PollPoller;
  Report = List ℕ × ℕ;
  registry = λ p. p.registry;
  put_handler = λ p h x. record p { registry = set_handler p.registry h x };
  add = λ p h taken. add_event_handler p h;
  remove = remove_event_handler;
  poll_once = λ p report. poll_once p report.0 report.1 [];
  IsValid = IsPlaced;
}

effect-Changed :
    (p q : PollPoller) (fd : ℕ) (v : Option ℕ)
    → IsPlaced q
    → SameRegistry (changed p.registry fd v) q.registry
    → Changed poll_backend p q fd v
effect-Changed p q fd v valid same = record {
  valid = valid;
  unique = λ u. subst IsMap (sym same.pairs) (changed-IsMap p.registry fd v u);
  found = λ j. same.get j ∙ get-changed p.registry fd j v;
  keeps = λ a.
      subst (λ x. Keeps x (q.registry.handlers a)) (handlers-changed p.registry fd a v)
        (same.keeps a);
}

-- A handler that is not registered has no place to lose.
remove_absent :
    (p : PollPoller) (h : ℕ)
    → IsPlaced p
    → 0 < own p h
    → get_event_handler p.registry (own p h) ≡ none
    → (q : PollPoller) × (remove_event_handler p h ≡ some q) × IsPlaced q
unfolding remove_event_handler remove_at
remove_absent p h valid pos free =
    let q : PollPoller = record p { registry = changed p.registry (own p h) none } in
    let start = set_event_handler_lem p.registry (own p h) none pos in
    let unplaced : (p.registry.handlers h).poll_idx ≡ none =
      elim (Option-cases (p.registry.handlers h).poll_idx) [
        | inl e ↦ e
        | inr (i, at) ↦ let x : none ≡ some h = sym free ∙ (valid.placed h i at).0 in cc
      ] in
    (
      q,
      if_false _ _ valid.ready ∙ rw (start, unplaced, remove_event_handler),
      IsPlaced-same p q valid.ready refl (λ a. refl) (λ a. refl)
          (λ j. get-changed p.registry (own p h) j none ∙ elim (Bool-cases (own p h == j)) [
            | inl e ↦ rw e (sym free ∙ ap (get_event_handler p.registry) ((==_iff (own p h) j).0 e))
            | inr e ↦ rw e
          ])
          valid,
    )

removes :
    (p : PollPoller) (h : ℕ)
    → IsPlaced p
    → 0 < own p h
    → (get_event_handler p.registry (own p h) ≡ none)
      ⊎ (get_event_handler p.registry (own p h) ≡ some h)
    → (q : PollPoller) × (remove_event_handler p h ≡ some q)
      × Changed poll_backend p q (own p h) none
removes p h valid pos (inl free) =
    let (q, done, placed) = remove_absent p h valid pos free in
    (q, done, effect-Changed p q (own p h) none placed (remove_effect p h q pos done))
removes p h valid pos (inr mine) =
    let (name, i, at) = valid.known (own p h) h mine in
    let (q, done, placed, free, index, size) = remove_lem p h i valid pos at in
    (q, done, effect-Changed p q (own p h) none placed (remove_effect p h q pos done))

pub poll_laws : Laws poll_backend
unfolding poll_once
poll_laws = record {
  put = λ p h x. refl;
  put-IsValid = λ p h x valid fd idx.
      IsPlaced-same p (record p { registry = set_handler p.registry h x }) valid.ready refl
        (λ a. field-set_handler (λ z. z.fd) p.registry h x a fd)
        (λ a. field-set_handler (λ z. z.poll_idx) p.registry h x a idx)
        (λ j. get-set_handler p.registry h j x) valid;
  adds = λ p h valid pos free.
      let (q, done, placed, got, fds) = add_lem p h valid pos free in
      (q, done, effect-Changed p q (own p h) (some h) placed (add_effect p h q pos done));
  removes = removes;
  named = λ p fd h valid got. (valid.known fd h got).0;
  polls = λ p report valid.
      let es = with_revents p.pollfds report.0 in
      let same = collect-SameRegistry es p.registry report.1 [] in
      record {
        valid =
            IsPlaced-same p _ refl refl (λ a. (same.keeps a).fd)
              (collect_places es p.registry report.1 []) same.get valid;
        same = same;
        known =
            collect-AllRegistered es p.registry p.registry report.1 []
              (SameRegistry-refl p.registry) tt;
      };
}
