-- ===== src/Net/EpollPoller/Methods.antt =====
-- The methods of `EpollPoller` in epoll_poller.cc, as those of a `Poller`.
use green_turtle.Base.{
  ℕ, ◌*◌, ◌<◌, ◌≡◌, refl, sym, ap, ◌∙◌, subst, Bool, true, false, Option, none, some, List, [], ◌∷◌,
  ◌==◌, if◌then◌else◌, push_back, Bool-cases, Option-cases, ==_iff, some_inj, inl, inr, leb, IsMap,
}
use green_turtle.Net.EventHandler.{EventHandler}
use green_turtle.Net.Poller.{Registry, set_handler, get_event_handler}
use green_turtle.Net.Poller.Backend.{
  Keeps, same_handler, SameRegistry, SameRegistry-refl, SameRegistry-trans,
  SameRegistry-set_handler, AllRegistered, AllRegistered-push_back, get-set_handler,
  field-set_handler, Backend, Changed, Laws,
}
use green_turtle.Net.PollPoller.Indices.{
  changed, set_event_handler_lem, get-changed, changed-IsMap, if_false,
}
use green_turtle.Net.EpollPoller.{
  EpollPoller, Ctl, Operation, ctl_add, ctl_del, epoll_ctl, epoll_interest, epoll_add, epoll_remove,
  epoll_mask, epoll_collect, epoll_once,
}

-- Nobody polls, and every handler is registered under its descriptor.
pub record IsNamed (p : EpollPoller) : Type 0 where
  pub ready : p.polling ≡ false
  pub named :
      (fd h : ℕ) → get_event_handler p.registry fd ≡ some h → (p.registry.handlers h).fd ≡ fd

abbrev pub epoll_backend : Backend
epoll_backend = record {
  State = EpollPoller;
  Report = List (ℕ × ℕ);
  registry = λ p. p.registry;
  put_handler = λ p h x. record p { registry = set_handler p.registry h x };
  add = epoll_add;
  remove = epoll_remove;
  poll_once = λ p events. epoll_once p events [];
  IsValid = IsNamed;
}

abbrev own : EpollPoller → ℕ → ℕ
own p h = (p.registry.handlers h).fd

IsNamed-same :
    (p q : EpollPoller)
    → q.polling ≡ false
    → ((a : ℕ) → (q.registry.handlers a).fd ≡ (p.registry.handlers a).fd)
    → ((j : ℕ) → get_event_handler q.registry j ≡ get_event_handler p.registry j)
    → IsNamed p
    → IsNamed q
IsNamed-same p q ready fd get valid = record {
  ready = ready;
  named = λ j h got. fd h ∙ valid.named j h (sym (get j) ∙ got);
}

-- One descriptor is changed, to nobody or to the handler whose it is.
Changed-by_name :
    (p q : EpollPoller) (fd : ℕ) (v : Option ℕ)
    → IsNamed p
    → q.polling ≡ false
    → (IsMap p.registry.event_handlers → IsMap q.registry.event_handlers)
    → ((j : ℕ)
        → get_event_handler q.registry j ≡ (if fd == j then v else get_event_handler p.registry j))
    → ((a : ℕ) → q.registry.handlers a ≡ p.registry.handlers a)
    → ((h : ℕ) → v ≡ some h → (p.registry.handlers h).fd ≡ fd)
    → Changed epoll_backend p q fd v
Changed-by_name p q fd v valid ready unique found same mine = record {
  valid = record {
    ready = ready;
    named = λ j h got. ap (λ (x : EventHandler). x.fd) (same h) ∙ elim (Bool-cases (fd == j)) [
      | inl e ↦ mine h (rw e at (sym (found j) ∙ got)) ∙ (==_iff fd j).0 e
      | inr e ↦ valid.named j h (rw e at (sym (found j) ∙ got))
    ];
  };
  unique = unique;
  found = found;
  keeps = λ a.
      subst (Keeps (p.registry.handlers a)) (sym (same a)) (same_handler (p.registry.handlers a));
}

module _ (p : EpollPoller) (h : ℕ) (valid : IsNamed p) (pos : 0 < own p h) where
  abbrev asked : Operation → Ctl
  asked operation = record {
    operation = operation;
    fd = own p h;
    events = epoll_interest (p.registry.handlers h).events;
  }

  found_refused :
      (j : ℕ)
      → get_event_handler (changed (changed p.registry (own p h) (some h)) (own p h) none) j
        ≡ (if own p h == j then none else get_event_handler p.registry j)
  found_refused j =
      get-changed (changed p.registry (own p h) (some h)) (own p h) j none
      ∙ elim (Bool-cases (own p h == j)) [
        | inl e ↦ rw e
        | inr e ↦ rw e (get-changed p.registry (own p h) j (some h) ∙ rw e)
      ]

  -- The poller after the system answered.
  abbrev epoll_added : Bool → EpollPoller
  epoll_added taken =
      let r = changed p.registry (own p h) (some h) in
      let size = if leb p.events_size (own p h) then p.events_size * 2 else p.events_size in
      let p' =
        epoll_ctl (record p { registry = r; events_size = size }) ctl_add (own p h)
          (p.registry.handlers h).events in
      if taken then p' else record p' { registry = changed r (own p h) none }

  added-Changed :
      (taken : Bool)
      → Changed epoll_backend p (epoll_added taken) (own p h) (if taken then some h else none)
  unfolding epoll_ctl
  added-Changed true =
      Changed-by_name p (epoll_added true) (own p h) (some h) valid valid.ready
        (changed-IsMap p.registry (own p h) (some h))
        (λ j. get-changed p.registry (own p h) j (some h)) (λ a. refl)
        (λ g e. ap (own p) (sym (some_inj e)))
  added-Changed false =
      Changed-by_name p (epoll_added false) (own p h) none valid valid.ready
        (λ u.
          changed-IsMap (changed p.registry (own p h) (some h)) (own p h) none
            (changed-IsMap p.registry (own p h) (some h) u))
        found_refused (λ a. refl) (λ g e. absurd (cc))

  add_answer : (taken : Bool) → epoll_add p h taken ≡ some (epoll_added taken)
  unfolding epoll_add
  add_answer true =
      if_false _ _ valid.ready
      ∙ rw (set_event_handler_lem p.registry (own p h) (some h) pos, epoll_add)
  add_answer false =
      let r = changed p.registry (own p h) (some h) in
      if_false _ _ valid.ready
      ∙ rw (set_event_handler_lem p.registry (own p h) (some h) pos, epoll_add)
          (rw (set_event_handler_lem r (own p h) none pos))

  add_ctls : (taken : Bool) → (epoll_added taken).ctls ≡ push_back p.ctls (asked ctl_add)
  unfolding epoll_ctl
  add_ctls true = refl
  add_ctls false = refl

  -- A handler with a positive descriptor is added: the system is asked for its events, and exactly
  -- if it takes the descriptor the handler is registered under it; nobody else is touched.
  pub epoll_add_lem :
      (taken : Bool)
      → (q : EpollPoller) × (epoll_add p h taken ≡ some q)
        × Changed epoll_backend p q (own p h) (if taken then some h else none)
        × (q.ctls ≡ push_back p.ctls (asked ctl_add))
  epoll_add_lem taken = (epoll_added taken, add_answer taken, added-Changed taken, add_ctls taken)

  pub epoll_remove_lem :
      (q : EpollPoller) × (epoll_remove p h ≡ some q)
      × Changed epoll_backend p q (own p h) none
      × (q.ctls ≡ push_back p.ctls (asked ctl_del))
  unfolding epoll_remove epoll_ctl
  epoll_remove_lem =
      let q =
        epoll_ctl (record p { registry = changed p.registry (own p h) none }) ctl_del (own p h)
          (p.registry.handlers h).events in
      (
        q,
        if_false _ _ valid.ready
            ∙ rw (set_event_handler_lem p.registry (own p h) none pos, epoll_remove),
        Changed-by_name p q (own p h) none valid valid.ready
            (changed-IsMap p.registry (own p h) none) (λ j. get-changed p.registry (own p h) j none)
            (λ a. refl) (λ g e. absurd (cc)),
        refl,
      )

epoll_collect-SameRegistry :
    (es : List (ℕ × ℕ)) (r : Registry) (fired : List ℕ)
    → SameRegistry r (epoll_collect r es fired).0
unfolding epoll_collect
epoll_collect-SameRegistry [] r fired = SameRegistry-refl r
epoll_collect-SameRegistry (e ∷ es) r fired = elim (Option-cases (get_event_handler r e.0)) [
  | inl gone ↦ rw (gone, epoll_collect) (epoll_collect-SameRegistry es r fired)
  | inr (h, there) ↦
      let x = record (r.handlers h) { revents = epoll_mask e.1 } in
      rw (there, epoll_collect)
        (SameRegistry-trans
          (SameRegistry-set_handler r h x
            (record { fd = refl; events = refl; last_active_time = refl; event_loop = refl }))
          (epoll_collect-SameRegistry es (set_handler r h x) (push_back fired h)))
]

epoll_collect-AllRegistered :
    (es : List (ℕ × ℕ)) (r s : Registry) (fired : List ℕ)
    → SameRegistry r s
    → AllRegistered r fired
    → AllRegistered r (epoll_collect s es fired).1
unfolding epoll_collect
epoll_collect-AllRegistered [] r s fired same all = all
epoll_collect-AllRegistered (e ∷ es) r s fired same all =
    elim (Option-cases (get_event_handler s e.0)) [
      | inl gone ↦ rw (gone, epoll_collect) (epoll_collect-AllRegistered es r s fired same all)
      | inr (h, there) ↦
          let x = record (s.handlers h) { revents = epoll_mask e.1 } in
          rw (there, epoll_collect)
            (epoll_collect-AllRegistered es r (set_handler s h x) (push_back fired h)
              (SameRegistry-trans same (
                SameRegistry-set_handler s h x (record {
                  fd = refl;
                  events = refl;
                  last_active_time = refl;
                  event_loop = refl;
                })))
              (AllRegistered-push_back r fired h all (e.0, sym (same.get e.0) ∙ there)))
    ]

pub epoll_laws : Laws epoll_backend
unfolding epoll_once
epoll_laws = record {
  put = λ p h x. refl;
  put-IsValid = λ p h x valid fd idx.
      IsNamed-same p (record p { registry = set_handler p.registry h x }) valid.ready
        (λ a. field-set_handler (λ z. z.fd) p.registry h x a fd)
        (λ j. get-set_handler p.registry h j x) valid;
  adds = λ p h valid pos free.
      let (q, done, change, ctls) = epoll_add_lem p h valid pos true in (q, done, change);
  removes = λ p h valid pos mine.
      let (q, done, change, ctls) = epoll_remove_lem p h valid pos in (q, done, change);
  named = λ p fd h valid got. valid.named fd h got;
  polls = λ p events valid.
      let same = epoll_collect-SameRegistry events p.registry [] in
      record {
        valid = IsNamed-same p _ refl (λ a. (same.keeps a).fd) same.get valid;
        same = same;
        known =
            epoll_collect-AllRegistered events p.registry p.registry []
              (SameRegistry-refl p.registry) tt;
      };
}
