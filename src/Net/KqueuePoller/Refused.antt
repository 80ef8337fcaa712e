-- ===== src/Net/KqueuePoller/Refused.antt =====
-- `AddEventHandler` of kqueue_poller.cc where the system refuses a filter.
use green_turtle.Base.{
  ℕ, ◌*◌, ◌<◌, ◌≡◌, refl, sym, ap, ◌∙◌, Bool, true, false, not, ◌&&◌, ◌||◌, Option, none, some,
  List, [], ◌∷◌, ◌++◌, ◌==◌, leb, if◌then◌else◌, Bool-cases, ==_refl, inl, inr, append_assoc, subst,
}
use green_turtle.Net.EventHandler.{EventHandler, event_readable, event_writeable}
use green_turtle.Net.Poller.{Registry, get_event_handler}
use green_turtle.Net.PollPoller.{has}
use green_turtle.Net.PollPoller.Indices.{changed, set_event_handler_lem, get-changed, if_false}
use green_turtle.Net.KqueuePoller.{
  evfilt_read, evfilt_write, Operation, ev_add, ev_delete, Kevent, KqueuePoller, kevent,
  change_filter, kqueue_remove, add_filter, kqueue_add,
}

-- Whether the system takes a filter, or is not asked for it.
abbrev pub accepts : EventHandler → ℕ → Bool → Bool
accepts handler event taken = not (has handler.events event) || taken

-- The handler as it was, and who is registered under its descriptor alone changed.
pub record Left (p q : KqueuePoller) (h : ℕ) (v : Option ℕ) : Type 0 where
  pub ready : q.polling ≡ p.polling
  pub handlers : (a : ℕ) → q.registry.handlers a ≡ p.registry.handlers a
  pub found :
      (j : ℕ)
      → get_event_handler q.registry j
        ≡ (if (p.registry.handlers h).fd == j then v else get_event_handler p.registry j)

change_filter_same :
    (p : KqueuePoller) (operation : Operation) (handler : EventHandler) (event filter : ℕ)
    → ((change_filter p operation handler event filter).registry ≡ p.registry)
      × ((change_filter p operation handler event filter).polling ≡ p.polling)
unfolding change_filter kevent
change_filter_same p operation handler event filter = elim (Bool-cases (has handler.events event)) [
  | inl e ↦ rw e (refl, refl)
  | inr e ↦ rw e (refl, refl)
]

Left-same :
    {p q : KqueuePoller} {h : ℕ} {v : Option ℕ} (s : KqueuePoller)
    → Left p q h v
    → s.registry ≡ q.registry
    → s.polling ≡ q.polling
    → Left p s h v
Left-same s left same ready = record {
  ready = ready ∙ left.ready;
  handlers = λ a. ap (λ (r : Registry). r.handlers a) same ∙ left.handlers a;
  found = λ j. ap (λ r. get_event_handler r j) same ∙ left.found j;
}

Left-trans :
    (p q s : KqueuePoller) (h : ℕ) (v w : Option ℕ) → Left p q h v → Left q s h w → Left p s h w
Left-trans p q s h v w x y = record {
  ready = y.ready ∙ x.ready;
  handlers = λ a. y.handlers a ∙ x.handlers a;
  found = λ j.
      let same : (q.registry.handlers h).fd ≡ (p.registry.handlers h).fd =
        ap (λ (z : EventHandler). z.fd) (x.handlers h) in
      y.found j
      ∙ ap (λ fd. if fd == j then w else get_event_handler q.registry j) same
      ∙ elim (Bool-cases ((p.registry.handlers h).fd == j)) [
        | inl e ↦ rw e
        | inr e ↦ rw e (x.found j ∙ rw e)
      ];
}

kqueue_remove-Left :
    (p : KqueuePoller) (h : ℕ)
    → p.polling ≡ false
    → 0 < (p.registry.handlers h).fd
    → (q : KqueuePoller) × (kqueue_remove p h ≡ some q) × Left p q h none
unfolding kqueue_remove
kqueue_remove-Left p h idle pos =
    let handler = p.registry.handlers h in
    let p0 : KqueuePoller = record p { registry = changed p.registry handler.fd none } in
    let p1 = change_filter p0 ev_delete handler event_readable evfilt_read in
    let p2 = change_filter p1 ev_delete handler event_writeable evfilt_write in
    let (same1, ready1) = change_filter_same p0 ev_delete handler event_readable evfilt_read in
    let (same2, ready2) = change_filter_same p1 ev_delete handler event_writeable evfilt_write in
    let start : Left p p0 h none = record {
      ready = refl;
      handlers = λ a. refl;
      found = λ j. get-changed p.registry handler.fd j none;
    } in
    (
      p2,
      if_false _ _ idle ∙ rw (set_event_handler_lem p.registry handler.fd none pos, kqueue_remove),
      Left-same p2 start (same2 ∙ same1) (ready2 ∙ ready1),
    )

-- One filter: the handler stays registered exactly if the system accepts it.
add_filter-Left :
    (p q : KqueuePoller) (h event filter : ℕ) (v : Option ℕ) (taken : Bool)
    → Left p q h v
    → p.polling ≡ false
    → 0 < (p.registry.handlers h).fd
    → (s : KqueuePoller) × (add_filter q h event filter taken ≡ some s)
      × Left p s h (if accepts (p.registry.handlers h) event taken then v else none)
unfolding add_filter
add_filter-Left p q h event filter v taken left idle pos =
    let handler = q.registry.handlers h in
    let same_handler = left.handlers h in
    let q' = change_filter q ev_add handler event filter in
    let (same, ready) = change_filter_same q ev_add handler event filter in
    let more = Left-same q' left same ready in
    let asks : has handler.events event ≡ has (p.registry.handlers h).events event =
      ap (λ (z : EventHandler). has z.events event) same_handler in
    elim (Bool-cases (has handler.events event)) [
      | inr not_asked ↦ (q', rw not_asked refl, rw (sym asks ∙ not_asked) more)
      | inl asked ↦ elim (Bool-cases taken) [
        | inl e ↦ (q', rw (asked, e) refl, rw (sym asks ∙ asked, e) more)
        | inr e ↦
            let fd' : (q'.registry.handlers h).fd ≡ (p.registry.handlers h).fd =
              ap (λ (z : EventHandler). z.fd) (more.handlers h) in
            let (s, done, gone) =
              kqueue_remove-Left q' h (more.ready ∙ idle) (subst (λ x. 0 < x) (sym fd') pos) in
            (s, rw (asked, e) done, rw (sym asks ∙ asked, e) (Left-trans p q' s h v none more gone))
      ]
    ]

both_tests :
    (a b : Bool) (v : Option ℕ)
    → (if b then (if a then v else none) else none) ≡ (if a && b then v else none)
both_tests true true v = refl
both_tests true false v = refl
both_tests false true v = refl
both_tests false false v = refl

-- A handler with a positive descriptor is registered exactly if the system accepts every filter
-- that it asks for; nobody else is touched, and no handler is changed.
pub kqueue_add_lem :
    (p : KqueuePoller) (h : ℕ) (read_taken write_taken : Bool)
    → p.polling ≡ false
    → 0 < (p.registry.handlers h).fd
    → (q : KqueuePoller) × (kqueue_add p h read_taken write_taken ≡ some q)
      × Left p q h (
          if accepts (p.registry.handlers h) event_readable read_taken
            && accepts (p.registry.handlers h) event_writeable write_taken
          then some h
          else none)
unfolding kqueue_add
kqueue_add_lem p h read_taken write_taken idle pos =
    let handler = p.registry.handlers h in
    let size = if leb p.events_size handler.fd then p.events_size * 2 else p.events_size in
    let p0 : KqueuePoller = record p {
      registry = changed p.registry handler.fd (some h);
      events_size = size;
    } in
    let start : Left p p0 h (some h) = record {
      ready = refl;
      handlers = λ a. refl;
      found = λ j. get-changed p.registry handler.fd j (some h);
    } in
    let (p1, done1, left1) =
      add_filter-Left p p0 h event_readable evfilt_read (some h) read_taken start idle pos in
    let (p2, done2, left2) =
      add_filter-Left p p1 h event_writeable evfilt_write _ write_taken left1 idle pos in
    (
      p2,
      if_false _ _ idle
          ∙ rw (set_event_handler_lem p.registry handler.fd (some h) pos, kqueue_add)
              (rw done1 done2),
      subst (Left p p2 h)
          (both_tests (accepts handler event_readable read_taken)
            (accepts handler event_writeable write_taken) (some h))
          left2,
    )

module _ (p : KqueuePoller) (h event filter : ℕ)
    (asked : has (p.registry.handlers h).events event ≡ true) where
  add_taken :
      add_filter p h event filter true ≡ some (kevent p ev_add (p.registry.handlers h).fd filter)
  unfolding add_filter change_filter
  add_taken = rw asked refl

  add_refused :
      add_filter p h event filter false
      ≡ kqueue_remove (kevent p ev_add (p.registry.handlers h).fd filter) h
  unfolding add_filter change_filter
  add_refused = rw asked refl

abbrev both_deleted : KqueuePoller → ℕ → KqueuePoller
both_deleted p h =
    let fd = (p.registry.handlers h).fd in
    kevent (kevent (record p { registry = changed p.registry fd none }) ev_delete fd evfilt_read)
      ev_delete fd evfilt_write

remove_both :
    (p : KqueuePoller) (h : ℕ)
    → p.polling ≡ false
    → 0 < (p.registry.handlers h).fd
    → has (p.registry.handlers h).events event_readable ≡ true
    → has (p.registry.handlers h).events event_writeable ≡ true
    → kqueue_remove p h ≡ some (both_deleted p h)
unfolding kqueue_remove change_filter
remove_both p h idle pos reads writes =
    if_false _ _ idle
    ∙ rw (set_event_handler_lem p.registry (p.registry.handlers h).fd none pos, kqueue_remove)
        (rw reads (rw writes refl))

abbrev pub changes : ℕ → List (Operation × ℕ) → List Kevent
changes fd [] = []
changes fd (c ∷ cs) = record { operation = c.0; fd = fd; filter = c.1 } ∷ changes fd cs

-- Where the system refuses to report reading and takes writing, the handler is not registered, but
-- the last of the changes that were asked of the system adds its filter for writing.
pub kqueue_half_added :
    (p : KqueuePoller) (h : ℕ)
    → p.polling ≡ false
    → 0 < (p.registry.handlers h).fd
    → has (p.registry.handlers h).events event_readable ≡ true
    → has (p.registry.handlers h).events event_writeable ≡ true
    → (q : KqueuePoller) × (kqueue_add p h false true ≡ some q)
      × (get_event_handler q.registry (p.registry.handlers h).fd ≡ none)
      × (q.kevents
          ≡ p.kevents
            ++ changes (p.registry.handlers h).fd (
                (ev_add, evfilt_read)
                ∷ (ev_delete, evfilt_read)
                ∷ (ev_delete, evfilt_write)
                ∷ (ev_add, evfilt_write)
                ∷ []))
unfolding kqueue_add kevent
kqueue_half_added p h idle pos reads writes =
    let fd = (p.registry.handlers h).fd in
    let size = if leb p.events_size fd then p.events_size * 2 else p.events_size in
    let p0 : KqueuePoller = record p {
      registry = changed p.registry fd (some h);
      events_size = size;
    } in
    let p1 = both_deleted (kevent p0 ev_add fd evfilt_read) h in
    (
      kevent p1 ev_add fd evfilt_write,
      if_false _ _ idle
          ∙ rw (set_event_handler_lem p.registry fd (some h) pos, kqueue_add)
              (rw
                (add_refused p0 h event_readable evfilt_read reads
                  ∙ remove_both (kevent p0 ev_add fd evfilt_read) h idle pos reads writes)
                (add_taken p1 h event_writeable evfilt_write writes)),
      get-changed (changed p.registry fd (some h)) fd fd none ∙ rw (==_refl fd),
      simp (append_assoc),
    )
