-- ===== src/Net/PollPoller/Places.antt =====
-- Every handler of a `PollPoller` knows its place in the array, and every entry its handler.
use green_turtle.Base.{
  ℕ, ◌<◌, ◌≡◌, ◌≢◌, refl, sym, ap, ◌∙◌, subst, false, none, some, arith, ◌==◌, if◌then◌else◌,
  length, get_elem?, push_back, Bool-cases, ==_iff, ==_refl, ==_of_ne, inl, inr, some_inj,
  get_elem?-push_back, get_elem?_lt,
}
use green_turtle.Net.Poller.{get_event_handler}
use green_turtle.Net.PollPoller.{PollFd, PollPoller, set_index, add_event_handler, interest}
use green_turtle.Net.PollPoller.Indices.{
  changed, fd-set_index, get-changed, get-set_index, if_false, if_true, index-set_index,
  set_event_handler_lem,
}

-- Entry `e` at place `i` belongs to a handler that knows it.
abbrev pub Owned : PollPoller → ℕ → PollFd → Type 0
Owned p i e =
    (h : ℕ) × (get_event_handler p.registry e.fd ≡ some h)
    × ((p.registry.handlers h).poll_idx ≡ some i)

-- Handler `h`, with place `i`, is registered, and the entry there is its own.
abbrev pub HasEntry : PollPoller → ℕ → ℕ → Type 0
HasEntry p h i =
    (get_event_handler p.registry (p.registry.handlers h).fd ≡ some h)
    × (e : PollFd) × (get_elem? p.pollfds i ≡ some e)
    × (e.fd ≡ (p.registry.handlers h).fd)

-- Handler `h` has descriptor `fd` and a place.
abbrev pub HasPlace : PollPoller → ℕ → ℕ → Type 0
HasPlace p fd h =
    ((p.registry.handlers h).fd ≡ fd) × (i : ℕ) × ((p.registry.handlers h).poll_idx ≡ some i)

-- Every entry belongs to a handler, and every registered handler has a place and an entry.
pub record IsPlaced (p : PollPoller) : Type 0 where
  pub ready : p.polling ≡ false
  pub entry : (i : ℕ) (e : PollFd) → get_elem? p.pollfds i ≡ some e → Owned p i e
  pub placed : (h i : ℕ) → (p.registry.handlers h).poll_idx ≡ some i → HasEntry p h i
  pub known : (fd h : ℕ) → get_event_handler p.registry fd ≡ some h → HasPlace p fd h

-- A handler whose descriptor is free has no place.
unplaced :
    (p : PollPoller) (h i : ℕ)
    → IsPlaced p
    → get_event_handler p.registry (p.registry.handlers h).fd ≡ none
    → (p.registry.handlers h).poll_idx ≢ some i
unplaced p h i valid free at = let e : none ≡ some h = sym free ∙ (valid.placed h i at).0 in cc

module _ (p : PollPoller) (h : ℕ) (valid : IsPlaced p) where
  abbrev own : ℕ
  own = (p.registry.handlers h).fd

  abbrev new : PollFd
  new = record { fd = own; events = interest (p.registry.handlers h).events }

  abbrev added : PollPoller
  added = record p {
    registry = set_index (changed p.registry own (some h)) h (some (length p.pollfds));
    pollfds = push_back p.pollfds new;
  }

  get-added :
      (j : ℕ)
      → get_event_handler added.registry j
        ≡ (if own == j then some h else get_event_handler p.registry j)
  get-added j =
      get-set_index (changed p.registry own (some h)) h j (some (length p.pollfds))
      ∙ get-changed p.registry own j (some h)

  index-added :
      (a : ℕ)
      → (added.registry.handlers a).poll_idx
        ≡ (if a == h then some (length p.pollfds) else (p.registry.handlers a).poll_idx)
  index-added a = index-set_index (changed p.registry own (some h)) h a (some (length p.pollfds))

  fd-added : (a : ℕ) → (added.registry.handlers a).fd ≡ (p.registry.handlers a).fd
  fd-added a = fd-set_index (changed p.registry own (some h)) h a (some (length p.pollfds))

  module _ (free : get_event_handler p.registry own ≡ none) where
    other_get :
        (j a : ℕ)
        → get_event_handler p.registry j ≡ some a
        → get_event_handler added.registry j ≡ some a
    other_get j a there =
        get-added j
        ∙ if_false (some h) (get_event_handler p.registry j) (
            ==_of_ne (λ e.
              let e' : none ≡ some a = sym free ∙ ap (get_event_handler p.registry) e ∙ there in
              cc))
        ∙ there

    other_index :
        (a i : ℕ)
        → (p.registry.handlers a).poll_idx ≡ some i
        → (added.registry.handlers a).poll_idx ≡ some i
    other_index a i there =
        index-added a
        ∙ if_false (some (length p.pollfds)) (p.registry.handlers a).poll_idx (
            ==_of_ne (λ e.
              unplaced p h i valid free
                (ap (λ x. (p.registry.handlers x).poll_idx) (sym e) ∙ there)))
        ∙ there

    get_new : get_event_handler added.registry own ≡ some h
    get_new = get-added own ∙ if_true (some h) (get_event_handler p.registry own) (==_refl own)

    index_new : (added.registry.handlers h).poll_idx ≡ some (length p.pollfds)
    index_new =
        index-added h
        ∙ if_true (some (length p.pollfds)) (p.registry.handlers h).poll_idx (==_refl h)

    elem_new : get_elem? added.pollfds (length p.pollfds) ≡ some new
    elem_new =
        get_elem?-push_back p.pollfds new (length p.pollfds)
        ∙ if_true (some new) (get_elem? p.pollfds (length p.pollfds)) (==_refl (length p.pollfds))

    elem_old :
        (i : ℕ) (e : PollFd) → get_elem? p.pollfds i ≡ some e → get_elem? added.pollfds i ≡ some e
    elem_old i e there =
        get_elem?-push_back p.pollfds new i
        ∙ if_false (some new) (get_elem? p.pollfds i)
            (==_of_ne (λ x. omega (arith, get_elem?_lt p.pollfds i e there)))
        ∙ there

    entry-added : (i : ℕ) (e : PollFd) → get_elem? added.pollfds i ≡ some e → Owned added i e
    entry-added i e there = elim (Bool-cases (length p.pollfds == i)) [
      | inl here ↦
          let at : length p.pollfds ≡ i = (==_iff (length p.pollfds) i).0 here in
          let same : new ≡ e = some_inj (sym elem_new ∙ ap (get_elem? added.pollfds) at ∙ there) in
          (
            h,
            subst (λ (x : PollFd). get_event_handler added.registry x.fd ≡ some h) same get_new,
            index_new ∙ ap some at,
          )
      | inr before ↦
          let old : get_elem? p.pollfds i ≡ some e =
            sym (
              get_elem?-push_back p.pollfds new i
              ∙ if_false (some new) (get_elem? p.pollfds i) before)
            ∙ there in
          let (a, got, at) = valid.entry i e old in (a, other_get e.fd a got, other_index a i at)
    ]

    placed-added : (a i : ℕ) → (added.registry.handlers a).poll_idx ≡ some i → HasEntry added a i
    placed-added a i there = elim (Bool-cases (a == h)) [
      | inl here ↦
          let same : h ≡ a = sym ((==_iff a h).0 here) in
          let at : length p.pollfds ≡ i =
            some_inj
              (sym index_new ∙ ap (λ x. (added.registry.handlers x).poll_idx) same ∙ there) in
          subst
            (λ x.
              (get_event_handler added.registry (added.registry.handlers x).fd ≡ some x)
              × (e : PollFd) × (get_elem? added.pollfds i ≡ some e)
              × (e.fd ≡ (added.registry.handlers x).fd))
            same
            (
              ap (get_event_handler added.registry) (fd-added h) ∙ get_new,
              new,
              ap (get_elem? added.pollfds) (sym at) ∙ elem_new,
              sym (fd-added h),
            )
      | inr other ↦
          let old : (p.registry.handlers a).poll_idx ≡ some i =
            sym (
              index-added a
              ∙ if_false (some (length p.pollfds)) (p.registry.handlers a).poll_idx other)
            ∙ there in
          let (got, e, elem, fd) = valid.placed a i old in
          (
            ap (get_event_handler added.registry) (fd-added a) ∙ other_get _ a got,
            e,
            elem_old i e elem,
            fd ∙ sym (fd-added a),
          )
    ]

    known-added : (fd a : ℕ) → get_event_handler added.registry fd ≡ some a → HasPlace added fd a
    known-added fd a there = elim (Bool-cases (own == fd)) [
      | inl here ↦
          let same : h ≡ a = some_inj (
            sym (get-added fd ∙ if_true (some h) (get_event_handler p.registry fd) here) ∙ there) in
          subst
            (λ x.
              ((added.registry.handlers x).fd ≡ fd)
              × (i : ℕ) × ((added.registry.handlers x).poll_idx ≡ some i))
            same (fd-added h ∙ (==_iff own fd).0 here, length p.pollfds, index_new)
      | inr other ↦
          let old : get_event_handler p.registry fd ≡ some a =
            sym (get-added fd ∙ if_false (some h) (get_event_handler p.registry fd) other)
            ∙ there in
          let (name, i, at) = valid.known fd a old in (fd-added a ∙ name, i, other_index a i at)
    ]

    added-IsPlaced : IsPlaced added
    added-IsPlaced = record {
      ready = valid.ready;
      entry = entry-added;
      placed = placed-added;
      known = known-added;
    }

pub add_lem :
    (p : PollPoller) (h : ℕ)
    → IsPlaced p
    → 0 < (p.registry.handlers h).fd
    → get_event_handler p.registry (p.registry.handlers h).fd ≡ none
    → (q : PollPoller) × (add_event_handler p h ≡ some q)
      × IsPlaced q
      × (get_event_handler q.registry (p.registry.handlers h).fd ≡ some h)
      × (q.pollfds
          ≡ push_back p.pollfds (record {
            fd = (p.registry.handlers h).fd;
            events = interest (p.registry.handlers h).events;
          }))
unfolding add_event_handler
add_lem p h valid pos free = (
  added p h valid,
  if_false _ _ valid.ready
      ∙ rw (
        set_event_handler_lem p.registry (p.registry.handlers h).fd (some h) pos,
        add_event_handler,
      ),
  added-IsPlaced p h valid free,
  get_new p h valid free,
  refl,
)
