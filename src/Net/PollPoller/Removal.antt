-- ===== src/Net/PollPoller/Removal.antt =====
-- `RemoveEventHandler` of poll_poller.cc: the last entry takes the free place.
use green_turtle.Base.{
  ℕ, suc, ◌+◌, ◌-◌, ◌<◌, ◌≡◌, ◌≢◌, refl, sym, ap, ◌∙◌, true, false, none, some, arith, ◌==◌,
  if◌then◌else◌, length, get_elem?, set, take, Bool-cases, ==_iff, ==_refl, ==_of_ne, ne_of_==, inl,
  inr, some_inj, get_elem?_lt, get_elem?-some, get_elem?-set, get_elem?-take, length-take,
  length-set,
}
use green_turtle.Net.Poller.{Registry, get_event_handler}
use green_turtle.Net.PollPoller.{
  PollFd, PollPoller, set_index, swap_out, move_last, remove_at, remove_event_handler,
}
use green_turtle.Net.PollPoller.Places.{IsPlaced}
use green_turtle.Net.PollPoller.Indices.{
  index-set_index, fd-set_index, get-set_index, changed, set_event_handler_lem, get-changed,
  if_false, if_true,
}
use green_turtle.Net.PollPoller.Removed.{Removed, name, place, removed-IsPlaced, who}

module _ (p : PollPoller) (h i : ℕ) (valid : IsPlaced p) (mine : place p h ≡ some i) where
  abbrev without : Registry
  without = changed p.registry (name p h) none

  -- The registry after the places of `g` and then of `h` were set.
  abbrev both : ℕ → Registry
  both g = set_index (set_index without g (some i)) h none

  get-both : (g j : ℕ) → get_event_handler (both g) j ≡ (if name p h == j then none else who p j)
  get-both g j =
      get-set_index (set_index without g (some i)) h j none
      ∙ get-set_index without g j (some i)
      ∙ get-changed p.registry (name p h) j none

  index-both :
      (g a : ℕ)
      → ((both g).handlers a).poll_idx
        ≡ (if a == h then none else if a == g then some i else place p a)
  index-both g a =
      index-set_index (set_index without g (some i)) h a none
      ∙ ap (λ x. if a == h then none else x) (index-set_index without g a (some i))

  fd-both : (g a : ℕ) → ((both g).handlers a).fd ≡ name p a
  fd-both g a =
      fd-set_index (set_index without g (some i)) h a none ∙ fd-set_index without g a (some i)

  -- The entry was the last one.
  abbrev popped : PollPoller
  popped = record p {
    registry = set_index without h none;
    pollfds = take (length p.pollfds - 1) p.pollfds;
  }

  popped-Removed : suc i ≡ length p.pollfds → Removed p popped h h i
  popped-Removed end = record {
    ready = valid.ready;
    size = omega (arith, length-take (length p.pollfds - 1) p.pollfds);
    get = λ j. get-set_index without h j none ∙ get-changed p.registry (name p h) j none;
    index = λ a. elim (Bool-cases (a == h)) [
      | inl x ↦ rw x (index-set_index without h a none ∙ if_true none (place p a) x)
      | inr x ↦ rw x (index-set_index without h a none ∙ if_false none (place p a) x)
    ];
    fd = λ a. fd-set_index without h a none;
    elem = λ j before.
        get_elem?-take (length p.pollfds - 1) p.pollfds j (omega arith)
        ∙ sym (if_false _ (get_elem? p.pollfds j) (==_of_ne (λ (e : j ≡ i). omega (arith, e))));
  }

  abbrev swapped : ℕ → PollPoller
  swapped g = record p { registry = both g; pollfds = swap_out p.pollfds i }

  swap_out_lem :
      (last : PollFd)
      → get_elem? p.pollfds (length p.pollfds - 1) ≡ some last
      → swap_out p.pollfds i ≡ take (length p.pollfds - 1) (set p.pollfds i last)
  unfolding swap_out
  swap_out_lem last there = rw (there, swap_out)

  swapped-Removed :
      (g : ℕ) (last : PollFd)
      → get_elem? p.pollfds (length p.pollfds - 1) ≡ some last
      → i < length p.pollfds
      → Removed p (swapped g) h g i
  swapped-Removed g last there inside = record {
    ready = valid.ready;
    size =
        ap (λ l. suc (length l)) (swap_out_lem last there)
        ∙ omega (
          arith,
          length-take (length p.pollfds - 1) (set p.pollfds i last),
          length-set p.pollfds i last,
        );
    get = get-both g;
    index = index-both g;
    fd = fd-both g;
    elem = λ j before.
        ap (λ l. get_elem? l j) (swap_out_lem last there)
        ∙ get_elem?-take (length p.pollfds - 1) (set p.pollfds i last) j (omega arith)
        ∙ get_elem?-set p.pollfds i j last inside
        ∙ (elim (Bool-cases (i == j)) [
          | inl x ↦
              let same : (j == i) ≡ true = (==_iff j i).1 (sym ((==_iff i j).0 x)) in
              rw (x, same) (sym there)
          | inr x ↦
              let other : (j == i) ≡ false = ==_of_ne (λ e. ne_of_== x (sym e)) in
              rw (x, other) refl
        ]);
  }

-- A handler that has a place is removed: it has none then, its descriptor is free, and every other
-- handler still knows its own place.
pub remove_lem :
    (p : PollPoller) (h i : ℕ)
    → IsPlaced p
    → 0 < (p.registry.handlers h).fd
    → (p.registry.handlers h).poll_idx ≡ some i
    → (q : PollPoller) × (remove_event_handler p h ≡ some q)
      × IsPlaced q
      × (get_event_handler q.registry (p.registry.handlers h).fd ≡ none)
      × ((q.registry.handlers h).poll_idx ≡ none)
      × (suc (length q.pollfds) ≡ length p.pollfds)
unfolding remove_event_handler remove_at move_last
remove_lem p h i valid pos mine =
    let (own, e, elem, fd) = valid.placed h i mine in
    let inside = get_elem?_lt p.pollfds i e elem in
    let start = set_event_handler_lem p.registry (p.registry.handlers h).fd none pos in
    let (last, there) = get_elem?-some p.pollfds (length p.pollfds - 1) (omega arith) in
    let (g, owner, at_end) = valid.entry (length p.pollfds - 1) last there in
    elim (Bool-cases (i + 1 == length p.pollfds)) [
      | inl x ↦
          let end : i + 1 ≡ length p.pollfds = (==_iff (i + 1) (length p.pollfds)).0 x in
          let removed = popped-Removed p h i valid mine (omega arith) in
          let at_last : i ≡ length p.pollfds - 1 = omega arith in
          let same : e ≡ last = some_inj (sym elem ∙ ap (get_elem? p.pollfds) at_last ∙ there) in
          let mine_last : place p h ≡ some (length p.pollfds - 1) = mine ∙ ap some at_last in
          let owner_h : who p last.fd ≡ some h =
            ap (λ (z : PollFd). who p z.fd) (sym same) ∙ ap (who p) fd ∙ own in
          (
            popped p h i valid mine,
            if_false _ _ valid.ready ∙ rw (start, mine, x, remove_event_handler),
            removed-IsPlaced p _ h h i last valid mine there owner_h mine_last removed,
            removed.get (name p h) ∙ if_true none _ (==_refl (name p h)),
            removed.index h ∙ if_true none _ (==_refl h),
            removed.size,
          )
      | inr x ↦
          let removed = swapped-Removed p h i valid mine g last there inside in
          let away : name p h ≢ last.fd = λ s.
            let same : g ≡ h = some_inj (sym owner ∙ ap (who p) (sym s) ∙ own) in
            let end : length p.pollfds - 1 ≡ i = some_inj (sym at_end ∙ ap (place p) same ∙ mine) in
            ne_of_== x (omega arith) in
          let found : get_event_handler (without p h i valid mine) last.fd ≡ some g =
            get-changed p.registry (name p h) last.fd none
            ∙ if_false none (who p last.fd) (==_of_ne away)
            ∙ owner in
          (
            swapped p h i valid mine g,
            if_false _ _ valid.ready
                ∙ rw (start, mine, x, remove_event_handler) (rw (there, found)),
            removed-IsPlaced p _ h g i last valid mine there owner at_end removed,
            removed.get (name p h) ∙ if_true none _ (==_refl (name p h)),
            removed.index h ∙ if_true none _ (==_refl h),
            removed.size,
          )
    ]
