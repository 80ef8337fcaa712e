-- ===== src/Net/PollPoller/Removed.antt =====
-- What the removal of a handler in poll_poller.cc leaves of the places.
use green_turtle.Base.{
  ℕ, suc, ◌-◌, ◌<◌, ◌≡◌, ◌≢◌, sym, ap, ◌∙◌, subst, false, Option, none, some, arith, ◌==◌,
  if◌then◌else◌, length, get_elem?, Bool-cases, ==_iff, ==_refl, ==_of_ne, ne_of_==, inl, inr,
  some_inj, get_elem?_lt,
}
use green_turtle.Net.Poller.{get_event_handler}
use green_turtle.Net.PollPoller.{PollFd, PollPoller}
use green_turtle.Net.PollPoller.Places.{HasEntry, HasPlace, IsPlaced, Owned}
use green_turtle.Net.PollPoller.Indices.{if_false, if_true}

abbrev pub place : PollPoller → ℕ → Option ℕ
place p a = (p.registry.handlers a).poll_idx

abbrev pub name : PollPoller → ℕ → ℕ
name p a = (p.registry.handlers a).fd

abbrev pub who : PollPoller → ℕ → Option ℕ
who p j = get_event_handler p.registry j

-- Handler `h` is gone from place `i`, where the handler `g` of the last entry now is.
pub record Removed (p q : PollPoller) (h g i : ℕ) : Type 0 where
  pub ready : q.polling ≡ false
  pub size : suc (length q.pollfds) ≡ length p.pollfds
  pub get : (j : ℕ) → who q j ≡ (if name p h == j then none else who p j)
  pub index : (a : ℕ) → place q a ≡ (if a == h then none else if a == g then some i else place p a)
  pub fd : (a : ℕ) → name q a ≡ name p a
  pub elem :
      (j : ℕ)
      → suc j < length p.pollfds
      → get_elem? q.pollfds j
        ≡ (if j == i then get_elem? p.pollfds (length p.pollfds - 1) else get_elem? p.pollfds j)

module _ (p q : PollPoller) (h g i : ℕ) (last : PollFd) (valid : IsPlaced p)
    (mine : place p h ≡ some i) (there : get_elem? p.pollfds (length p.pollfds - 1) ≡ some last)
    (owner : who p last.fd ≡ some g) (at_end : place p g ≡ some (length p.pollfds - 1))
    (removed : Removed p q h g i) where
  same_owner : (j a b : ℕ) → who p j ≡ some a → who p j ≡ some b → a ≡ b
  same_owner j a b x y = some_inj (sym x ∙ y)

  -- Two handlers at one place are one.
  one_place : (a b j : ℕ) → place p a ≡ some j → place p b ≡ some j → a ≡ b
  one_place a b j x y =
      let (who_a, e, elem_a, fd_a) = valid.placed a j x in
      let (who_b, f, elem_b, fd_b) = valid.placed b j y in
      let same : e ≡ f = some_inj (sym elem_a ∙ elem_b) in
      let names : name p a ≡ name p b = sym fd_a ∙ ap (λ (z : PollFd). z.fd) same ∙ fd_b in
      same_owner (name p b) a b (ap (who p) (sym names) ∙ who_a) who_b

  -- What belongs to another handler stays.
  who_stays : (j a : ℕ) → a ≢ h → who p j ≡ some a → who q j ≡ some a
  who_stays j a ne x =
      removed.get j
      ∙ if_false none (who p j)
          (==_of_ne (λ e. ne (same_owner j a h x (ap (who p) (sym e) ∙ (valid.placed h i mine).0))))
      ∙ x

  place_of_last : g ≢ h → place q g ≡ some i
  place_of_last ne =
      removed.index g ∙ if_false none _ (==_of_ne ne) ∙ if_true (some i) (place p g) (==_refl g)

  place_stays : (a : ℕ) → a ≢ h → a ≢ g → place q a ≡ place p a
  place_stays a ne ne' =
      removed.index a ∙ if_false none _ (==_of_ne ne) ∙ if_false (some i) (place p a) (==_of_ne ne')

  elem_moved : suc i < length p.pollfds → get_elem? q.pollfds i ≡ some last
  elem_moved before =
      removed.elem i before
      ∙ if_true (get_elem? p.pollfds (length p.pollfds - 1)) (get_elem? p.pollfds i) (==_refl i)
      ∙ there

  elem_stays :
      (j : ℕ) → suc j < length p.pollfds → j ≢ i → get_elem? q.pollfds j ≡ get_elem? p.pollfds j
  elem_stays j before ne =
      removed.elem j before
      ∙ if_false (get_elem? p.pollfds (length p.pollfds - 1)) (get_elem? p.pollfds j) (==_of_ne ne)

  place-lt : (a j : ℕ) → place p a ≡ some j → j < length p.pollfds
  place-lt a j x = get_elem?_lt p.pollfds j _ (valid.placed a j x).2

  -- Only the handler of the last entry is at the last place.
  not_last : (a j : ℕ) → place p a ≡ some j → a ≢ g → suc j < length p.pollfds
  not_last a j x ne = elim (Bool-cases (suc j == length p.pollfds)) [
    | inl e ↦
        let end : suc j ≡ length p.pollfds = (==_iff (suc j) (length p.pollfds)).0 e in
        let same : length p.pollfds - 1 ≡ j = omega arith in
        absurd (ne (one_place a g j x (at_end ∙ ap some same)))
    | inr e ↦ omega (arith, ne_of_== e, place-lt a j x)
  ]

  entry-removed : (j : ℕ) (e : PollFd) → get_elem? q.pollfds j ≡ some e → Owned q j e
  entry-removed j e here =
      let inside : suc j < length p.pollfds =
        omega (arith, get_elem?_lt q.pollfds j e here, removed.size) in
      elim (Bool-cases (j == i)) [
        | inl x ↦
            let at : j ≡ i = (==_iff j i).0 x in
            let moved : last ≡ e = some_inj (
              sym (elem_moved (subst (λ k. suc k < length p.pollfds) at inside))
              ∙ ap (get_elem? q.pollfds) (sym at)
              ∙ here) in
            let other : g ≢ h = λ s.
              let same : i ≡ length p.pollfds - 1 =
                some_inj (sym mine ∙ ap (place p) (sym s) ∙ at_end) in
              omega (arith, at, same, inside) in
            (
              g,
              subst (λ (z : PollFd). who q z.fd ≡ some g) moved (who_stays last.fd g other owner),
              place_of_last other ∙ ap some (sym at),
            )
        | inr x ↦
            let ne : j ≢ i = ne_of_== x in
            let (a, got, at) = valid.entry j e (sym (elem_stays j inside ne) ∙ here) in
            let not_h : a ≢ h = λ s. ne (some_inj (sym at ∙ ap (place p) s ∙ mine)) in
            let not_g : a ≢ g = λ s.
              let end : j ≡ length p.pollfds - 1 = some_inj (sym at ∙ ap (place p) s ∙ at_end) in
              omega (arith, end, inside) in
            (a, who_stays e.fd a not_h got, place_stays a not_h not_g ∙ at)
      ]

  placed-removed : (a j : ℕ) → place q a ≡ some j → HasEntry q a j
  placed-removed a j here = elim (Bool-cases (a == h)) [
    | inl x ↦ let e : none ≡ some j = sym (removed.index a ∙ if_true none _ x) ∙ here in cc
    | inr x ↦
        let not_h : a ≢ h = ne_of_== x in
        elim (Bool-cases (a == g)) [
          | inl y ↦
              let is_g : g ≡ a = sym ((==_iff a g).0 y) in
              let other : g ≢ h = λ s. not_h (sym is_g ∙ s) in
              let at : i ≡ j = some_inj (sym (place_of_last other) ∙ ap (place q) is_g ∙ here) in
              let (own, e, elem, fd) = valid.placed g (length p.pollfds - 1) at_end in
              let same : e ≡ last = some_inj (sym elem ∙ there) in
              subst
                (λ z.
                  (who q (name q z) ≡ some z)
                  × (e : PollFd) × (get_elem? q.pollfds j ≡ some e)
                  × (e.fd ≡ name q z))
                is_g
                (
                  ap (who q) (removed.fd g) ∙ who_stays (name p g) g other own,
                  last,
                  ap (get_elem? q.pollfds) (sym at)
                      ∙ elem_moved (not_last h i mine (λ s. other (sym s))),
                  ap (λ (z : PollFd). z.fd) (sym same) ∙ fd ∙ sym (removed.fd g),
                )
          | inr y ↦
              let not_g : a ≢ g = ne_of_== y in
              let old : place p a ≡ some j = sym (place_stays a not_h not_g) ∙ here in
              let (own, e, elem, fd) = valid.placed a j old in
              let ne : j ≢ i = λ s. not_h (one_place a h j old (mine ∙ ap some (sym s))) in
              (
                ap (who q) (removed.fd a) ∙ who_stays (name p a) a not_h own,
                e,
                elem_stays j (not_last a j old not_g) ne ∙ elem,
                fd ∙ sym (removed.fd a),
              )
        ]
  ]

  known-removed : (f a : ℕ) → who q f ≡ some a → HasPlace q f a
  known-removed f a here = elim (Bool-cases (name p h == f)) [
    | inl x ↦ let e : none ≡ some a = sym (removed.get f ∙ if_true none (who p f) x) ∙ here in cc
    | inr x ↦
        let (named, j, at) =
          valid.known f a (sym (removed.get f ∙ if_false none (who p f) x) ∙ here) in
        let not_h : a ≢ h = λ s. ne_of_== x (ap (name p) (sym s) ∙ named) in
        elim (Bool-cases (a == g)) [
          | inl y ↦
              let is_g : g ≡ a = sym ((==_iff a g).0 y) in
              (
                removed.fd a ∙ named,
                i,
                ap (place q) (sym is_g) ∙ place_of_last (λ s. not_h (sym is_g ∙ s)),
              )
          | inr y ↦ (removed.fd a ∙ named, j, place_stays a not_h (ne_of_== y) ∙ at)
        ]
  ]

  pub removed-IsPlaced : IsPlaced q
  removed-IsPlaced = record {
    ready = removed.ready;
    entry = entry-removed;
    placed = placed-removed;
    known = known-removed;
  }
