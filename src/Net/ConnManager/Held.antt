-- ===== src/Net/ConnManager/Held.antt =====
-- The handler that a descriptor has after the operations of conn_manager.cc.
use green_turtle.Base.{
  ℕ, zero, suc, ◌-◌, ◌*◌, ◌≤◌, ◌<◌, ◌≡◌, refl, ap, ap₂, ◌∙◌, Option, none, some, List, [], ◌∷◌,
  ◌++◌, arith, leb, ◌==◌, if◌then◌else◌, length, get_elem?, set, take, replicate, Bool-cases,
  ==_refl, lt→ltb, inl, inr, length-append, length-take, length-replicate, get_elem?-set, take_all,
}
use green_turtle.Net.ConnManager.{
  ConnManager, resize, put_at, add_to, add_conn, remove_conn, add_all, update,
}

-- The handler at a descriptor; past the end there is none.
abbrev pub held : List (Option ℕ) → ℕ → Option ℕ
held hs fd = elim (get_elem? hs fd) [ none ↦ none | some h ↦ h ]

held-replicate : (n fd : ℕ) → held (replicate n none) fd ≡ none
held-replicate zero fd = refl
held-replicate (suc n) zero = refl
held-replicate (suc n) (suc fd) = held-replicate n fd

held-append_none : (hs : List (Option ℕ)) (n fd : ℕ) → held (hs ++ replicate n none) fd ≡ held hs fd
held-append_none [] n fd = held-replicate n fd
held-append_none (h ∷ hs) n zero = refl
held-append_none (h ∷ hs) n (suc fd) = held-append_none hs n fd

held-resize : (hs : List (Option ℕ)) (n fd : ℕ) → length hs ≤ n → held (resize hs n) fd ≡ held hs fd
unfolding resize
held-resize hs n fd enough =
    held-append_none (take n hs) (n - length hs) fd ∙ ap (λ l. held l fd) (take_all n hs enough)

length-resize : (hs : List (Option ℕ)) (n : ℕ) → length hs ≤ n → length (resize hs n) ≡ n
unfolding resize
length-resize hs n enough = omega (
  arith,
  length-append (take n hs) (replicate (n - length hs) none),
  length-take n hs,
  length-replicate {A = Option ℕ} (n - length hs) none,
)

held-set :
    (hs : List (Option ℕ)) (fd j : ℕ) (v : Option ℕ)
    → fd < length hs
    → held (set hs fd v) j ≡ (if fd == j then v else held hs j)
held-set hs fd j v inside =
    ap (λ o. elim o [ none ↦ none | some h ↦ h ]) (get_elem?-set hs fd j v inside)
    ∙ (elim (Bool-cases (fd == j)) [ inl e ↦ rw e refl | inr e ↦ rw e refl ])

put_at_lem :
    (hs : List (Option ℕ)) (fd h : ℕ) → fd < length hs → put_at hs fd h ≡ some (set hs fd (some h))
unfolding put_at
put_at_lem hs fd h inside = rw (lt→ltb fd (length hs) inside)

module _ (fd_of : ℕ → ℕ) where
  add_to_lem :
      (hs : List (Option ℕ)) (h : ℕ)
      → 0 < fd_of h
      → (hs' : List (Option ℕ)) × (add_to fd_of hs h ≡ some hs')
        × ((j : ℕ) → held hs' j ≡ (if fd_of h == j then some h else held hs j))
  unfolding add_to
  add_to_lem hs h pos = elim (Bool-cases (leb (length hs) (fd_of h))) [
    | inl short ↦
        let larger : length hs ≤ fd_of h * 2 = ground arith in
        let size = length-resize hs (fd_of h * 2) larger in
        let wide = resize hs (fd_of h * 2) in
        let inside : fd_of h < length wide = omega arith in
        (
          set wide (fd_of h) (some h),
          rw short (put_at_lem wide (fd_of h) h inside),
          λ j.
              held-set wide (fd_of h) j (some h) inside
              ∙ ap (λ x. if fd_of h == j then some h else x)
                  (held-resize hs (fd_of h * 2) j larger),
        )
    | inr long ↦
        let inside : fd_of h < length hs = ground arith in
        (
          set hs (fd_of h) (some h),
          rw long (put_at_lem hs (fd_of h) h inside),
          λ j. held-set hs (fd_of h) j (some h) inside,
        )
  ]

  -- The last handler of a list with a descriptor, or else what was there.
  abbrev pub latest : List ℕ → ℕ → Option ℕ → Option ℕ
  latest [] j before = before
  latest (h ∷ hs) j before = latest hs j (if fd_of h == j then some h else before)

  abbrev pub AllPositive : List ℕ → Type 0
  AllPositive [] = Unit
  AllPositive (h ∷ hs) = (0 < fd_of h) × AllPositive hs

  add_all_lem :
      (added : List ℕ) (hs : List (Option ℕ))
      → AllPositive added
      → (hs' : List (Option ℕ)) × (add_all fd_of hs added ≡ some hs')
        × ((j : ℕ) → held hs' j ≡ latest added j (held hs j))
  unfolding add_all
  add_all_lem [] hs pos = (hs, refl, λ j. refl)
  add_all_lem (h ∷ added) hs pos =
      let (one, done, here) = add_to_lem hs h pos.0 in
      let (all, rest, there) = add_all_lem added one pos.1 in
      (all, rw (done, add_all) rest, λ j. there j ∙ ap (latest added j) (here j))

  -- With positive descriptors `Update` succeeds: it reports what came and went, forgets it, and
  -- every descriptor has the last handler that was added under it, or else the one that it had.
  pub update_lem :
      (m : ConnManager)
      → AllPositive m.add_handlers
      → (m' : ConnManager) × (update fd_of m ≡ some (m', m.add_handlers, m.remove_handlers))
        × ((j : ℕ) → held m'.handlers j ≡ latest m.add_handlers j (held m.handlers j))
        × (m'.add_handlers ≡ [])
        × (m'.remove_handlers ≡ [])
  unfolding update
  update_lem m pos =
      let (hs, done, at) = add_all_lem m.add_handlers m.handlers pos in
      (
        record { handlers = hs; add_handlers = []; remove_handlers = [] },
        rw (done, update),
        at,
        refl,
        refl,
      )

  -- A connection that came and went between two updates is reported as both, and is then kept:
  -- `RemoveConn` resets the descriptor before `Update` sets it.
  pub removed_stays :
      (m : ConnManager) (h : ℕ)
      → m.add_handlers ≡ []
      → m.remove_handlers ≡ []
      → 0 < fd_of h
      → (m' : ConnManager) × (update fd_of (remove_conn fd_of (add_conn fd_of m h) h)
          ≡ some (m', h ∷ [], h ∷ []))
        × (held m'.handlers (fd_of h) ≡ some h)
  unfolding add_conn remove_conn
  removed_stays m h none_added none_removed pos =
      let gone = remove_conn fd_of (add_conn fd_of m h) h in
      let added : gone.add_handlers ≡ h ∷ [] = rw none_added in
      let removed : gone.remove_handlers ≡ h ∷ [] = rw none_removed in
      let (m', done, at, _, _) = update_lem gone (rw added (pos, tt)) in
      (
        m',
        done ∙ ap₂ (λ came went. some (m', came, went)) added removed,
        at (fd_of h)
            ∙ ap (λ came. latest came (fd_of h) (held gone.handlers (fd_of h))) added
            ∙ rw (==_refl (fd_of h)) refl,
      )
