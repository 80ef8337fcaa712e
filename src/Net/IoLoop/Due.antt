-- ===== src/Net/IoLoop/Due.antt =====
-- Which changes of the queue of io_loop.cc can be worked off, and the time-outs among them.
use green_turtle.Base.{
  ℕ, ◌≡◌, refl, sym, ap, ◌∙◌, Bool, true, false, ◌||◌, none, some, List, [], ◌∷◌, ◌++◌, ◌==◌,
  Bool-cases, ==_iff, ==_refl, inl, inr, contains, lookup, IsMap,
}
use green_turtle.Net.EventHandler.{EventHandler, is_timeout}
use green_turtle.Net.Poller.{check_time_out}
use green_turtle.Net.IoLoop.{HandlerKind, buffered_socket, tcp_client, tcp_acceptor, removals}
use green_turtle.Net.IoLoop.View.{View, view_error, view_change, view_all, AllDue}

abbrev pub AllTrue : (ℕ → Bool) → List ℕ → Type 0
AllTrue s [] = Unit
AllTrue s (h ∷ hs) = (s h ≡ true) × AllTrue s hs

-- Whatever the pairs lead to is among the handlers that are looked at, and no other.
pub check_time_out-AllTrue :
    (ps : List (ℕ × ℕ)) (handlers : ℕ → EventHandler) (now : ℕ) (s : ℕ → Bool)
    → IsMap ps
    → ((j h : ℕ) → lookup ps j ≡ some h → s h ≡ true)
    → AllTrue s (check_time_out ps handlers now)
unfolding check_time_out
check_time_out-AllTrue [] handlers now s unique all = tt
check_time_out-AllTrue (p ∷ ps) handlers now s unique all =
    let rest = check_time_out-AllTrue ps handlers now s unique.1 (λ j h there.
      all j h (elim (Bool-cases (p.0 == j)) [
        | inl e ↦
            let x : none ≡ some h = sym unique.0 ∙ ap (lookup ps) ((==_iff p.0 j).0 e) ∙ there in cc
        | inr e ↦ rw e there
      ])) in
    elim (Bool-cases (is_timeout (handlers p.1) now)) [
      | inl late ↦ rw late (all p.0 p.1 (rw (==_refl p.0) refl), rest)
      | inr fine ↦ rw fine rest
    ]

pub or_true : (b : Bool) → (b || true) ≡ true
or_true true = refl
or_true false = refl

pub check_time_out-contains :
    (ps : List (ℕ × ℕ)) (handlers : ℕ → EventHandler) (now j h : ℕ)
    → lookup ps j ≡ some h
    → is_timeout (handlers h) now ≡ true
    → contains (check_time_out ps handlers now) h ≡ true
unfolding check_time_out
check_time_out-contains [] handlers now j h there late = absurd (cc)
check_time_out-contains (p ∷ ps) handlers now j h there late = elim (Bool-cases (p.0 == j)) [
  | inl e ↦
      let same : some p.1 ≡ some h = rw e at there in
      let same' : p.1 ≡ h = cc in rw same' (rw late (rw (==_refl h) refl))
  | inr e ↦
      let rest = check_time_out-contains ps handlers now j h (rw e at there) late in
      elim (Bool-cases (is_timeout (handlers p.1) now)) [
        | inl other ↦ rw other (rw rest (or_true (p.1 == h)))
        | inr other ↦ rw other rest
      ]
]

module _ (self : ℕ) (kind : ℕ → HandlerKind) where
  pub owns-view_error : (k : HandlerKind) (v : View) (h : ℕ) → (view_error self k v h).owns ≡ v.owns
  owns-view_error buffered_socket v h = refl
  owns-view_error tcp_client v h = refl
  owns-view_error (tcp_acceptor loops) v h = refl

  owns-view_change :
      (v : View) (c : Bool × ℕ) (a : ℕ)
      → v.owns a ≡ true
      → (view_change self kind v c).owns a ≡ true
  owns-view_change v (true, h) a mine = elim (Bool-cases (a == h)) [
    | inl e ↦ rw e
    | inr e ↦ rw e mine
  ]
  owns-view_change v (false, h) a mine = ap (λ s. s a) (owns-view_error (kind h) v h) ∙ mine

  pub owns-view_all :
      (cs : List (Bool × ℕ)) (v : View) (a : ℕ)
      → v.owns a ≡ true
      → (view_all self kind v cs).owns a ≡ true
  owns-view_all [] v a mine = mine
  owns-view_all (c ∷ cs) v a mine =
      owns-view_all cs (view_change self kind v c) a (owns-view_change v c a mine)

  pub AllTrue-mono :
      (s t : ℕ → Bool) (hs : List ℕ)
      → ((a : ℕ) → s a ≡ true → t a ≡ true)
      → AllTrue s hs
      → AllTrue t hs
  AllTrue-mono s t [] more all = tt
  AllTrue-mono s t (h ∷ hs) more all = (more h all.0, AllTrue-mono s t hs more all.1)

  pub removals-AllDue :
      (hs : List ℕ) (v : View) → AllTrue v.owns hs → AllDue self kind v (removals hs)
  removals-AllDue [] v all = tt
  removals-AllDue (h ∷ hs) v all = (
    all.0,
    removals-AllDue hs (view_error self (kind h) v h) (
        AllTrue-mono v.owns (view_error self (kind h) v h).owns hs
          (λ a mine. ap (λ s. s a) (owns-view_error (kind h) v h) ∙ mine) all.1),
  )

  -- After other changes the removals are still due.
  pub AllDue-removals :
      (cs : List (Bool × ℕ)) (v : View) (hs : List ℕ)
      → AllDue self kind v cs
      → AllTrue v.owns hs
      → AllDue self kind v (cs ++ removals hs)
  AllDue-removals [] v hs due all = removals-AllDue hs v all
  AllDue-removals (c ∷ cs) v hs due all = (
    due.0,
    AllDue-removals cs (view_change self kind v c) hs due.1
        (AllTrue-mono v.owns (view_change self kind v c).owns hs (owns-view_change v c) all),
  )

  pub AllDue-append :
      (cs ds : List (Bool × ℕ)) (v : View)
      → AllDue self kind v cs
      → AllDue self kind (view_all self kind v cs) ds
      → AllDue self kind v (cs ++ ds)
  AllDue-append [] ds v due due' = due'
  AllDue-append (c ∷ cs) ds v due due' =
      (due.0, AllDue-append cs ds (view_change self kind v c) due.1 due')

  pub view_all-append :
      (cs ds : List (Bool × ℕ)) (v : View)
      → view_all self kind v (cs ++ ds) ≡ view_all self kind (view_all self kind v cs) ds
  view_all-append [] ds v = refl
  view_all-append (c ∷ cs) ds v = view_all-append cs ds (view_change self kind v c)
