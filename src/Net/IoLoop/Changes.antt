-- ===== src/Net/IoLoop/Changes.antt =====
-- The queue of changes of io_loop.cc, worked off over any poller that keeps its laws.
use green_turtle.Base.{
  ℕ, ◌<◌, ◌≡◌, refl, sym, ap, ◌∙◌, subst, Bool, true, false, ◌||◌, none, some, List, [], ◌∷◌, ◌==◌,
  if◌then◌else◌, Bool-cases, ==_iff, ==_refl, ==_of_ne, ne_of_==, inl, inr, contains, push_back,
  IsMap,
}
use green_turtle.Net.EventHandler.{EventHandler}
use green_turtle.Net.Poller.{Registry, set_handler, get_event_handler}
use green_turtle.Net.Poller.Backend.{
  Backend, Laws, Changed, handler, get, get-set_handler, pairs-set_handler, field-set_handler,
}
use green_turtle.Net.PollPoller.Indices.{if_true, if_false}
use green_turtle.Net.IoLoop.{
  IoLoop, HandlerKind, buffered_socket, tcp_client, tcp_acceptor, add_handler, remove_handler,
  end_loop, end_of, end_all, on_error, apply_change, apply_all,
}
use green_turtle.Net.IoLoop.Due.{or_true}
use green_turtle.Net.IoLoop.View.{
  View, put, view_error, view_change, view_all, IsDue, AllDue, Shows,
}

-- What a change leaves of the loop.
pub record Stays {b : Backend} (l m : IoLoop b) : Type 0 where
  pub self : m.self ≡ l.self
  pub changed_handler : m.changed_handler ≡ l.changed_handler
  pub check_timeout : m.check_timeout ≡ l.check_timeout
  pub last_active_time :
      (a : ℕ) → (handler b m.poller a).last_active_time ≡ (handler b l.poller a).last_active_time

Stays-trans : {b : Backend} {l m n : IoLoop b} → Stays l m → Stays m n → Stays l n
Stays-trans x y = record {
  self = y.self ∙ x.self;
  changed_handler = y.changed_handler ∙ x.changed_handler;
  check_timeout = y.check_timeout ∙ x.check_timeout;
  last_active_time = λ a. y.last_active_time a ∙ x.last_active_time a;
}

or_false : (b : Bool) → b ≡ (b || false)
or_false true = refl
or_false false = refl

put_self : (s : ℕ → Bool) (h : ℕ) (w : Bool) → put s h w h ≡ w
put_self s h w = if_true w (s h) (==_refl h)

put_true : (s : ℕ → Bool) (h a : ℕ) → s a ≡ true → put s h true a ≡ true
put_true s h a e = elim (Bool-cases (a == h)) [ inl x ↦ rw x | inr x ↦ rw x e ]

loop-set_handler :
    (r : Registry) (h : ℕ) (x : EventHandler) (a : ℕ)
    → ((set_handler r h x).handlers a).event_loop
      ≡ (if a == h then x.event_loop else (r.handlers a).event_loop)
unfolding set_handler
loop-set_handler r h x a = elim (Bool-cases (a == h)) [ inl e ↦ rw e | inr e ↦ rw e ]

module _ {b : Backend} (laws : Laws b) where
  -- Who is registered, after the descriptor of one handler was given to it or to nobody.
  Changed-registered :
      (l : IoLoop b) (v : View) (q : b.State) (h : ℕ) (w : Bool)
      → Shows l v
      → Changed b l.poller q (handler b l.poller h).fd (if w then some h else none)
      → (a : ℕ) → get b q (handler b l.poller a).fd ≡ (if put v.serves h w a then some a else none)
  Changed-registered l v q h w shows changed a =
      changed.found (handler b l.poller a).fd ∙ elim (Bool-cases (a == h)) [
        | inl e ↦
            let same : a ≡ h = (==_iff a h).0 e in
            if_true _ _ ((==_iff _ _).1 (ap (λ z. (handler b l.poller z).fd) (sym same)))
            ∙ rw e (ap (λ z. if w then some z else none) (sym same))
        | inr e ↦
            if_false _ _ (==_of_ne (λ x. ne_of_== e (sym (shows.distinct h a x))))
            ∙ rw e (shows.registered a)
      ]

  Shows-added :
      (l : IoLoop b) (v : View) (h : ℕ) (p : b.State)
      → Shows l v
      → Changed b l.poller p (handler b l.poller h).fd (some h)
      → let x = record (handler b p h) { event_loop = some l.self } in
        let m : IoLoop b = record l { poller = b.put_handler p h x } in
        Shows m (record v { serves = put v.serves h true; owns = put v.owns h true }) × Stays l m
  Shows-added l v h p shows changed =
      let x = record (handler b p h) { event_loop = some l.self } in
      let p' = b.put_handler p h x in
      let eq = laws.put p h x in
      let fd : (a : ℕ) → (handler b p' a).fd ≡ (handler b l.poller a).fd = λ a.
        ap (λ (r : Registry). (r.handlers a).fd) eq
        ∙ field-set_handler (λ z. z.fd) (b.registry p) h x a refl
        ∙ (changed.keeps a).fd in
      let got : (j : ℕ) → get b p' j ≡ get b p j =
        λ j. ap (λ r. get_event_handler r j) eq ∙ get-set_handler (b.registry p) h j x in
      (
        record {
          valid = laws.put-IsValid p h x changed.valid refl refl;
          unique =
              subst IsMap
                (sym (
                  ap (λ (r : Registry). r.event_handlers) eq
                  ∙ pairs-set_handler (b.registry p) h x))
                (changed.unique shows.unique);
          positive = λ a. subst (λ z. 0 < z) (sym (fd a)) (shows.positive a);
          distinct = λ a c e. shows.distinct a c (sym (fd a) ∙ e ∙ fd c);
          registered = λ a.
              ap (get b p') (fd a)
              ∙ got (handler b l.poller a).fd
              ∙ Changed-registered l v p h true shows changed a;
          owned = λ a mine.
              ap (λ (r : Registry). (r.handlers a).event_loop) eq
              ∙ loop-set_handler (b.registry p) h x a
              ∙ elim (Bool-cases (a == h)) [
                | inl e ↦ rw e
                | inr e ↦ rw e ((changed.keeps a).event_loop ∙ shows.owned a (rw e at mine))
              ];
          served = λ a mine. elim (Bool-cases (a == h)) [
            | inl e ↦ rw e
            | inr e ↦ rw e (shows.served a (rw e at mine))
          ];
          ends = shows.ends;
        },
        record {
          self = refl;
          changed_handler = refl;
          check_timeout = refl;
          last_active_time = λ a.
              ap (λ (r : Registry). (r.handlers a).last_active_time) eq
              ∙ field-set_handler (λ z. z.last_active_time) (b.registry p) h x a refl
              ∙ (changed.keeps a).last_active_time;
        },
      )

  Shows-removed :
      (l : IoLoop b) (v : View) (h : ℕ) (p : b.State)
      → Shows l v
      → Changed b l.poller p (handler b l.poller h).fd none
      → let m : IoLoop b = record l { poller = p } in
        Shows m (record v { serves = put v.serves h false }) × Stays l m
  Shows-removed l v h p shows changed = (
    record {
      valid = changed.valid;
      unique = changed.unique shows.unique;
      positive = λ a. subst (λ z. 0 < z) (sym (changed.keeps a).fd) (shows.positive a);
      distinct = λ a c e. shows.distinct a c (sym (changed.keeps a).fd ∙ e ∙ (changed.keeps c).fd);
      registered =
          λ a. ap (get b p) (changed.keeps a).fd ∙ Changed-registered l v p h false shows changed a;
      owned = λ a mine. (changed.keeps a).event_loop ∙ shows.owned a mine;
      served = λ a mine. elim (Bool-cases (a == h)) [
        | inl e ↦ let x : false ≡ true = rw e at mine in cc
        | inr e ↦ shows.served a (rw e at mine)
      ];
      ends = shows.ends;
    },
    record {
      self = refl;
      changed_handler = refl;
      check_timeout = refl;
      last_active_time = λ a. (changed.keeps a).last_active_time;
    },
  )

  Stays-refl : (l : IoLoop b) → Stays l l
  Stays-refl l = record {
    self = refl;
    changed_handler = refl;
    check_timeout = refl;
    last_active_time = λ a. refl;
  }

  -- `terminal_` may be set, and other loops called.
  pub Shows-ended :
      {l : IoLoop b} {v : View} (m : IoLoop b) (ended : Bool)
      → Shows l v
      → m.poller ≡ l.poller
      → m.self ≡ l.self
      → m.terminal ≡ ended
      → Shows m (record v { ended = ended })
  Shows-ended {l} {v} m ended shows poller self terminal = record {
    valid = subst b.IsValid (sym poller) shows.valid;
    unique = subst (λ p. IsMap (b.registry p).event_handlers) (sym poller) shows.unique;
    positive = subst (λ p. (a : ℕ) → 0 < (handler b p a).fd) (sym poller) shows.positive;
    distinct =
        subst (λ p. (a c : ℕ) → (handler b p a).fd ≡ (handler b p c).fd → a ≡ c) (sym poller)
          shows.distinct;
    registered =
        subst (λ p. (a : ℕ) → get b p (handler b p a).fd ≡ (if v.serves a then some a else none))
          (sym poller) shows.registered;
    owned = λ a mine.
        ap (λ p. (handler b p a).event_loop) poller ∙ shows.owned a mine ∙ ap some (sym self);
    served = shows.served;
    ends = terminal;
  }

  end_all_lem :
      (es : List ℕ) (l : IoLoop b)
      → ((end_all l es).poller ≡ l.poller)
        × ((end_all l es).self ≡ l.self)
        × ((end_all l es).changed_handler ≡ l.changed_handler)
        × ((end_all l es).check_timeout ≡ l.check_timeout)
        × ((end_all l es).terminal ≡ (l.terminal || contains es l.self))
  unfolding end_all end_of
  end_all_lem [] l = (refl, refl, refl, refl, or_false l.terminal)
  end_all_lem (e ∷ es) l = elim (Bool-cases (e == l.self)) [
    | inl x ↦
        let (poller, self, queue, time, terminal) = end_all_lem es (record l { terminal = true }) in
        (
          rw (x, end_all) poller,
          rw (x, end_all) self,
          rw (x, end_all) queue,
          rw (x, end_all) time,
          rw (x, end_all) (terminal ∙ sym (or_true l.terminal)),
        )
    | inr x ↦
        let (poller, self, queue, time, terminal) =
          end_all_lem es (record l { outside = push_back l.outside (end_loop e) }) in
        (
          rw (x, end_all) poller,
          rw (x, end_all) self,
          rw (x, end_all) queue,
          rw (x, end_all) time,
          rw (x, end_all) terminal,
        )
  ]

  Stays-ended :
      (l m : IoLoop b)
      → m.poller ≡ l.poller
      → m.self ≡ l.self
      → m.changed_handler ≡ l.changed_handler
      → m.check_timeout ≡ l.check_timeout
      → Stays l m
  Stays-ended l m poller self queue time = record {
    self = self;
    changed_handler = queue;
    check_timeout = time;
    last_active_time = λ a. ap (λ p. (handler b p a).last_active_time) poller;
  }

  -- `OnError` of a handler whose loop this is.
  pub on_error_lem :
      (k : HandlerKind) (l : IoLoop b) (v : View) (h : ℕ)
      → Shows l v
      → v.owns h ≡ true
      → (m : IoLoop b) × (on_error k l h ≡ some m) × Shows m (view_error l.self k v h) × Stays l m
  unfolding on_error remove_handler end_of
  on_error_lem buffered_socket l v h shows mine =
      let there = shows.registered h in
      let (p, done, changed) =
        laws.removes l.poller h shows.valid (shows.positive h) (elim (Bool-cases (v.serves h)) [
          | inl e ↦ inr (there ∙ rw e)
          | inr e ↦ inl (there ∙ rw e)
        ]) in
      let (shows', stays) = Shows-removed l v h p shows changed in
      (
        record l { poller = p },
        rw (shows.owned h mine, on_error) (rw (==_refl l.self) (rw (done, remove_handler))),
        shows',
        stays,
      )
  on_error_lem tcp_client l v h shows mine =
      let m : IoLoop b = record l { terminal = true } in
      (
        m,
        rw (shows.owned h mine, on_error) (rw (==_refl l.self)),
        Shows-ended m true shows refl refl refl,
        Stays-ended l m refl refl refl refl,
      )
  on_error_lem (tcp_acceptor loops) l v h shows mine =
      let (poller, self, queue, time, terminal) = end_all_lem loops l in
      (
        end_all l loops,
        refl,
        Shows-ended (end_all l loops) (v.ended || contains loops l.self) shows poller self
            (terminal ∙ ap (λ t. t || contains loops l.self) shows.ends),
        Stays-ended l (end_all l loops) poller self queue time,
      )

  apply_change_lem :
      (kind : ℕ → HandlerKind) (taken : ℕ → Bool) (l : IoLoop b) (v : View) (c : Bool × ℕ)
      → ((a : ℕ) → taken a ≡ true)
      → Shows l v
      → IsDue v c
      → (m : IoLoop b) × (apply_change kind taken l c ≡ some m)
        × Shows m (view_change l.self kind v c)
        × Stays l m
  unfolding apply_change add_handler
  apply_change_lem kind taken l v (true, h) takes shows due =
      let (p, done, changed) =
        laws.adds l.poller h shows.valid (shows.positive h) (shows.registered h ∙ rw due) in
      let (shows', stays) = Shows-added l v h p shows changed in
      (_, rw (takes h) (rw (done, add_handler)), shows', stays)
  apply_change_lem kind taken l v (false, h) takes shows due = on_error_lem (kind h) l v h shows due

  pub apply_all_lem :
      (kind : ℕ → HandlerKind) (taken : ℕ → Bool) (cs : List (Bool × ℕ)) (l : IoLoop b) (v : View)
      → ((a : ℕ) → taken a ≡ true)
      → Shows l v
      → AllDue l.self kind v cs
      → (m : IoLoop b) × (apply_all kind taken l cs ≡ some m)
        × Shows m (view_all l.self kind v cs)
        × Stays l m
  unfolding apply_all
  apply_all_lem kind taken [] l v takes shows due = (l, refl, shows, Stays-refl l)
  apply_all_lem kind taken (c ∷ cs) l v takes shows due =
      let (m, done, shows', stays) = apply_change_lem kind taken l v c takes shows due.0 in
      let (n, rest, shows'', stays') =
        apply_all_lem kind taken cs m (view_change l.self kind v c) takes shows'
          (subst (λ s. AllDue s kind (view_change l.self kind v c) cs) (sym stays.self) due.1) in
      (
        n,
        rw (done, apply_all) rest,
        subst (λ s. Shows n (view_all s kind (view_change l.self kind v c) cs)) stays.self shows'',
        Stays-trans stays stays',
      )
