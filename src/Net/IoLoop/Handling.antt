-- ===== src/Net/IoLoop/Handling.antt =====
-- The first half of a round of io_loop.cc: the handlers that fired are handled.
use green_turtle.Base.{
  ℕ, ◌<◌, ◌≡◌, refl, sym, ap, ◌∙◌, subst, Bool, true, ◌||◌, none, some, List, [], ◌∷◌, ◌++◌,
  if◌then◌else◌, Bool-cases, inl, inr, append-nil, append_assoc, IsMap,
}
use green_turtle.Net.EventHandler.{
  Status, EventHandler, event_readable, event_writeable, fires, is_err, handle_event, handle_write,
}
use green_turtle.Net.EventHandler.Answers.{read_fails, write_fails, handle_event_lem}
use green_turtle.Net.Poller.{Registry, get_event_handler}
use green_turtle.Net.Poller.Backend.{
  Backend, Laws, handler, get, get-set_handler, pairs-set_handler, field-set_handler,
}
use green_turtle.Net.IoLoop.{IoLoop, Outcome, HandlerKind, removals, handle_one, handle_all}
use green_turtle.Net.IoLoop.View.{View, view_error, view_all, Shows}
use green_turtle.Net.IoLoop.Due.{AllTrue, owns-view_error}
use green_turtle.Net.IoLoop.Changes.{Shows-ended, on_error_lem}

-- Whether reading or writing fails when the handler's turn comes.
abbrev pub fails : EventHandler → Outcome → Bool
fails h o = read_fails h o.read_result || write_fails h o.read_result o.write_result

-- The handlers that fail, each as it is when its turn comes.
abbrev pub failures : {b : Backend} → (ℕ → HandlerKind) → (ℕ → Outcome) → IoLoop b → List ℕ → List ℕ
failures kind outcome l [] = []
failures {b} kind outcome l (h ∷ hs) =
    let rest : List ℕ = elim (handle_one (kind h) (outcome h) l h) [
      | none ↦ []
      | some m ↦ failures kind outcome m hs
    ] in
    if fails (handler b l.poller h) (outcome h) then h ∷ rest else rest

-- What the handlers asked of the loop, in turn.
abbrev pub all_asked : (ℕ → Outcome) → List ℕ → List (Bool × ℕ)
all_asked outcome [] = []
all_asked outcome (h ∷ hs) = (outcome h).asked ++ all_asked outcome hs

record Answered (h k : EventHandler) : Type 0 where
  fd : k.fd ≡ h.fd
  poll_idx : k.poll_idx ≡ h.poll_idx
  event_loop : k.event_loop ≡ h.event_loop

handle_write-Answered :
    (h : EventHandler) (ret result : Status) → Answered h (handle_write h ret result).1
unfolding handle_write
handle_write-Answered h ret result =
    elim (Bool-cases (is_err (if fires h event_writeable then result else ret))) [
      | inl e ↦ rw e (record { fd = refl; poll_idx = refl; event_loop = refl })
      | inr e ↦ rw e (record { fd = refl; poll_idx = refl; event_loop = refl })
    ]

handle_event-Answered :
    (h : EventHandler) (now : ℕ) (read_result write_result : Status)
    → Answered h (handle_event h now read_result write_result).1
unfolding handle_event
handle_event-Answered h now read_result write_result = elim (Bool-cases (fires h event_readable)) [
  | inl x ↦ elim (Bool-cases (is_err read_result)) [
    | inl z ↦ rw (x, z) (record { fd = refl; poll_idx = refl; event_loop = refl })
    | inr z ↦
        let same =
          handle_write-Answered (record h { last_active_time = now }) Status.ok write_result in
        rw (x, z) (record { fd = same.fd; poll_idx = same.poll_idx; event_loop = same.event_loop })
  ]
  | inr x ↦ rw x (handle_write-Answered h Status.ok write_result)
]

module _ {b : Backend} (laws : Laws b) where
  Shows-put :
      (l m : IoLoop b) (v : View) (h : ℕ) (x : EventHandler)
      → Shows l v
      → Answered (handler b l.poller h) x
      → m.poller ≡ b.put_handler l.poller h x
      → m.self ≡ l.self
      → m.terminal ≡ l.terminal
      → Shows m v
  Shows-put l m v h x shows same poller self terminal =
      let p = b.put_handler l.poller h x in
      let eq = laws.put l.poller h x in
      let fd : (a : ℕ) → (handler b p a).fd ≡ (handler b l.poller a).fd = λ a.
        ap (λ (r : Registry). (r.handlers a).fd) eq
        ∙ field-set_handler (λ z. z.fd) (b.registry l.poller) h x a same.fd in
      let l' : IoLoop b = record l { poller = p } in
      let shown : Shows l' v = record {
        valid = laws.put-IsValid l.poller h x shows.valid same.fd same.poll_idx;
        unique =
            subst IsMap
              (sym (
                ap (λ (r : Registry). r.event_handlers) eq
                ∙ pairs-set_handler (b.registry l.poller) h x))
              shows.unique;
        positive = λ a. subst (λ z. 0 < z) (sym (fd a)) (shows.positive a);
        distinct = λ a c e. shows.distinct a c (sym (fd a) ∙ e ∙ fd c);
        registered = λ a.
            ap (get b p) (fd a)
            ∙ ap (λ r. get_event_handler r (handler b l.poller a).fd) eq
            ∙ get-set_handler (b.registry l.poller) h (handler b l.poller a).fd x
            ∙ shows.registered a;
        owned = λ a mine.
            ap (λ (r : Registry). (r.handlers a).event_loop) eq
            ∙ field-set_handler (λ z. z.event_loop) (b.registry l.poller) h x a same.event_loop
            ∙ shows.owned a mine;
        served = shows.served;
        ends = shows.ends;
      } in
      Shows-ended laws m v.ended shown poller self (terminal ∙ shows.ends)

  handle_one_lem :
      (k : HandlerKind) (o : Outcome) (l : IoLoop b) (v : View) (h : ℕ)
      → Shows l v
      → v.owns h ≡ true
      → (m : IoLoop b) × (handle_one k o l h ≡ some m)
        × Shows m (if fails (handler b l.poller h) o then view_error l.self k v h else v)
        × (m.self ≡ l.self)
        × (m.changed_handler ≡ l.changed_handler ++ o.asked)
        × (m.check_timeout ≡ l.check_timeout)
  unfolding handle_one
  handle_one_lem k o l v h shows mine =
      let x = handler b l.poller h in
      let r = handle_event x o.now o.read_result o.write_result in
      let l' : IoLoop b = record l {
        poller = b.put_handler l.poller h r.1;
        changed_handler = l.changed_handler ++ o.asked;
      } in
      let shown =
        Shows-put l l' v h r.1 shows (handle_event-Answered x o.now o.read_result o.write_result)
          refl refl refl in
      let calls = (handle_event_lem x o.now o.read_result o.write_result).0 in
      elim (Bool-cases (fails x o)) [
        | inl e ↦
            let (m, done, shows', stays) = on_error_lem laws k l' v h shown mine in
            (
              m,
              rw (calls ∙ e) done,
              rw e shows',
              stays.self,
              stays.changed_handler,
              stays.check_timeout,
            )
        | inr e ↦ (l', rw (calls ∙ e) refl, rw e shown, refl, refl, refl)
      ]

  -- Handling the handlers that fired, which are the loop's own, has the effect of `OnError` for each
  -- that fails, in turn; what the handlers asked for is put at the end of the queue, in turn.
  pub handle_all_lem :
      (kind : ℕ → HandlerKind) (outcome : ℕ → Outcome) (hs : List ℕ) (l : IoLoop b) (v : View)
      → Shows l v
      → AllTrue v.owns hs
      → (m : IoLoop b) × (handle_all kind outcome l hs ≡ some m)
        × Shows m (view_all l.self kind v (removals (failures kind outcome l hs)))
        × (m.self ≡ l.self)
        × (m.changed_handler ≡ l.changed_handler ++ all_asked outcome hs)
        × (m.check_timeout ≡ l.check_timeout)
  unfolding handle_all
  handle_all_lem kind outcome [] l v shows own =
      (l, refl, shows, refl, sym (append-nil l.changed_handler), refl)
  handle_all_lem kind outcome (h ∷ hs) l v shows own =
      let (m, done, shows', self, asked, time) =
        handle_one_lem (kind h) (outcome h) l v h shows own.0 in
      let asked' =
        ap (λ q. q ++ all_asked outcome hs) asked
        ∙ append_assoc l.changed_handler (outcome h).asked (all_asked outcome hs) in
      elim (Bool-cases (fails (handler b l.poller h) (outcome h))) [
        | inl e ↦
            let v' = view_error l.self (kind h) v h in
            let own' =
              subst (λ s. AllTrue s hs) (sym (owns-view_error l.self kind (kind h) v h)) own.1 in
            let (n, rest, shows'', self', more, time') =
              handle_all_lem kind outcome hs m v' (rw e at shows') own' in
            (
              n,
              rw (done, handle_all) rest,
              rw (e, done)
                  (subst (λ s. Shows n (view_all s kind v' (removals (failures kind outcome m hs))))
                    self shows''),
              self' ∙ self,
              more ∙ asked',
              time' ∙ time,
            )
        | inr e ↦
            let (n, rest, shows'', self', more, time') =
              handle_all_lem kind outcome hs m v (rw e at shows') own.1 in
            (
              n,
              rw (done, handle_all) rest,
              rw (e, done)
                  (subst (λ s. Shows n (view_all s kind v (removals (failures kind outcome m hs))))
                    self shows''),
              self' ∙ self,
              more ∙ asked',
              time' ∙ time,
            )
      ]
