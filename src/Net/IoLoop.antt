-- ===== src/Net/IoLoop.antt =====
-- `IoLoop` of green_turtle/net/io_loop.{h,cc}: a round of its loop, over a poller. The answers of
-- the handlers, the clock and the other threads are arguments of a round.
pub mod View
pub mod Due
pub mod Changes
pub mod Rounds
pub mod Handling
pub mod WholeRound
pub mod TimeOuts
mod Tests
use green_turtle.Base.{
  ℕ, Bool, true, false, Option, none, some, List, [], ◌∷◌, ◌++◌, ltb, ◌==◌, if◌then◌else◌,
  push_back,
}
use green_turtle.Net.EventHandler.{Status, EventHandler, handle_event}
use green_turtle.Net.EventHandler.Answers.{is_error, any_call}
use green_turtle.Net.Poller.{check_event_handler_time_out}
use green_turtle.Net.Poller.Backend.{Backend, handler}

-- The classes of handlers, by what `OnError` does; an acceptor has the loops that it deals to.
pub data HandlerKind : Type 0 where
  buffered_socket tcp_client : HandlerKind
  tcp_acceptor : List ℕ → HandlerKind

-- A call of another loop: `RemoveEventHandler` or `Ternimal`.
pub data Outside : Type 0 where
  remove_from : ℕ → ℕ → Outside
  end_loop : ℕ → Outside

-- What a handler answers, and what it asks of this loop by `AddHandlerLater` and
-- `RemoveHandlerLater` while it is handled; `now` is the time of the clock.
pub record Outcome : Type 0 where
  pub now : ℕ
  pub read_result : Status
  pub write_result : Status
  pub asked : List (Bool × ℕ)

module _ (b : Backend) where
  -- Loops are named by numbers, and `self` is this one. `outside` is the calls of other loops.
  pub record IoLoop : Type 0 where
    pub self : ℕ
    pub terminal : Bool
    pub check_timeout : ℕ
    pub poller : b.State
    pub changed_handler : List (Bool × ℕ)
    pub outside : List Outside

  -- One round: what the system reported, the handlers' answers, the two readings of the seconds,
  -- the time at which time-outs are looked for, what other threads asked for before the queue is
  -- taken, and whether the system takes a descriptor.
  pub record Round : Type 0 where
    pub report : b.Report
    pub outcome : ℕ → Outcome
    pub seconds : ℕ
    pub seconds_after : ℕ
    pub check_time : ℕ
    pub asked : List (Bool × ℕ)
    pub taken : ℕ → Bool

abbrev pub removals : List ℕ → List (Bool × ℕ)
removals [] = []
removals (h ∷ hs) = (false, h) ∷ removals hs

module _ {b : Backend} where
  unfoldable pub add_handler : IoLoop b → ℕ → Bool → Option (IoLoop b)
  add_handler l h taken = elim (b.add l.poller h taken) [
    | none ↦ none
    | some p ↦
        let joined = record (handler b p h) { event_loop = some l.self } in
        some (record l { poller = b.put_handler p h joined })
  ]

  unfoldable pub remove_handler : IoLoop b → ℕ → Option (IoLoop b)
  remove_handler l h = elim (b.remove l.poller h) [
    | none ↦ none
    | some p ↦ some (record l { poller = p })
  ]

  -- `AddHandlerLater` and `RemoveHandlerLater`
  unfoldable pub later : IoLoop b → Bool → ℕ → IoLoop b
  later l adds h = record l { changed_handler = push_back l.changed_handler (adds, h) }

  -- `Ternimal` of a loop, which may be this one.
  unfoldable pub end_of : IoLoop b → ℕ → IoLoop b
  end_of l e =
      if e == l.self
      then record l { terminal = true }
      else record l { outside = push_back l.outside (end_loop e) }

  unfoldable pub end_all : IoLoop b → List ℕ → IoLoop b
  end_all l [] = l
  end_all l (e ∷ es) = end_all (end_of l e) es

  -- `OnError`; NULL for the loop of the handler is `none`.
  unfoldable pub on_error : HandlerKind → IoLoop b → ℕ → Option (IoLoop b)
  on_error buffered_socket l h = elim (handler b l.poller h).event_loop [
    | none ↦ none
    | some e ↦
        if e == l.self
        then remove_handler l h
        else some (record l { outside = push_back l.outside (remove_from e h) })
  ]
  on_error tcp_client l h = elim (handler b l.poller h).event_loop [
    | none ↦ none
    | some e ↦ some (end_of l e)
  ]
  on_error (tcp_acceptor loops) l h = some (end_all l loops)

  -- `HandleEvent` of one handler.
  unfoldable pub handle_one : HandlerKind → Outcome → IoLoop b → ℕ → Option (IoLoop b)
  handle_one kind o l h =
      let r = handle_event (handler b l.poller h) o.now o.read_result o.write_result in
      let l' = record l {
        poller = b.put_handler l.poller h r.1;
        changed_handler = l.changed_handler ++ o.asked;
      } in
      if any_call is_error r.0 then on_error kind l' h else some l'

  unfoldable pub handle_all :
      (ℕ → HandlerKind) → (ℕ → Outcome) → IoLoop b → List ℕ → Option (IoLoop b)
  handle_all kind outcome l [] = some l
  handle_all kind outcome l (h ∷ hs) = elim (handle_one (kind h) (outcome h) l h) [
    | none ↦ none
    | some l' ↦ handle_all kind outcome l' hs
  ]

  -- Every second, the handlers that timed out are to be removed.
  unfoldable pub check_time_outs : IoLoop b → ℕ → ℕ → ℕ → IoLoop b
  check_time_outs l seconds seconds_after now =
      if ltb l.check_timeout seconds
      then record l {
        check_timeout = seconds_after;
        changed_handler =
            l.changed_handler
            ++ removals (check_event_handler_time_out (b.registry l.poller) now []);
      }
      else l

  unfoldable pub apply_change :
      (ℕ → HandlerKind) → (ℕ → Bool) → IoLoop b → Bool × ℕ → Option (IoLoop b)
  apply_change kind taken l (true, h) = add_handler l h (taken h)
  apply_change kind taken l (false, h) = on_error (kind h) l h

  unfoldable pub apply_all :
      (ℕ → HandlerKind) → (ℕ → Bool) → IoLoop b → List (Bool × ℕ) → Option (IoLoop b)
  apply_all kind taken l [] = some l
  apply_all kind taken l (c ∷ cs) = elim (apply_change kind taken l c) [
    | none ↦ none
    | some l' ↦ apply_all kind taken l' cs
  ]

  -- The queue of changes is taken at once, and then worked off.
  unfoldable pub drain : (ℕ → HandlerKind) → (ℕ → Bool) → IoLoop b → Option (IoLoop b)
  drain kind taken l = apply_all kind taken (record l { changed_handler = [] }) l.changed_handler

  -- From the check for time-outs to the end of the round.
  unfoldable pub second_half : (ℕ → HandlerKind) → Round b → IoLoop b → Option (IoLoop b)
  second_half kind r l =
      let checked = check_time_outs l r.seconds r.seconds_after r.check_time in
      drain kind r.taken (record checked { changed_handler = checked.changed_handler ++ r.asked })

  unfoldable pub round : (ℕ → HandlerKind) → Round b → IoLoop b → Option (IoLoop b)
  round kind r l =
      let polled = b.poll_once l.poller r.report in
      elim (handle_all kind r.outcome (record l { poller = polled.0 }) polled.1) [
        | none ↦ none
        | some l' ↦ second_half kind r l'
      ]

  -- `Loop`, as long as there are rounds: the loop, and the rounds that are left when it ended.
  unfoldable pub loop :
      (ℕ → HandlerKind) → List (Round b) → IoLoop b → Option (IoLoop b × List (Round b))
  loop kind [] l = some (l, [])
  loop kind (r ∷ rs) l =
      if l.terminal
      then some (l, r ∷ rs)
      else elim (round kind r l) [ none ↦ none | some l' ↦ loop kind rs l' ]
