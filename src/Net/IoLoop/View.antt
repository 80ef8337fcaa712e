-- ===== src/Net/IoLoop/View.antt =====
-- An IoLoop as a set of handlers: what the queue of changes of io_loop.cc makes of the set.
use green_turtle.Base.{
  ℕ, ◌<◌, ◌≡◌, Bool, true, false, ◌||◌, none, some, List, [], ◌∷◌, ◌==◌, if◌then◌else◌, contains,
  IsMap,
}
use green_turtle.Net.Poller.Backend.{Backend, handler, get}
use green_turtle.Net.IoLoop.{IoLoop, HandlerKind, buffered_socket, tcp_client, tcp_acceptor}

-- The handlers that the loop serves, those whose loop it is, and whether it was told to end.
pub record View : Type 0 where
  pub serves : ℕ → Bool
  pub owns : ℕ → Bool
  pub ended : Bool

abbrev pub put : (ℕ → Bool) → ℕ → Bool → ℕ → Bool
put s h v a = if a == h then v else s a

-- What `OnError` of a handler does to the set.
abbrev pub view_error : ℕ → HandlerKind → View → ℕ → View
view_error self buffered_socket v h = record v { serves = put v.serves h false }
view_error self tcp_client v h = record v { ended = true }
view_error self (tcp_acceptor loops) v h = record v { ended = v.ended || contains loops self }

abbrev pub view_change : ℕ → (ℕ → HandlerKind) → View → Bool × ℕ → View
view_change self kind v (true, h) = record v {
  serves = put v.serves h true;
  owns = put v.owns h true;
}
view_change self kind v (false, h) = view_error self (kind h) v h

abbrev pub view_all : ℕ → (ℕ → HandlerKind) → View → List (Bool × ℕ) → View
view_all self kind v [] = v
view_all self kind v (c ∷ cs) = view_all self kind (view_change self kind v c) cs

-- A handler is added that is not served, or removed whose loop this is.
abbrev pub IsDue : View → Bool × ℕ → Type 0
IsDue v (true, h) = v.serves h ≡ false
IsDue v (false, h) = v.owns h ≡ true

abbrev pub AllDue : ℕ → (ℕ → HandlerKind) → View → List (Bool × ℕ) → Type 0
AllDue self kind v [] = Unit
AllDue self kind v (c ∷ cs) = IsDue v c × AllDue self kind (view_change self kind v c) cs

-- The loop has the handlers of the view: each is registered under its descriptor, and no descriptor
-- is shared.
pub record Shows {b : Backend} (l : IoLoop b) (v : View) : Type 0 where
  pub valid : b.IsValid l.poller
  pub unique : IsMap (b.registry l.poller).event_handlers
  pub positive : (a : ℕ) → 0 < (handler b l.poller a).fd
  pub distinct : (a c : ℕ) → (handler b l.poller a).fd ≡ (handler b l.poller c).fd → a ≡ c
  pub registered :
      (a : ℕ) → get b l.poller (handler b l.poller a).fd ≡ (if v.serves a then some a else none)
  pub owned : (a : ℕ) → v.owns a ≡ true → (handler b l.poller a).event_loop ≡ some l.self
  pub served : (a : ℕ) → v.serves a ≡ true → v.owns a ≡ true
  pub ends : l.terminal ≡ v.ended
