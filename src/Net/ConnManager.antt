-- ===== src/Net/ConnManager.antt =====
-- `ConnManager` of green_turtle/net/conn_manager.{h,cc}: the connections by their descriptors, and
-- those that came and went since the last update. A method under the mutex is one step.
pub mod Held
mod Tests
use green_turtle.Base.{
  ℕ, zero, suc, ◌+◌, ◌-◌, ◌*◌, Bool, true, false, ◌&&◌, Option, none, some, List, [], ◌∷◌, ◌++◌,
  ltb, leb, ◌==◌, if◌then◌else◌, length, get_elem?, set, take, replicate, push_back,
}

-- A shared pointer is the number of its handler, or `none` for NULL.
pub record ConnManager : Type 0 where
  pub handlers : List (Option ℕ)
  pub add_handlers : List ℕ
  pub remove_handlers : List ℕ

abbrev pub new_manager : ConnManager
new_manager = record { handlers = []; add_handlers = []; remove_handlers = [] }

-- `std::vector::resize`
unfoldable pub resize : List (Option ℕ) → ℕ → List (Option ℕ)
resize hs n = take n hs ++ replicate (n - length hs) none

-- The store through `handlers_[fd]`; out of range it is `none`.
unfoldable pub put_at : List (Option ℕ) → ℕ → ℕ → Option (List (Option ℕ))
put_at hs fd h = if ltb fd (length hs) then some (set hs fd (some h)) else none

module _ (fd_of : ℕ → ℕ) where
  unfoldable pub add_to : List (Option ℕ) → ℕ → Option (List (Option ℕ))
  unfolding put_at
  add_to hs h =
      let fd = fd_of h in put_at (if leb (length hs) fd then resize hs (fd * 2) else hs) fd h

  unfoldable pub reset_handler : List (Option ℕ) → ℕ → List (Option ℕ)
  reset_handler hs fd = if ltb 0 fd && ltb fd (length hs) then set hs fd none else hs

  unfoldable pub add_conn : ConnManager → ℕ → ConnManager
  add_conn m h = record m { add_handlers = push_back m.add_handlers h }

  unfoldable pub remove_conn : ConnManager → ℕ → ConnManager
  unfolding reset_handler
  remove_conn m h = record m {
    remove_handlers = push_back m.remove_handlers h;
    handlers = reset_handler m.handlers (fd_of h);
  }

  unfoldable pub add_all : List (Option ℕ) → List ℕ → Option (List (Option ℕ))
  add_all hs [] = some hs
  add_all hs (h ∷ rest) = elim (add_to hs h) [ none ↦ none | some hs' ↦ add_all hs' rest ]

  -- The manager, and what the two callbacks are called with; an empty set is not reported.
  unfoldable pub update : ConnManager → Option (ConnManager × List ℕ × List ℕ)
  update m = elim (add_all m.handlers m.add_handlers) [
    | none ↦ none
    | some hs ↦ some (
      record { handlers = hs; add_handlers = []; remove_handlers = [] },
      m.add_handlers,
      m.remove_handlers,
    )
  ]
