-- ===== src/Net/EventLoop.antt =====
-- `EventLoop` of green_turtle/net/event_loop.{h,cc}: the loops of the threads, and the handlers that
-- they start with.
pub mod Start
pub mod Run
mod Tests
use green_turtle.Base.{
  ℕ, zero, suc, ◌+◌, ◌-◌, ◌/◌, ◌^◌, Bool, true, false, Option, none, some, List, [], ◌∷◌, ◌++◌, leb,
  ltb, if◌then◌else◌, length, push_back,
}
use green_turtle.Net.Balance.{next_loop}

-- An IoLoop, as far as it is set up here; a size is `none` where its int sum overflows.
pub record IoLoop : Type 0 where
  pub expected_size : Option ℕ
  pub loop_index : ℕ
  pub is_terminal : Bool

pub record EventLoop : Type 0 where
  pub loops : List IoLoop
  pub handlers : List ℕ
  pub is_terminal : Bool
  pub thread_count : ℕ
  pub expected_size : ℕ

abbrev pub new_event_loop : ℕ → EventLoop
new_event_loop expected_size = record {
  loops = [];
  handlers = [];
  is_terminal = false;
  thread_count = 1;
  expected_size = expected_size;
}

-- `AddAcceptor`, `AddClient` and `AddHandler`; the events that they set are the handler's.
unfoldable pub add_handler : EventLoop → ℕ → EventLoop
add_handler e h = record e { handlers = push_back e.handlers h }

-- A failed assertion is `none`.
unfoldable pub set_thread_count : EventLoop → ℕ → Option EventLoop
set_thread_count e count = if leb 1 count then some (record e { thread_count = count }) else none

abbrev pub terminal_all : List IoLoop → List IoLoop
terminal_all [] = []
terminal_all (l ∷ ls) = record l { is_terminal = true } ∷ terminal_all ls

unfoldable pub terminal : EventLoop → EventLoop
terminal e = record e { is_terminal = true; loops = terminal_all e.loops }

unfoldable pub size_per_thread : EventLoop → Option ℕ
size_per_thread e =
    if ltb (e.expected_size + e.thread_count) (2 ^ 31)
    then some ((e.expected_size + e.thread_count - 1) / e.thread_count)
    else none

-- The first loop of `InitEventLoop`: `count` loops from index `idx` on.
unfoldable pub new_loops : Option ℕ → ℕ → ℕ → List IoLoop
new_loops size idx zero = []
new_loops size idx (suc count) =
    record { expected_size = size; loop_index = idx; is_terminal = false }
    ∷ new_loops size (suc idx) count

-- The second loop: each handler and the index of the loop that it is added to.
unfoldable pub distribute : ℕ → ℕ → List ℕ → List (ℕ × ℕ)
distribute loops idx [] = []
distribute loops idx (h ∷ hs) = (h, idx) ∷ distribute loops (next_loop loops idx) hs

-- The event loop, and which handler went to which loop.
unfoldable pub init_event_loop : EventLoop → EventLoop × List (ℕ × ℕ)
unfolding size_per_thread
init_event_loop e =
    let loops = e.loops ++ new_loops (size_per_thread e) 0 e.thread_count in
    (record e { loops = loops; handlers = [] }, distribute (length loops) 0 e.handlers)
