-- ===== src/BlockingQueue/Batches.antt =====
-- What any sequence of pushes and pops of a `BlockingQueue` of blocking_queue.h hands over.
use green_turtle.Base.{
  ◌≡◌, refl, sym, ap, ◌∙◌, Bool, List, [], ◌∷◌, ◌++◌, push_back, append_assoc, append-nil,
  if◌then◌else◌,
}
use green_turtle.BlockingQueue.{push, pop_all}

-- A call by any thread; `Pop` is into a vector that may hold values.
pub data Access {ℓ} (A : Type ℓ) : Type ℓ where
  pushes : A → Access A
  pops : List A → Access A

module _ {ℓ} {A : Type ℓ} where
  -- What `Pop` handed over: the vector, where it returned true.
  abbrev pub taken_by : Bool × List A × List A → List A
  taken_by r = if r.0 then r.1 else []

  -- The values that were handed over, and the queue.
  unfoldable pub run : List A → List (Access A) → List A × List A
  run queue [] = ([], queue)
  run queue (pushes v ∷ rest) = run (push queue v).1 rest
  run queue (pops v ∷ rest) =
      let popped = pop_all queue v in let r = run popped.2 rest in (taken_by popped ++ r.0, r.1)

  abbrev pub pushed : List (Access A) → List A
  pushed [] = []
  pushed (pushes v ∷ rest) = v ∷ pushed rest
  pushed (pops v ∷ rest) = pushed rest

  pop_all_split : (queue v : List A) → taken_by (pop_all queue v) ++ (pop_all queue v).2 ≡ queue
  unfolding pop_all
  pop_all_split [] v = refl
  pop_all_split (x ∷ queue) v = append-nil (x ∷ queue)

  -- The values that were handed over, followed by those still in the queue, are those that were in
  -- it followed by the pushed ones, in order: none is lost, doubled or overtaken, whatever the
  -- vectors held that the values were handed over in.
  pub nothing_lost :
      (accesses : List (Access A)) (queue : List A)
      → (run queue accesses).0 ++ (run queue accesses).1 ≡ queue ++ pushed accesses
  unfolding run push
  nothing_lost [] queue = sym (append-nil queue)
  nothing_lost (pushes v ∷ rest) queue =
      nothing_lost rest (push_back queue v) ∙ append_assoc queue (v ∷ []) (pushed rest)
  nothing_lost (pops v ∷ rest) queue =
      let popped = pop_all queue v in
      append_assoc (taken_by popped) (run popped.2 rest).0 (run popped.2 rest).1
      ∙ ap (λ l. taken_by popped ++ l) (nothing_lost rest popped.2)
      ∙ sym (append_assoc (taken_by popped) popped.2 (pushed rest))
      ∙ ap (λ l. l ++ pushed rest) (pop_all_split queue v)
