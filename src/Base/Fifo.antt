-- ===== src/Base/Fifo.antt =====
-- Appending at the end.
use mathlib.Core.List.{List, [], ◌∷◌, ◌++◌}

module _ {ℓ} {A : Type ℓ} where
  abbrev pub push_back : List A → A → List A
  push_back xs x = xs ++ (x ∷ [])
