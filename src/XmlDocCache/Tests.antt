-- ===== src/XmlDocCache/Tests.antt =====
-- File 3 is cached with time 10; documents are numbers.
use green_turtle.Base.{ℕ, Bool, true, some, List, [], ◌∷◌}
use green_turtle.XmlDocCache.{XmlDocInfo}

abbrev parsed : ℕ → ℕ × ℕ
parsed file = (0, file)

abbrev now_twenty : ℕ → ℕ
now_twenty file = 20

abbrev accepts : ℕ → Bool
accepts file = true

abbrev cached : List (ℕ × XmlDocInfo ℕ)
cached = (3, record { shared_doc = some 7; modify_time = 10 }) ∷ []
