-- ===== src/Buffer/Tests.antt =====
-- A buffer of eight bytes with three to read.
use green_turtle.Base.{◌≡◌, refl, none, some, [], ◌∷◌, ◌++◌, map, arith}
use green_turtle.Buffer.{Buffer, has_read, append, retrieve}
use green_turtle.Buffer.Bytes.{IsValid, contents, append_lem, retrieve_lem}

abbrev held : Buffer
held = record {
  array = none ∷ some 1 ∷ some 2 ∷ some 3 ∷ none ∷ none ∷ none ∷ none ∷ [];
  write = 4;
  read = 1;
  size = 8;
}

held-IsValid : IsValid held
held-IsValid = record {
  allocated = refl;
  ordered = omega arith;
  inside = omega arith;
  small = omega arith;
}

append_lem_example :
    (c : Buffer) × (append held (4 ∷ 5 ∷ 6 ∷ 7 ∷ 8 ∷ []) ≡ some (5, c))
    × IsValid c
    × (contents c ≡ contents held ++ map some (4 ∷ 5 ∷ 6 ∷ 7 ∷ 8 ∷ []))
    × (c.read ≡ 1)
    × (c.write ≡ 9)
append_lem_example = append_lem held (4 ∷ 5 ∷ 6 ∷ 7 ∷ 8 ∷ []) held-IsValid (omega arith)

retrieve_lem_example :
    (c : Buffer) × (retrieve held ≡ some c)
    × IsValid c
    × (contents c ≡ contents held)
    × (c.read ≡ 0)
    × (c.write ≡ 3)
    × (c.size ≡ 8)
retrieve_lem_example = retrieve_lem held held-IsValid

-- The last byte of the three is left.
left : contents (has_read held 2) ≡ some 3 ∷ []
unfolding has_read
left = refl
