-- ===== src/Kv/Protocol/Tests.antt =====
-- The string "egmkang", and another one after it.
use green_turtle.Base.{ℕ, ◌≤◌, ◌≡◌, refl, some, List, [], ◌∷◌, ◌++◌, arith, length, take, drop}
use green_turtle.Kv.Protocol.{decode_string, decode_int32, read_u32}
use green_turtle.Kv.Protocol.Strings.{four_bytes, encoded, decode_string_lem}

abbrev name : List ℕ
name = 101 ∷ 103 ∷ 109 ∷ 107 ∷ 97 ∷ 110 ∷ 103 ∷ []

-- Its length, and the first three letters.
name_read :
    decode_string (encoded name)
    ≡ some (7 ∷ 0 ∷ 0 ∷ 0 ∷ 101 ∷ 103 ∷ 109 ∷ [], 107 ∷ 97 ∷ 110 ∷ 103 ∷ [])
unfolding decode_string decode_int32 read_u32
name_read = refl

decode_string_lem_example :
    let all = four_bytes 7 ++ (name ++ (1 ∷ [])) in
    (decode_string all ≡ some (take 7 all, drop 7 all))
    × (4 ≤ length name → take 4 (take 7 all) ≡ four_bytes 7)
decode_string_lem_example = decode_string_lem name (1 ∷ []) (omega arith)
