-- ===== src/Net/Message/Tests.antt =====
-- A string of three bytes.
use green_turtle.Base.{ℕ, ◌≡◌, refl, some, List, [], ◌∷◌, ◌++◌, arith, replicate}
use green_turtle.Net.Message.{
  member_get, member_set, append_space, c_text, Call, space, value, bytes, text, call_all,
}
use green_turtle.Net.Message.Members.{appended, all_appended, call_all_lem, member_lem}

abbrev three : List ℕ
three = 7 ∷ 8 ∷ 9 ∷ []

abbrev calls : List Call
calls = value (1 ∷ 2 ∷ []) ∷ text (65 ∷ 66 ∷ 0 ∷ 67 ∷ []) ∷ bytes (0 ∷ 5 ∷ []) ∷ space 2 ∷ []

abbrev written : List ℕ
written = 1 ∷ 2 ∷ 65 ∷ 66 ∷ 0 ∷ 5 ∷ 0 ∷ 0 ∷ []

all_written : call_all calls three ≡ some (three ++ written)
unfolding c_text appended all_appended
all_written = call_all_lem calls three refl (omega arith)

member_lem_example :
    let (p, b) = append_space 2 three in
    (member_get p b ≡ some (replicate 2 0))
    × (call_all calls b ≡ some (three ++ (replicate 2 0 ++ written)))
    × (member_set p (3 ∷ 4 ∷ []) (three ++ (replicate 2 0 ++ written))
        ≡ some (three ++ ((3 ∷ 4 ∷ []) ++ written)))
    × (member_get p (three ++ ((3 ∷ 4 ∷ []) ++ written)) ≡ some (3 ∷ 4 ∷ []))
unfolding c_text appended all_appended
member_lem_example = member_lem three 2 calls written (3 ∷ 4 ∷ []) refl refl (omega arith)
