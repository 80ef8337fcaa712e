-- ===== src/Net/Message/Members.antt =====
-- What is appended to a MessageBuffer of message.h, and the pointers into it.
use green_turtle.Base.{
  ℕ, ◌+◌, ◌%◌, ◌^◌, ◌≤◌, ◌<◌, ◌≡◌, refl, sym, ap, ◌∙◌, true, Option, none, some, List, [], ◌∷◌,
  ◌++◌, append_assoc, append-nil, arith, length, drop, replicate, length-append, length-replicate,
  take-append_left, drop-append_left, drop-drop, take_all, some_inj, inl, inr, Option-cases, le→leb,
  lt→leb,
}
use green_turtle.Net.Message.{
  MemberPtr, is_inside, member_get, member_set, make_space, append_space, append_value,
  append_bytes, append_string, c_text, append_text, Call, space, value, bytes, text, call, call_all,
}

-- What a call appends; a text ends at its first zero.
unfoldable pub appended : Call → Option (List ℕ)
appended (space n) = some (replicate n 0)
appended (value v) = some v
appended (bytes s) = some s
appended (text str) = c_text str

unfoldable pub all_appended : List Call → Option (List ℕ)
all_appended [] = some []
all_appended (c ∷ cs) = elim (appended c) [
  | none ↦ none
  | some b ↦ elim (all_appended cs) [ none ↦ none | some bs ↦ some (b ++ bs) ]
]

-- A pointer to `old`, between `before` and `after`.
module _ (before old after : List ℕ) (short : length before < 2 ^ 31) where
  abbrev here : MemberPtr
  here = record { offset = length before % 2 ^ 32; size = length old }

  at : length before % 2 ^ 32 ≡ length before
  at = omega arith

  here_inside : is_inside here (before ++ (old ++ after)) ≡ true
  unfolding is_inside
  here_inside =
      let size : length before % 2 ^ 32 + length old ≤ length (before ++ (old ++ after)) =
        omega (arith, length-append before (old ++ after), length-append old after) in
      rw (lt→leb (2 ^ 31) (length before % 2 ^ 32) (omega arith))
        (le→leb (length before % 2 ^ 32 + length old) (length (before ++ (old ++ after))) size)

  pub get_here : member_get here (before ++ (old ++ after)) ≡ some old
  unfolding member_get
  get_here =
      rw (here_inside, member_get)
        (ap some (rw (at, drop-append_left before (old ++ after)) (take-append_left old after)))

  pub set_here :
      (v : List ℕ) → member_set here v (before ++ (old ++ after)) ≡ some (before ++ (v ++ after))
  unfolding member_set
  set_here v =
      let rest : drop (length before + length old) (before ++ (old ++ after)) ≡ after =
        sym (drop-drop (length old) (length before) (before ++ (old ++ after)))
        ∙ ap (drop (length old)) (drop-append_left before (old ++ after))
        ∙ drop-append_left old after in
      rw (here_inside, member_set)
        (ap some (rw (at, take-append_left before (old ++ after), rest) refl))

append_value_lem :
    (v buffer : List ℕ) → length buffer < 2 ^ 31 → append_value v buffer ≡ some (buffer ++ v)
unfolding append_value make_space
append_value_lem v buffer short =
    let zeros = replicate (length v) 0 in
    let size = length-replicate {A = ℕ} (length v) 0 in
    let set = set_here buffer zeros [] short v in rw (append-nil zeros, append-nil v, size) at set

append_string_lem :
    (s buffer : List ℕ) → length s < 2 ^ 31 → append_string s buffer ≡ some (buffer ++ s)
unfolding append_string append_bytes
append_string_lem s buffer short =
    let size : length s % 2 ^ 32 ≡ length s = omega arith in
    rw
      (
        size,
        lt→leb (2 ^ 31) (length s) short,
        le→leb (length s) (length s) (omega arith),
        take_all (length s) s (omega arith),
      )
      refl

call_lem :
    (c : Call) (buffer : List ℕ) {b : List ℕ}
    → appended c ≡ some b
    → length buffer + length b < 2 ^ 31
    → call c buffer ≡ some (buffer ++ b)
unfolding call append_space make_space append_text appended
call_lem (space n) buffer e short = ap (λ x. some (buffer ++ x)) (some_inj e)
call_lem (value v) buffer e short =
    append_value_lem v buffer (omega arith) ∙ ap (λ x. some (buffer ++ x)) (some_inj e)
call_lem (bytes s) buffer e short =
    append_string_lem s buffer (omega (arith, ap length (some_inj e)))
    ∙ ap (λ x. some (buffer ++ x)) (some_inj e)
call_lem (text str) buffer {b} e short =
    let e' : c_text str ≡ some b = e in rw (e', append_text) refl

-- Calls one after the other put what they append one after the other, as long as the string stays
-- below 2^31 bytes and every text has its zero.
pub call_all_lem :
    (cs : List Call) (buffer : List ℕ) {bs : List ℕ}
    → all_appended cs ≡ some bs
    → length buffer + length bs < 2 ^ 31
    → call_all cs buffer ≡ some (buffer ++ bs)
unfolding call_all all_appended
call_all_lem [] buffer e short =
    ap some (sym (append-nil buffer)) ∙ ap (λ x. some (buffer ++ x)) (some_inj e)
call_all_lem (c ∷ cs) buffer {bs} e short = elim (Option-cases (appended c)) [
  | inl bad ↦ let e' = rw (bad, all_appended) at e in cc
  | inr (b, fine) ↦ elim (Option-cases (all_appended cs)) [
    | inl bad ↦ let e' = rw (fine, bad, all_appended) at e in cc
    | inr (more, rest) ↦
        let sum : b ++ more ≡ bs = some_inj (rw (fine, rest, all_appended) at e) in
        let size = length-append b more in
        let total : length (b ++ more) ≡ length bs = ap length sum in
        let one = call_lem c buffer fine (omega arith) in
        let grown = length-append buffer b in
        rw (one, call_all)
          (call_all_lem cs (buffer ++ b) rest (omega arith)
            ∙ ap some (append_assoc buffer b more ∙ ap (λ x. buffer ++ x) sum))
  ]
]

-- Space for a value is zeros at first. Whatever is appended after it, up to 2^31 bytes, the pointer
-- that was given for it stays good: a value that is stored through it is read back, and no other
-- byte changes.
pub member_lem :
    (buffer : List ℕ) (n : ℕ) (cs : List Call) (bs v : List ℕ)
    → all_appended cs ≡ some bs
    → length v ≡ n
    → length buffer + n + length bs < 2 ^ 31
    → let (p, b) = append_space n buffer in
      (member_get p b ≡ some (replicate n 0))
      × (call_all cs b ≡ some (buffer ++ (replicate n 0 ++ bs)))
      × (member_set p v (buffer ++ (replicate n 0 ++ bs)) ≡ some (buffer ++ (v ++ bs)))
      × (member_get p (buffer ++ (v ++ bs)) ≡ some v)
unfolding append_space make_space
member_lem buffer n cs bs v e size short =
    let zeros : List ℕ = replicate n 0 in
    let width : length zeros ≡ n = length-replicate {A = ℕ} n 0 in
    let grown = length-append buffer zeros in
    let small : length buffer < 2 ^ 31 = omega arith in
    let first = get_here buffer zeros [] small in
    let stored = set_here buffer zeros bs small v in
    let read = get_here buffer v bs small in
    (
      rw (append-nil zeros, width) at first,
      call_all_lem cs (buffer ++ zeros) e (omega arith) ∙ ap some (append_assoc buffer zeros bs),
      rw width at stored,
      rw size at read,
    )
