-- ===== src/Net/Message.antt =====
-- `MessageBuffer` and `MemberPtr` of green_turtle/net/message.h: a string of bytes that grows, and
-- pointers to values in it. An `int` is its bit pattern; a value is its bytes; an access outside of
-- the string is `none`.
pub mod Members
mod Tests
use green_turtle.Base.{
  ℕ, zero, suc, ◌+◌, ◌%◌, ◌^◌, Bool, true, false, ◌&&◌, Option, none, some, List, [], ◌∷◌, ◌++◌,
  ltb, leb, if◌then◌else◌, length, take, drop, replicate,
}

abbrev pub to_int : ℕ → ℕ
to_int n = n % 2 ^ 32

abbrev pub is_negative : ℕ → Bool
is_negative i = leb (2 ^ 31) i

pub record MemberPtr : Type 0 where
  pub offset : ℕ
  pub size : ℕ

-- Whether the bytes at the pointer are in the string.
unfoldable pub is_inside : MemberPtr → List ℕ → Bool
is_inside p buffer = if is_negative p.offset then false else leb (p.offset + p.size) (length buffer)

-- `*get()`, read and written.
unfoldable pub member_get : MemberPtr → List ℕ → Option (List ℕ)
member_get p buffer = if is_inside p buffer then some (take p.size (drop p.offset buffer)) else none

unfoldable pub member_set : MemberPtr → List ℕ → List ℕ → Option (List ℕ)
member_set p v buffer =
    if is_inside p buffer
    then some (take p.offset buffer ++ (v ++ drop (p.offset + p.size) buffer))
    else none

unfoldable pub make_space : ℕ → List ℕ → ℕ × List ℕ
make_space size buffer = (to_int (length buffer), buffer ++ replicate size 0)

-- `Append<T>()`, for a type of `size` bytes
unfoldable pub append_space : ℕ → List ℕ → MemberPtr × List ℕ
append_space size buffer =
    let (offset, b) = make_space size buffer in (record { offset = offset; size = size }, b)

-- `Append<T>(const T&)`
unfoldable pub append_value : List ℕ → List ℕ → Option (List ℕ)
append_value v buffer =
    let (offset, b) = make_space (length v) buffer in
    member_set (record { offset = offset; size = length v }) v b

-- `Append(const void*, int)`: a negative size is too large for a string.
unfoldable pub append_bytes : List ℕ → ℕ → List ℕ → Option (List ℕ)
append_bytes bytes size buffer =
    if is_negative size
    then none
    else if leb size (length bytes)
    then some (buffer ++ take size bytes)
    else none

-- `Append(std::string&&)`
unfoldable pub append_string : List ℕ → List ℕ → Option (List ℕ)
append_string s buffer = append_bytes s (to_int (length s)) buffer

-- The bytes before the first zero; `none` if there is none.
unfoldable pub c_text : List ℕ → Option (List ℕ)
c_text [] = none
c_text (zero ∷ cs) = some []
c_text (suc c ∷ cs) = elim (c_text cs) [ none ↦ none | some t ↦ some (suc c ∷ t) ]

-- `Append(const char*)`
unfoldable pub append_text : List ℕ → List ℕ → Option (List ℕ)
append_text str buffer = elim (c_text str) [ none ↦ none | some t ↦ some (buffer ++ t) ]

-- A call of one of them.
pub data Call : Type 0 where
  space : ℕ → Call
  value bytes text : List ℕ → Call

unfoldable pub call : Call → List ℕ → Option (List ℕ)
call (space n) buffer = some (append_space n buffer).1
call (value v) buffer = append_value v buffer
call (bytes s) buffer = append_string s buffer
call (text str) buffer = append_text str buffer

unfoldable pub call_all : List Call → List ℕ → Option (List ℕ)
call_all [] buffer = some buffer
call_all (c ∷ cs) buffer = elim (call c buffer) [ none ↦ none | some b ↦ call_all cs b ]
