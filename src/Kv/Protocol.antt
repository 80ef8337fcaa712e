-- ===== src/Kv/Protocol.antt =====
-- kv/protocol.h: the head of a message, and how strings are read.
pub mod Strings
mod Tests
use green_turtle.Base.{
  ℕ, zero, suc, ◌+◌, ◌*◌, ◌/◌, ◌%◌, ◌^◌, Bool, Option, none, some, List, [], ◌∷◌, ◌++◌, ltb, leb,
  if◌then◌else◌, length, take, drop,
}

abbrev pub protocol_response : ℕ
protocol_response = 0x81

-- The opcodes.
abbrev pub cmd_version : ℕ
cmd_version = 1

abbrev pub cmd_noop : ℕ
cmd_noop = 2

abbrev pub cmd_error : ℕ
cmd_error = 3

abbrev pub cmd_get : ℕ
cmd_get = 4

abbrev pub cmd_set : ℕ
cmd_set = 5

abbrev pub cmd_del : ℕ
cmd_del = 6

abbrev pub cmd_append : ℕ
cmd_append = 7

abbrev pub cmd_inc : ℕ
cmd_inc = 8

abbrev pub cmd_dec : ℕ
cmd_dec = 9

abbrev pub cmd_flush : ℕ
cmd_flush = 10

-- `MessageHead`; its layout is packed, 12 bytes.
pub record MessageHead : Type 0 where
  pub length_field : ℕ
  pub magic : ℕ
  pub opcode : ℕ
  pub affinity : ℕ
  pub seq : ℕ

abbrev pub head_size : ℕ
head_size = 12

-- A little-endian number of two and of four bytes.
abbrev pub u16 : ℕ → ℕ → ℕ
u16 a b = a + 256 * b

abbrev pub u32 : ℕ → ℕ → ℕ → ℕ → ℕ
u32 a b c d = a + 256 * (b + 256 * (c + 256 * d))

-- `*reinterpret_cast<int32_t*>(ptr)` as its bit pattern; `none` is a read past the end.
unfoldable pub read_u32 : List ℕ → Option ℕ
read_u32 (a ∷ b ∷ c ∷ d ∷ rest) = some (u32 a b c d)
read_u32 _ = none

-- `reinterpret_cast<MessageHead*>(ptr)`
unfoldable pub read_head : List ℕ → Option MessageHead
read_head (a ∷ b ∷ c ∷ d ∷ m ∷ o ∷ f ∷ g ∷ s ∷ t ∷ u ∷ v ∷ rest) = some (record {
  length_field = u32 a b c d;
  magic = m;
  opcode = o;
  affinity = u16 f g;
  seq = u32 s t u v;
})
read_head _ = none

-- `Decode<int32_t>(ptr)`: `ptr += sizeof(value)` moves the parameter, and not what it points to.
unfoldable pub decode_int32 : List ℕ → Option (ℕ × List ℕ)
decode_int32 bytes = elim (read_u32 bytes) [ none ↦ none | some value ↦ some (value, bytes) ]

-- `Decode<std::string>(ptr)`; a negative length, and a read past the end, are `none`.
unfoldable pub decode_string : List ℕ → Option (List ℕ × List ℕ)
decode_string bytes = elim (decode_int32 bytes) [
  | none ↦ none
  | some r ↦
      if ltb r.0 (2 ^ 31)
      then if leb r.0 (length r.1) then some (take r.0 r.1, drop r.0 r.1) else none
      else none
]
