-- ===== src/Logger/Entries.antt =====
-- The buffers of `Log` and of `FormatMessage` in logger.{h,cc}: which entries fit.
use green_turtle.Base.{
  false, ℕ, zero, suc, ◌+◌, ◌-◌, ◌^◌, ◌<◌, ◌≤◌, ◌≡◌, refl, ap, List, [], ◌∷◌, ◌++◌, arith, length,
  length-append, append_assoc, ltb, leb, ◌==◌, if◌then◌else◌, lt→ltb, le→ltb, le→leb, lt→leb,
  Bool-cases, inl, inr, sub64, ==_iff, ne_of_==,
}
use green_turtle.Format.{Piece}
use green_turtle.Format.Pieces.{texts, format_lem}
use green_turtle.Logger.{
  Level, rank, skipped, past_end, entry, log_entry_max_length, log, printed, format_message,
}

-- Pieces that fit in the buffer of `Log` together, and are not empty, become an entry with the
-- header and the end of the line; but where they fill the buffer, the end of the line is put past
-- its end.
pub log_lem :
    (header : List ℕ) (pieces : List Piece)
    → length header ≤ log_entry_max_length
    → length (texts pieces) ≤ log_entry_max_length - length header
    → 0 < length (texts pieces)
    → log header pieces ≡ (
        if length header + length (texts pieces) == log_entry_max_length
        then past_end log_entry_max_length
        else entry (header ++ (texts pieces ++ (10 ∷ []))))
unfolding log
log_lem header pieces inside fits some_text =
    let line = format_lem pieces header (log_entry_max_length - length header) fits in
    let size = length-append header (texts pieces) in
    let longer : leb (length (header ++ texts pieces)) (length header) ≡ false =
      lt→leb _ _ (omega arith) in
    elim (Bool-cases (length header + length (texts pieces) == log_entry_max_length)) [
      | inl full ↦
          let e : length header + length (texts pieces) ≡ log_entry_max_length =
            (==_iff _ _).0 full in
          rw (line, log)
            (rw longer (
              rw (le→ltb (length (header ++ texts pieces)) log_entry_max_length (omega arith), full)
                (ap past_end (omega arith))))
      | inr free ↦
          let ne = ne_of_== free in
          rw (line, log)
            (rw longer (
              rw (lt→ltb (length (header ++ texts pieces)) log_entry_max_length (omega arith), free)
                (ap entry (append_assoc header (texts pieces) (10 ∷ [])))))
    ]

printed_fits :
    (text : List ℕ) (room : ℕ) (stale : ℕ → ℕ)
    → length text < room
    → printed text room (length text) stale ≡ text
printed_fits [] room stale fits = refl
printed_fits (c ∷ text) zero stale fits = absurd (omega arith)
printed_fits (c ∷ text) (suc zero) stale fits = absurd (omega arith)
printed_fits (c ∷ text) (suc (suc room)) stale fits =
    ap (λ r. c ∷ r) (printed_fits text (suc room) stale (omega arith))

-- A message whose text `vsnprintf` can write becomes an entry, unless its level is below the
-- logger's.
pub format_message_fits :
    (log_level level : Level) (header prefix text : List ℕ) (stale : ℕ → ℕ)
    → length header + length prefix + length text + 2 < log_entry_max_length + 1
    → format_message log_level level header prefix text stale ≡ (
        if ltb (rank level) (rank log_level)
        then skipped
        else entry (header ++ (prefix ++ (text ++ (10 ∷ [])))))
unfolding format_message
format_message_fits log_level level header prefix text stale fits =
    let size = length header + length prefix in
    let room = sub64 (sub64 (log_entry_max_length + 1) size) 2 in
    elim (Bool-cases (ltb (rank level) (rank log_level))) [
      | inl low ↦ rw low refl
      | inr high ↦
          rw (high, le→leb size (log_entry_max_length + 1) (omega arith))
            (rw
              (
                lt→leb (2 ^ 31) room (omega arith),
                lt→ltb (size + length text) (log_entry_max_length + 1) (omega arith),
              )
              (rw (printed_fits text room stale (omega arith)) refl))
    ]
