-- ===== src/Logger/Header.antt =====
-- `GenerateLogHeader` of logger.cc: its length, and the number that its digits stand for.
use green_turtle.Base.{
  ℕ, ◌+◌, ◌*◌, ◌-◌, ◌%◌, ◌<◌, ◌≡◌, refl, ap, ◌∙◌, List, [], ◌∷◌, ◌++◌, arith, length, length-append,
  drop, drop-append_left,
}
use green_turtle.Logger.{
  Level, no_level, info, debug, trace, warn, error, fatal, level_text, milli_seconds_string,
  generate_log_header,
}

-- The three digits after the point.
abbrev pub decimal : List ℕ → ℕ
decimal [] = 0
decimal (c ∷ []) = 0
decimal (c ∷ d ∷ []) = 0
decimal (c ∷ d ∷ e ∷ []) = 0
decimal (point ∷ c ∷ d ∷ e ∷ rest) = (c - 48) * 100 + (d - 48) * 10 + (e - 48)

abbrev pub text_length : Level → ℕ
text_length no_level = 0
text_length level = 8

length-level_text : (level : Level) → length (level_text level) ≡ text_length level
length-level_text no_level = refl
length-level_text info = refl
length-level_text debug = refl
length-level_text trace = refl
length-level_text warn = refl
length-level_text error = refl
length-level_text fatal = refl

-- A header has five characters more than the time of day and the name of the level, and the digits
-- that follow the time of day stand for the milliseconds.
pub header_lem :
    (time_string : List ℕ) (millis : ℕ) (level : Level)
    → millis < 1000
    → let header = generate_log_header time_string millis level in
      (length header ≡ length time_string + 5 + text_length level)
      × (decimal (drop (length time_string) header) ≡ millis)
unfolding generate_log_header milli_seconds_string
header_lem time_string millis level small =
    let rest = milli_seconds_string (millis % 1024) ++ (32 ∷ level_text level) in
    (
      omega (arith, length-append {0} time_string rest, length-level_text level),
      ap decimal (drop-append_left time_string rest) ∙ omega arith,
    )
