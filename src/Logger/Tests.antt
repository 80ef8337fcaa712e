-- ===== src/Logger/Tests.antt =====
-- Headers of six and of no characters, and texts that just fit, or do not.
use green_turtle.Base.{◌≡◌, refl, [], ◌∷◌, arith, none, some, replicate}
use green_turtle.Format.{number, string, format}
use green_turtle.Logger.{
  Logger, warn, debug, past_end, entry, log, generate_log_header, log_message, write,
  change_logger_file, create_link, base_name, open_log_file, level_text,
}
use green_turtle.Logger.Entries.{log_lem}

-- "7", the milliseconds 42, and WARN
header : generate_log_header (55 ∷ []) 42 warn ≡ 55 ∷ 46 ∷ 48 ∷ 52 ∷ 50 ∷ 32 ∷ level_text warn
unfolding generate_log_header
header = refl

log_lem_example :
    log (55 ∷ 32 ∷ []) (number (49 ∷ []) ∷ string (97 ∷ 98 ∷ []) ∷ [])
    ≡ entry (55 ∷ 32 ∷ 49 ∷ 97 ∷ 98 ∷ 10 ∷ [])
log_lem_example =
    log_lem (55 ∷ 32 ∷ []) (number (49 ∷ []) ∷ string (97 ∷ 98 ∷ []) ∷ []) (omega arith)
      (omega arith) (omega arith)

-- A text that fills the buffer.
log_full : log [] (string (replicate 4096 97) ∷ []) ≡ past_end 4096
unfolding log format
log_full = refl

abbrev logger : Logger
logger = record {
  file = open_log_file (some (1 ∷ []));
  backup_file = none;
  size = 0;
  log_level = debug;
  file_name = 97 ∷ [];
  link_name = 98 ∷ [];
}

-- What was in the file is not counted.
counted :
    log_message logger (7 ∷ 8 ∷ []) 2
    ≡ some (record logger { file = record { file = some (1 ∷ 7 ∷ 8 ∷ []); offset = 2 }; size = 2 })
unfolding log_message write open_log_file
counted = refl

moved :
    (change_logger_file logger (100 ∷ 47 ∷ 97 ∷ []) (open_log_file (some []))).1
    ≡ some (97 ∷ [], 98 ∷ [])
unfolding change_logger_file create_link base_name
moved = refl
