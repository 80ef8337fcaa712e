-- ===== src/Logger.antt =====
-- `Logger` and `LogFile` of green_turtle/logger.{h,cc} and log_file.{h,cc}: the header of an entry,
-- the buffer that an entry is put together in, and the file that it goes to.
pub mod Header
pub mod Entries
pub mod Links
mod Tests
use green_turtle.Base.{
  ℕ, zero, suc, ◌+◌, ◌-◌, ◌/◌, ◌%◌, ◌^◌, Bool, true, false, not, ◌&&◌, ◌||◌, Option, none, some,
  List, [], ◌∷◌, ◌++◌, ltb, leb, ◌==◌, if◌then◌else◌, length, take, sub64,
}
use green_turtle.Format.{Piece, format}

-- kLoggerLevel_None is -1, and the others are 0 to 5.
pub data Level : Type 0 where
  no_level info debug trace warn error fatal : Level

abbrev pub rank : Level → ℕ
rank no_level = 0
rank info = 1
rank debug = 2
rank trace = 3
rank warn = 4
rank error = 5
rank fatal = 6

-- LOGGER_LEVEL, without the zero at the end of each.
abbrev pub level_text : Level → List ℕ
level_text no_level = []
level_text info = 91 ∷ 73 ∷ 78 ∷ 70 ∷ 79 ∷ 32 ∷ 93 ∷ 32 ∷ []
level_text debug = 91 ∷ 68 ∷ 69 ∷ 66 ∷ 85 ∷ 71 ∷ 93 ∷ 32 ∷ []
level_text trace = 91 ∷ 84 ∷ 82 ∷ 65 ∷ 67 ∷ 69 ∷ 93 ∷ 32 ∷ []
level_text warn = 91 ∷ 87 ∷ 65 ∷ 82 ∷ 78 ∷ 32 ∷ 93 ∷ 32 ∷ []
level_text error = 91 ∷ 69 ∷ 82 ∷ 82 ∷ 79 ∷ 82 ∷ 93 ∷ 32 ∷ []
level_text fatal = 91 ∷ 70 ∷ 65 ∷ 84 ∷ 65 ∷ 76 ∷ 93 ∷ 32 ∷ []

-- A row of kMilliSecondsString.
unfoldable pub milli_seconds_string : ℕ → List ℕ
milli_seconds_string i =
    let base = i % 1000 in
    46 ∷ (48 + base / 100 % 10) ∷ (48 + base / 10 % 10) ∷ (48 + base % 10) ∷ []

-- `time_string` is the eight characters of the time of day, and `millis` the milliseconds.
unfoldable pub generate_log_header : List ℕ → ℕ → Level → List ℕ
unfolding milli_seconds_string
generate_log_header time_string millis level =
    time_string ++ (milli_seconds_string (millis % 1024) ++ (32 ∷ level_text level))

abbrev pub log_entry_max_length : ℕ
log_entry_max_length = 4096

-- The file, as the bytes that were written to it; `none` is one that could not be opened.
pub record LogFile : Type 0 where
  pub file : Option (List ℕ)
  pub offset : ℕ

-- What an entry comes to: nothing for its level, a failed assertion, a store at an index past the
-- end of the buffer, or bytes for the file.
pub data Entry : Type 0 where
  skipped assertion_failed : Entry
  past_end : ℕ → Entry
  entry : List ℕ → Entry

-- `Log`: the text is put after the header in a buffer of kLogEntryMaxLength, and `LogMessage` puts
-- the end of the line after it, where `Format` puts a zero.
unfoldable pub log : List ℕ → List Piece → Entry
log header pieces = elim (format header (log_entry_max_length - length header) pieces) [
  | none ↦ assertion_failed
  | some line ↦
      if leb (length line) (length header)
      then assertion_failed
      else if ltb (length line) log_entry_max_length
      then entry (line ++ (10 ∷ []))
      else past_end (length line)
]

-- What `vsnprintf` leaves in `room` bytes, as far as `count` bytes: the text that fits, a zero, and
-- then what was there.
abbrev pub printed : List ℕ → ℕ → ℕ → (ℕ → ℕ) → List ℕ
printed text room zero stale = []
printed [] room (suc count) stale = 0 ∷ printed [] room count stale
printed (c ∷ text) zero (suc count) stale = stale count ∷ printed text zero count stale
printed (c ∷ text) (suc zero) (suc count) stale = 0 ∷ printed text zero count stale
printed (c ∷ text) (suc (suc room)) (suc count) stale = c ∷ printed text (suc room) count stale

-- `FormatMessage`, in a buffer of one more: the prefix is copied whatever its length, and what
-- `vsnprintf` returns is the length of the text, not of what it left in the buffer. Where the room
-- wraps it is more than an int holds, and `vsnprintf` then gives -1 and writes nothing.
unfoldable pub format_message : Level → Level → List ℕ → List ℕ → List ℕ → (ℕ → ℕ) → Entry
format_message log_level level header prefix text stale =
    let size = length header + length prefix in
    let room = sub64 (sub64 (log_entry_max_length + 1) size) 2 in
    let total = size + length text in
    if ltb (rank level) (rank log_level)
    then skipped
    else if leb size (log_entry_max_length + 1)
    then if leb (2 ^ 31) room
      then entry (take (size - 1) (header ++ prefix) ++ (10 ∷ []))
      else if ltb total (log_entry_max_length + 1)
      then entry (header ++ (prefix ++ (printed text room (length text) stale ++ (10 ∷ []))))
      else past_end total
    else past_end size

-- `LogFile::Write`, where `accepted` is how many bytes the system takes of what it is given: the
-- file, and the result.
unfoldable pub write : LogFile → List ℕ → ℕ → LogFile × ℕ
write f bytes accepted = elim f.file [
  | none ↦ (f, 0)
  | some contents ↦
      let taken = take accepted bytes in
      (record { file = some (contents ++ taken); offset = f.offset + length taken }, length taken)
]

-- The constructor: `fseek` gives 0 where it succeeds, and that is taken for the offset.
unfoldable pub open_log_file : Option (List ℕ) → LogFile
open_log_file contents = record { file = contents; offset = 0 }

pub record Logger : Type 0 where
  pub file : LogFile
  pub backup_file : Option LogFile
  pub size : ℕ
  pub log_level : Level
  pub file_name : List ℕ
  pub link_name : List ℕ

-- `LogMessage`; a failed assertion is `none`.
unfoldable pub log_message : Logger → List ℕ → ℕ → Option Logger
log_message l bytes accepted =
    let r = write l.file bytes accepted in
    if r.1 == length bytes then some (record l { file = r.0; size = l.size + r.1 }) else none

abbrev pub equal_text : List ℕ → List ℕ → Bool
equal_text [] [] = true
equal_text [] (b ∷ bs) = false
equal_text (a ∷ as') [] = false
equal_text (a ∷ as') (b ∷ bs) = a == b && equal_text as' bs

-- `link.substr(pos + 1)` after the last slash, or the whole name.
unfoldable pub base_name : List ℕ → List ℕ → List ℕ
base_name found [] = found
base_name found (c ∷ cs) = base_name (if c == 47 then cs else found) cs

-- `CreateLink`: the target and the name of the link, where there is one to be made.
unfoldable pub create_link : List ℕ → List ℕ → Option (List ℕ × List ℕ)
create_link file_name link_name =
    if not (equal_text file_name link_name) && not (length link_name == 0)
    then some (base_name file_name file_name, link_name)
    else none

-- The constructor, where the system gives `opened`, and no name for the link is the empty one: the
-- logger, and the link that is made. A failed assertion is `none`.
unfoldable pub new_logger :
    List ℕ → List ℕ → Level → LogFile → Option (Logger × Option (List ℕ × List ℕ))
new_logger file_name link_name level opened =
    if leb (rank info) (rank level)
    then some (
      record {
        file = opened;
        backup_file = none;
        size = opened.offset;
        log_level = level;
        file_name = file_name;
        link_name = link_name;
      },
      create_link file_name link_name,
    )
    else none

unfoldable pub set_log_level : Logger → Level → Option Logger
set_log_level l level =
    if leb (rank info) (rank level) then some (record l { log_level = level }) else none

-- `ChangeLoggerFile`, where the system gives `opened`: the logger, and the link that is made.
unfoldable pub change_logger_file : Logger → List ℕ → LogFile → Logger × Option (List ℕ × List ℕ)
change_logger_file l new_file opened = if equal_text l.file_name new_file then (l, none) else (
  record l { file = opened; backup_file = some l.file; size = opened.offset; file_name = new_file },
  create_link new_file l.link_name,
)
