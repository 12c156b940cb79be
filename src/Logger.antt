-- ===== src/Logger.antt =====
-- backend/TCP/include/Logger.hpp (backend/WEBSOCKET/include has a copy): the one logger of a process,
-- its priority and its file. What the C and C++ libraries format is a parameter, the time an argument in
-- milliseconds; each call runs under the lock.
pub mod Levels
pub mod Filter
use full_stack_shinfeld.Common.{
  ℕ, ◌-◌, ◌/◌, ◌%◌, ◌++◌, Bool, true, false, List, [], ◌∷◌, ltb, length, is_empty, take,
  if◌then◌else◌,
}
use full_stack_shinfeld.Text.{codes}

pub data LogLevel : Type 0 where
  trace debug info warning error critical : LogLevel

-- The number of the enumerator.
unfoldable pub level_num : LogLevel → ℕ
level_num LogLevel.trace = 0
level_num LogLevel.debug = 1
level_num LogLevel.info = 2
level_num LogLevel.warning = 3
level_num LogLevel.error = 4
level_num LogLevel.critical = 5

unfoldable pub level_to_str : LogLevel → List ℕ
level_to_str LogLevel.trace = codes "TRACE"
level_to_str LogLevel.debug = codes "DEBUG"
level_to_str LogLevel.info = codes "INFO"
level_to_str LogLevel.warning = codes "WARNING"
level_to_str LogLevel.error = codes "ERROR"
level_to_str LogLevel.critical = codes "CRITICAL"

-- `put_time` of a format and a time in seconds, a number in decimal digits, and all that `snprintf`
-- makes of a format and its arguments.
pub record Formatting (A : Type 0) : Type 0 where
  pub put_time : List ℕ → ℕ → List ℕ
  pub decimal : ℕ → List ℕ
  pub format : List ℕ → List A → List ℕ

-- What was written goes with the name of the file, which is opened to append.
pub record Logger : Type 0 where
  pub priority : LogLevel
  pub filename : List ℕ
  pub is_open : Bool
  pub written : List (List ℕ × List ℕ)

-- `char buffer[1024]`, of which the last byte is the end of the string.
abbrev pub message_size : ℕ
message_size = 1023

unfoldable pub new_logger : Logger
new_logger = record { priority = LogLevel.trace; filename = []; is_open = false; written = [] }

unfoldable pub set_priority : Logger → LogLevel → Logger
set_priority logger priority = record logger { priority = priority }

unfoldable pub close_file : Logger → Logger
close_file logger = if logger.is_open then record logger { is_open = false } else logger

-- The logger, and whether the file could be opened, as the argument says; if not, an exception leaves.
unfoldable pub open_file : Bool → Logger → Logger × Bool
open_file succeeds logger = (record (close_file logger) { is_open = succeeds }, succeeds)

-- `setw(3)` with `setfill('0')`.
unfoldable pub fill_three : List ℕ → List ℕ
fill_three [] = codes "000"
fill_three (a ∷ []) = codes "00" ++ a ∷ []
fill_three (a ∷ b ∷ []) = codes "0" ++ a ∷ b ∷ []
fill_three digits = digits

-- The file gets the text, if it is open.
unfoldable pub write : Logger → List ℕ → Logger
write logger text =
    if logger.is_open
    then record logger { written = logger.written ++ (logger.filename, text) ∷ [] }
    else logger

module _ {A : Type 0} (F : Formatting A) where
  unfoldable pub timestamp : ℕ → List ℕ
  timestamp now =
      F.put_time (codes "%Y-%m-%d %H:%M:%S") (now / 1000)
      ++ codes "."
      ++ fill_three (F.decimal (now % 1000))

  unfoldable pub generate_log_file_name : List ℕ → ℕ → List ℕ
  generate_log_file_name prefix now =
      codes "logs/"
      ++ prefix
      ++ codes "_"
      ++ F.put_time (codes "%y%m%d_%H%M%S") (now / 1000)
      ++ codes ".log"

  unfoldable pub enable_file_output : Bool → ℕ → Logger → List ℕ → Logger × Bool
  enable_file_output succeeds now logger name = open_file succeeds (record logger {
    filename = if is_empty name then generate_log_file_name (codes "app") now else name;
  })

  -- The message alone is copied; with arguments it is a format.
  unfoldable pub message_text : List ℕ → List A → List ℕ
  message_text msg [] = take message_size msg
  message_text msg (a ∷ args) = take message_size (F.format msg (a ∷ args))

  unfoldable pub line_src : ℕ → ℕ → List ℕ → LogLevel → List ℕ → List A → List ℕ
  line_src now line source_file level msg args =
      timestamp now
      ++ codes " ["
      ++ level_to_str level
      ++ codes "] ("
      ++ source_file
      ++ codes ":"
      ++ F.decimal line
      ++ codes ") "
      ++ message_text msg args
      ++ codes "\n"

  unfoldable pub line_plain : ℕ → LogLevel → List ℕ → List A → List ℕ
  line_plain now level msg args =
      timestamp now
      ++ codes " ["
      ++ level_to_str level
      ++ codes "] "
      ++ message_text msg args
      ++ codes "\n"

  -- The two overloads of `log`.
  unfoldable pub log_src : ℕ → Logger → ℕ → List ℕ → LogLevel → List ℕ → List A → Logger
  log_src now logger line source_file level msg args =
      if ltb (level_num level) (level_num logger.priority)
      then logger
      else write logger (line_src now line source_file level msg args)

  unfoldable pub log_plain : ℕ → Logger → LogLevel → List ℕ → List A → Logger
  log_plain now logger level msg args =
      if ltb (level_num level) (level_num logger.priority)
      then logger
      else write logger (line_plain now level msg args)
