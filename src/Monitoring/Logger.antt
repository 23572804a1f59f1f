-- ===== src/Monitoring/Logger.antt =====
-- packages/core/src/logging/Logger.ts: where an entry goes. Its time stamp is left out.
pub mod Entries
use queueway.Base.{
  Bool, true, false, not, ◌&&◌, String, Option, none, some, List, [], ◌∷◌, ◌++◌, if◌then◌else◌,
}
use queueway.Types.{or_else}
use queueway.Config.{LogLevel, info, should_log}

pub record LoggerOptions : Type 0 where
  pub level : Option LogLevel
  pub log_file_path : Option String
  pub console : Option Bool

pub record Entry : Type 0 where
  pub level : LogLevel
  pub message : String
  pub metadata : Option String

-- `stream` is whether the file is open; `file` and `console` are what was written, oldest first.
pub record Logger : Type 0 where
  pub level : LogLevel
  pub log_file_path : String
  pub to_console : Bool
  pub stream : Bool
  pub file : List Entry
  pub console : List Entry

-- `openStream`, by whether the directory and the file can be made.
unfoldable pub open_stream : (opens : Bool) → Logger → Logger
open_stream opens l = record l { stream = opens }

-- What the constructor reads of the environment: the variables, whether Jest runs it, and the path
-- that it takes else.
pub record Surroundings : Type 0 where
  pub log_level : Option LogLevel
  pub log_path : Option String
  pub under_jest : Bool
  pub default_path : String

abbrev first_of : {A : Type 0} → Option A → Option A → A → A
first_of none b d = or_else b d
first_of (some a) b d = a

unfoldable pub new_logger : Surroundings → (opens : Bool) → LoggerOptions → Logger
new_logger env opens options =
    let l : Logger = record {
      level = first_of options.level env.log_level info;
      to_console = or_else options.console true;
      log_file_path = first_of options.log_file_path env.log_path env.default_path;
      stream = false;
      file = [];
      console = [];
    } in
    if env.under_jest then l else open_stream opens l

-- The listener of the stream's errors.
unfoldable pub stream_error : Logger → Logger
stream_error l = record l { stream = false }

-- Whether the two places take an entry; one that throws is ignored.
pub record Sinks : Type 0 where
  pub file_takes : Bool
  pub console_takes : Bool

abbrev pub write_file : Bool → Entry → Logger → Logger
write_file takes e l = if l.stream && takes then record l { file = l.file ++ e ∷ [] } else l

abbrev pub write_console : Bool → Entry → Logger → Logger
write_console takes e l =
    if l.to_console && takes then record l { console = l.console ++ e ∷ [] } else l

unfoldable pub write : Sinks → Entry → Logger → Logger
write sinks e l =
    if not (should_log l.level e.level)
    then l
    else write_console sinks.console_takes e (write_file sinks.file_takes e l)
