-- ===== src/Borg/Api.antt =====
-- borg-collective/internal/drone/borg/api/api.go: return codes, log messages and results of borg.
use borg_collective.Base.{
  ℕ, Bool, false, ◌||◌, Option, none, some, List, Bytes, codes, ◌==◌, eqb, if◌then◌else◌,
}
use borg_collective.Base.Exec.{Outcome}

-- A Go `int`; `negsuc n` is -(n + 1). The exit code of a process that a signal ended is -1.
pub data ℤ : Type 0 where
  pos negsuc : ℕ → ℤ

abbrev pub ReturnCode : Type 0
ReturnCode = ℤ

abbrev pub return_code_success : ℕ
return_code_success = 0

abbrev pub return_code_warning : ℕ
return_code_warning = 1

abbrev pub return_code_error : ℕ
return_code_error = 2

abbrev pub return_code_repository_exists : ℕ
return_code_repository_exists = 10

abbrev pub return_code_repository_does_not_exist : ℕ
return_code_repository_does_not_exist = 13

abbrev pub return_code_repository_is_invalid : ℕ
return_code_repository_is_invalid = 15

abbrev pub return_code_passcommand_failure : ℕ
return_code_passcommand_failure = 51

abbrev pub return_code_passphrase_wrong : ℕ
return_code_passphrase_wrong = 52

abbrev pub return_code_connection_closed : ℕ
return_code_connection_closed = 80

abbrev pub return_code_connection_closed_with_hint : ℕ
return_code_connection_closed_with_hint = 81

-- `IsRecoverable` of an error with the code.
unfoldable pub is_recoverable : ReturnCode → Bool
is_recoverable (negsuc n) = false
is_recoverable (pos n) =
    eqb n return_code_success
    || eqb n return_code_warning
    || eqb n return_code_repository_does_not_exist

-- The levels of zerolog that are used.
pub data Level : Type 0 where
  trace debug info warn error : Level

-- `F` is the type of the `float64` values, and a Go pointer to a value is an option.
pub record LogMessageArchiveProgress (F : Type 0) : Type 0 where
  pub original_size : Option ℤ
  pub compressed_size : Option ℤ
  pub deduplicated_size : Option ℤ
  pub nfiles : Option ℤ
  pub path : Option Bytes
  pub time : F
  pub finished : Bool

pub record LogMessageProgressMessage (F : Type 0) : Type 0 where
  pub operation : ℤ
  pub msgid : Option Bytes
  pub finished : Bool
  pub message : Option Bytes
  pub time : F

pub record LogMessageProgressPercent (F : Type 0) : Type 0 where
  pub operation : ℤ
  pub msgid : Option Bytes
  pub finished : Bool
  pub message : Option Bytes
  pub current : Option ℤ
  pub info : Option Bytes
  pub total : Option ℤ
  pub time : F

pub record LogMessageFileStatus : Type 0 where
  pub status : Bytes
  pub path : Bytes

pub record LogMessageLogMessage (F : Type 0) : Type 0 where
  pub time : F
  pub levelname : Bytes
  pub name : Bytes
  pub message : Bytes
  pub msgid : Option Bytes

-- A value of the interface `LogMessage`. Its dynamic type is a struct, or a pointer to one: of the
-- pointers only that to a `LogMessageLogMessage` is asked for.
pub data LogMessage (F : Type 0) : Type 0 where
  archive_progress : LogMessageArchiveProgress F → LogMessage F
  progress_message : LogMessageProgressMessage F → LogMessage F
  progress_percent : LogMessageProgressPercent F → LogMessage F
  file_status : LogMessageFileStatus → LogMessage F
  log_message log_message_pointer : LogMessageLogMessage F → LogMessage F

-- `Level` of a `LogMessageLogMessage`.
unfoldable pub level_of_name : Bytes → Level
level_of_name name =
    if name == codes "DEBUG"
    then trace
    else if name == codes "INFO"
    then debug
    else if name == codes "WARNING"
    then info
    else if name == codes "ERROR"
    then warn
    else if name == codes "CRITICAL"
    then error
    else trace

module _ {F : Type 0} where
  unfoldable pub level : LogMessage F → Level
  level (archive_progress m) = trace
  level (progress_message m) = trace
  level (progress_percent m) = trace
  level (file_status m) = trace
  level (log_message m) = level_of_name m.levelname
  level (log_message_pointer m) = level_of_name m.levelname

  unfoldable pub msg : LogMessage F → Option Bytes
  msg (archive_progress m) = none
  msg (progress_message m) = m.message
  msg (progress_percent m) = m.message
  msg (file_status m) = none
  msg (log_message m) = some m.message
  msg (log_message_pointer m) = some m.message

-- The errors of the client: a cancelled context, one of a library, `errors.Wrap` of `NewError`,
-- a code that is not known, and one with a text before it.
pub data Error : Type 0 where
  canceled : Error
  external : Bytes → Error
  borg_error : ReturnCode → Bytes → Error
  unknown_code : ReturnCode → Error
  wrapped : Bytes → Error → Error

-- What borg and Go's libraries do. `run` starts borg with the arguments, the environment and the
-- input, and waits for it; `json_…` is `json.Unmarshal` into the struct, `none` on an error.
pub data Completion : Type 0 where
  -- The exit code, and what was written to the outputs.
  exited : ReturnCode → Bytes → Bytes → Completion
  not_run : Bytes → Completion

pub record Borg : Type 1 where
  pub State : Type 0
  pub Float : Type 0
  pub Input : Type 0
  pub run : List Bytes → List Bytes → Option Input → State → Completion × State
  pub canceled : State → Bool
  pub json_archive_progress : Bytes → Option (LogMessageArchiveProgress Float)
  pub json_progress_message : Bytes → Option (LogMessageProgressMessage Float)
  pub json_progress_percent : Bytes → Option (LogMessageProgressPercent Float)
  pub json_file_status : Bytes → Option LogMessageFileStatus
  pub json_log_message : Bytes → Option (LogMessageLogMessage Float)
  pub InfoListOutput : Type 0
  pub no_info : InfoListOutput
  pub json_info : Bytes → Option InfoListOutput
  pub CreateOutput : Type 0
  pub no_stats : CreateOutput
  pub json_create : Bytes → Option CreateOutput
  pub version_output : State → Outcome Bytes Bytes
  pub Version : Type 0
  pub new_version : Bytes → Outcome Bytes Version
  -- Less than 1.2.5, and 2.0.0 or greater.
  pub is_below_min : Version → Bool
  pub is_from_upper : Version → Bool
