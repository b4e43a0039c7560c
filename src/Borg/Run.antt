-- ===== src/Borg/Run.antt =====
-- borg-collective/internal/drone/borg/api/run.go: a run of borg, its log lines and its return code.
use borg_collective.Base.{
  ℕ, zero, suc, Bool, ◌||◌, ◌&&◌, Option, none, some, List, [], ◌∷◌, ◌++◌, Bytes, codes, ◌==◌, eqb,
  if◌then◌else◌, has_prefix, contains_byte,
}
use borg_collective.Base.Exec.{Outcome, ok, err, panic, fatal, Exec, pure, raise, ◌>>◌}
use borg_collective.Base.Assoc.{Assoc, lookup, erase}
use borg_collective.Borg.Api.{
  ReturnCode, pos, negsuc, Level, LogMessage, archive_progress, progress_message, progress_percent,
  file_status, log_message, log_message_pointer, LogMessageLogMessage, level, msg, Error, canceled,
  external, borg_error, unknown_code, Completion, exited, not_run, Borg,
}

-- `bytes.Index(line, search) > -1`
unfoldable pub contains : Bytes → Bytes → Bool
contains [] search = search == []
contains (c ∷ line) search = has_prefix (c ∷ line) search || contains line search

abbrev pub search_for : Bytes → Bytes
search_for name = codes "type\": \"" ++ name

-- The line up to a newline and what follows it, or, without a newline, the whole twice: the code
-- then leaves `stderr` as it is.
unfoldable pub cut_line : Bytes → Bytes × Bytes
cut_line [] = ([], [])
cut_line (c ∷ stderr) =
    let (line, rest) = cut_line stderr in
    if eqb c 10
    then ([], stderr)
    else if contains_byte 10 stderr
    then (c ∷ line, rest)
    else (c ∷ stderr, c ∷ stderr)

-- The key of an entry of an environment: `strings.SplitN(keyVal, "=", 2)[0]`.
unfoldable pub key_of : Bytes → Bytes
key_of [] = []
key_of (c ∷ entry) = let rest = key_of entry in if eqb c b'=' then [] else c ∷ rest

-- The first loop over an environment, which takes over the values that are given.
unfoldable pub override_env : List Bytes → Assoc Bytes → List Bytes × Assoc Bytes
override_env [] env = ([], env)
override_env (key_val ∷ entries) env = elim (lookup (key_of key_val) env) [
  | none ↦ let (rest, left) = override_env entries env in (key_val ∷ rest, left)
  | some value ↦
      let (rest, left) = override_env entries (erase (key_of key_val) env) in
      ((key_of key_val ++ b'=' ∷ value) ∷ rest, left)
]

-- The second loop.
unfoldable pub env_entries : Assoc Bytes → List Bytes
env_entries [] = []
env_entries ((key, value) ∷ env) = (key ++ b'=' ∷ value) ∷ env_entries env

-- The environment of the command: `cmd.Env` of a new `exec.Cmd` is nil.
unfoldable pub final_env : Assoc Bytes → List Bytes
final_env env = let (kept, added) = override_env [] env in kept ++ env_entries added

module _ ⦃B : Borg⦄ where
  abbrev some_message :
      {T : Type 0} → (T → LogMessage B.Float) → Option T → Option (LogMessage B.Float)
  some_message f none = none
  some_message f (some m) = some (f m)

  -- The message of a line; none for an unknown type, or for text that is no JSON of its type.
  unfoldable pub parse_line : Bytes → Option (LogMessage B.Float)
  parse_line line =
      if contains line (search_for (codes "archive_progress"))
      then some_message archive_progress (B.json_archive_progress line)
      else if contains line (search_for (codes "log_message"))
      then some_message log_message (B.json_log_message line)
      else if contains line (search_for (codes "file_status"))
      then some_message file_status (B.json_file_status line)
      else if contains line (search_for (codes "progress_message"))
      then some_message progress_message (B.json_progress_message line)
      else if contains line (search_for (codes "progress_percent"))
      then some_message progress_percent (B.json_progress_percent line)
      else none

  abbrev pub add_line : Bytes → List (LogMessage B.Float) → List (LogMessage B.Float)
  add_line [] result = result
  add_line (c ∷ line) result = elim (parse_line (c ∷ line)) [
    | none ↦ result
    | some m ↦ result ++ m ∷ []
  ]

  -- The loop; `none` means that the fuel ran out.
  unfoldable pub parse_log_lines :
      ℕ → Bytes → List (LogMessage B.Float) → Option (List (LogMessage B.Float))
  parse_log_lines zero stderr result = none
  parse_log_lines (suc fuel) [] result = some result
  parse_log_lines (suc fuel) (c ∷ stderr) result =
      let (line, rest) = cut_line (c ∷ stderr) in parse_log_lines fuel rest (add_line line result)

  -- The state of borg, and the messages that were logged, the newest first.
  pub record World : Type 0 where
    pub borg : B.State
    pub logged : List (Level × Bytes)

  abbrev pub M : Type 0 → Type 0
  M A = Exec Error World A

  -- A call of borg; a loop over its log lines that does not end is `fatal`.
  abbrev pub log_lines : Bytes → ℕ → Outcome Error (List (LogMessage B.Float))
  log_lines stderr fuel = elim (parse_log_lines fuel stderr []) [ none ↦ fatal | some ll ↦ ok ll ]

  -- What follows the run, by its completion; `decode` reads the result, if one is asked for.
  unfoldable pub finish_run :
      {A : Type 0}
      → ℕ
      → Option (Bytes → Option A)
      → Completion
      → Outcome Error (ReturnCode × List (LogMessage B.Float) × Option A)
  finish_run fuel decode (not_run e) = err (external e)
  finish_run fuel decode (exited (pos zero) stdout stderr) = elim decode [
    | none ↦ ok (pos 0, [], none)
    | some unmarshal ↦ elim (unmarshal stdout) [
      | none ↦ err (external (codes "json"))
      | some result ↦ ok (pos 0, [], some result)
    ]
  ]
  finish_run fuel decode (exited (pos (suc n)) stdout stderr) = elim (log_lines stderr fuel) [
    | ok ll ↦ ok (pos (suc n), ll, none)
    | err e ↦ err e
    | panic ↦ panic
    | fatal ↦ fatal
  ]
  finish_run fuel decode (exited (negsuc n) stdout stderr) = elim (log_lines stderr fuel) [
    | ok ll ↦ ok (negsuc n, ll, none)
    | err e ↦ err e
    | panic ↦ panic
    | fatal ↦ fatal
  ]

  -- `Run`; `cancellable` tells that there is a context.
  unfoldable pub run :
      {A : Type 0}
      → ℕ
      → Bool
      → List Bytes
      → Assoc Bytes
      → Option B.Input
      → Option (Bytes → Option A)
      → M (ReturnCode × List (LogMessage B.Float) × Option A)
  run fuel cancellable command env input decode w =
      let (completion, s) = B.run (codes "--log-json" ∷ command) (final_env env) input w.borg in
      (
        if cancellable && B.canceled s then err canceled else finish_run fuel decode completion,
        record w { borg = s },
      )

  unfoldable pub handle_borg_log_messages : List (LogMessage B.Float) → M Unit
  handle_borg_log_messages [] w = (ok tt, w)
  handle_borg_log_messages (m ∷ messages) w = elim (msg m) [
    | none ↦ handle_borg_log_messages messages w
    | some text ↦
        handle_borg_log_messages messages
          (if text == [] then w else record w { logged = (level m, text) ∷ w.logged })
  ]

  -- The type assertion to a pointer, and the test of its message id.
  abbrev pub hint_of : LogMessage B.Float → Option (LogMessageLogMessage B.Float)
  hint_of (log_message_pointer m) = elim m.msgid [
    | none ↦ none
    | some id ↦ if id == codes "ConnectionClosedWithHint" then some m else none
  ]
  hint_of (log_message m) = none
  hint_of (archive_progress m) = none
  hint_of (progress_message m) = none
  hint_of (progress_percent m) = none
  hint_of (file_status m) = none

  -- The last message that is a hint.
  unfoldable pub find_hint :
      List (LogMessage B.Float)
      → Option (LogMessageLogMessage B.Float)
      → Option (LogMessageLogMessage B.Float)
  find_hint [] lm = lm
  find_hint (m ∷ messages) lm =
      find_hint messages (elim (hint_of m) [ none ↦ lm | some hint ↦ some hint ])

  abbrev log_and_raise : List (LogMessage B.Float) → Error → M Unit
  log_and_raise messages e = do handle_borg_log_messages messages; raise e

  unfoldable pub handle_connection_closed_with_hint :
      ReturnCode → List (LogMessage B.Float) → M Unit
  handle_connection_closed_with_hint code messages = elim (find_hint messages none) [
    | some lm ↦ raise (borg_error code lm.message)
    | none ↦ log_and_raise messages (borg_error code (codes "borg connection closed, check log"))
  ]

  unfoldable pub handle_borg_return_code : ReturnCode → List (LogMessage B.Float) → M Unit
  handle_borg_return_code (negsuc n) messages = log_and_raise messages (unknown_code (negsuc n))
  handle_borg_return_code (pos n) messages =
      let failed = λ (text : Bytes). borg_error (pos n) text in
      if eqb n 0
      then pure tt
      else if eqb n 1
      then handle_borg_log_messages messages
      else if eqb n 2
      then log_and_raise messages (failed (codes "borg command failed, check log"))
      else if eqb n 10
      then raise (failed (codes "there already exists a repository"))
      else if eqb n 13
      then raise (failed (codes "configured repository does not exist"))
      else if eqb n 15
      then raise (failed (codes "configured location doesn't point to a valid repository"))
      else if eqb n 51
      then log_and_raise messages (failed (codes "borg passcommand failed, check log"))
      else if eqb n 52
      then raise (failed (codes "configured passphrase is wrong"))
      else if eqb n 80
      then log_and_raise messages (failed (codes "borg connection closed, check log"))
      else if eqb n 81
      then handle_connection_closed_with_hint (pos n) messages
      else log_and_raise messages (unknown_code (pos n))
