-- ===== src/Tests/BorgExamples.antt =====
-- The borg client at concrete inputs, on a borg that always ends with a warning.
use borg_collective.Base.{
  ℕ, ◌≡◌, arith, ◌↔◌, refl, none, some, [], ◌∷◌, ◌++◌, false, codes, Bytes, ◌==◌, has_prefix,
  contains_byte,
}
use borg_collective.Base.Exec.{ok, err}
use borg_collective.Base.Assoc.{insert}
use borg_collective.Borg.Api.{pos, LogMessageLogMessage, log_message, exited, Borg, borg_error}
use borg_collective.Borg.Run.{
  World, contains, search_for, cut_line, parse_line, parse_log_lines, handle_borg_return_code,
}
use borg_collective.Borg.Client.{
  Config, default_env, env, info_args, init_args, create_with_paths_args, create_with_input_args,
  compact_args, compact, init,
}
use borg_collective.Borg.LogLines.{
  unlines, messages_of, parse_log_lines-unlines, parse_log_lines_unending,
}
use borg_collective.Borg.Codes.{hint_is_lost}
use borg_collective.Borg.Commands.{completion_of, Succeeded, args_hide_secret, compact_iff}

abbrev warning_line : Bytes
warning_line = codes "{\"type\": \"log_message\"}"

abbrev warning_log : Bytes
warning_log = warning_line ++ (10 ∷ [])

abbrev changed : LogMessageLogMessage (Unit {0})
changed = record {
  time = tt;
  levelname = codes "WARNING";
  name = codes "borg.archiver";
  message = codes "file changed while we backed it up";
  msgid = none;
}

instance abbrev pub warning_borg : Borg
warning_borg = record {
  State = Unit {0};
  Float = Unit {0};
  Input = Unit {0};
  run = λ args environment input s. (exited (pos 1) (codes "{}") warning_log, s);
  canceled = λ s. false;
  json_archive_progress = λ line. none;
  json_progress_message = λ line. none;
  json_progress_percent = λ line. none;
  json_file_status = λ line. none;
  json_log_message = λ line. some changed;
  InfoListOutput = ℕ;
  no_info = 0;
  json_info = λ text. some 1;
  CreateOutput = ℕ;
  no_stats = 0;
  json_create = λ text. some 1;
  version_output = λ s. ok (codes "borg 1.4.0");
  Version = ℕ;
  new_version = λ text. ok 140;
  is_below_min = λ v. false;
  is_from_upper = λ v. false;
}

abbrev pub idle : World
idle = record { borg = tt; logged = [] }

abbrev config_with : Bytes → Config
config_with secret = record {
  repo = record { location = codes "/srv/repo"; identity_file = none };
  encryption = some (record { secret = some secret; secret_command = none });
}

abbrev pub config : Config
config = config_with (codes "hunter2")

warning_is_read : parse_log_lines 2 warning_log [] ≡ some (log_message changed ∷ [])
unfolding parse_log_lines cut_line parse_line contains search_for ◌==◌ has_prefix contains_byte
warning_is_read = refl

parse_log_lines-unlines_example :
    parse_log_lines 3 (unlines (warning_line ∷ codes "not json" ∷ [])) []
    ≡ some (messages_of (warning_line ∷ codes "not json" ∷ []))
unfolding contains_byte
parse_log_lines-unlines_example =
    parse_log_lines-unlines (warning_line ∷ codes "not json" ∷ []) [] 3 refl (omega arith)

parse_log_lines_unending_example : parse_log_lines 1000 (warning_log ++ codes "Killed") [] ≡ none
unfolding contains_byte
parse_log_lines_unending_example =
    parse_log_lines_unending (warning_line ∷ []) b'K' (codes "illed") [] 1000 refl refl

hint_is_lost_example :
    (handle_borg_return_code (pos 81) (log_message changed ∷ []) idle).0
    ≡ err (borg_error (pos 81) (codes "borg connection closed, check log"))
hint_is_lost_example = hint_is_lost 2 warning_log (log_message changed ∷ []) idle warning_is_read

args_hide_secret_example :
    (info_args config ≡ info_args (config_with (codes "other")))
    × (init_args config ≡ init_args (config_with (codes "other")))
    × (create_with_paths_args config (codes "a") (codes "/etc" ∷ [])
        ≡ create_with_paths_args (config_with (codes "other")) (codes "a") (codes "/etc" ∷ []))
    × (create_with_input_args config (codes "a")
        ≡ create_with_input_args (config_with (codes "other")) (codes "a"))
    × (compact_args config ≡ compact_args (config_with (codes "other")))
args_hide_secret_example =
    args_hide_secret config (config_with (codes "other")) (codes "a") (codes "/etc" ∷ []) refl refl

compact_iff_example :
    (((compact 2 config idle).0 ≡ ok tt)
      ↔ Succeeded 2 (
          completion_of
            (compact_args config)
            (insert (codes "BORG_PASSPHRASE") (codes "hunter2") default_env)
            idle))
    × (((init 2 config idle).0 ≡ ok tt)
        ↔ Succeeded 2 (
            completion_of
              (init_args config)
              (insert (codes "BORG_PASSPHRASE") (codes "hunter2") default_env)
              idle))
unfolding env
compact_iff_example =
    compact_iff 2 config (insert (codes "BORG_PASSPHRASE") (codes "hunter2") default_env) idle refl
