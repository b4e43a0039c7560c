-- ===== src/Worker/Static.antt =====
-- worker/static.go: a backup of paths or of a command's output on the host itself.
use borg_collective.Base.{Bool, true, Option, none, some, List, [], ◌∷◌, Bytes, codes}
use borg_collective.Base.Exec.{pure, raise, on_error, ignore, ◌>>=◌, ◌>>◌}
use borg_collective.Worker.Host.{
  Host, J, note, warned, create_input, command, command_output, error_of,
}
use borg_collective.Worker.Common.{archive_name, log_backup_complete, backup_paths}

-- `stdout` is `none` where the pointer is nil.
pub record ExecConfig : Type 0 where
  pub command : List Bytes
  pub stdout : Option Bool
  pub paths : List Bytes

-- `paths` is the field `Paths.Paths` behind a pointer.
pub record BackupConfig : Type 0 where
  pub name : Bytes
  pub pre_command : List Bytes
  pub exec : Option ExecConfig
  pub paths : Option (List Bytes)
  pub post_command : List Bytes
  pub finally_command : List Bytes

module _ ⦃H : Host⦄ where
  abbrev exec_stdout : Bytes → ExecConfig → J Unit
  exec_stdout name config = do
    output ← command_output config.command
    archive ← archive_name name
    create_input archive output
    failed ← error_of output
    elim failed [
      | none ↦ pure tt
      | some _ ↦ note (warned (codes "exec command failed, backup may be incomplete"))
    ]
    log_backup_complete name

  unfoldable pub run_static_exec : Bytes → ExecConfig → J Unit
  run_static_exec name config = elim config.command [
    | [] ↦ raise (codes "no exec command specified")
    | _ ∷ _ ↦ elim config.stdout [
      | some true ↦ exec_stdout name config
      | _ ↦ elim config.paths [
        | [] ↦ raise (codes "no paths configured")
        | _ ∷ _ ↦ do command config.command; backup_paths name config.paths
      ]
    ]
  ]

  unfoldable pub run_static_paths : BackupConfig → J Unit
  run_static_paths backup = elim backup.paths [
    | none ↦ raise (codes "no paths configured")
    | some paths ↦ backup_paths backup.name paths
  ]

  -- A command that is run if there is one.
  abbrev pub optional : List Bytes → J Unit
  optional [] = pure tt
  optional (c ∷ args) = command (c ∷ args)

  -- The part of `Run` up to the backup's end.
  unfoldable pub run_static_backup : BackupConfig → J Unit
  run_static_backup backup = do
    optional backup.pre_command
    elim backup.exec [
      | some config ↦ run_static_exec backup.name config
      | none ↦ run_static_paths backup
    ]

  -- Up to the message of a failure.
  unfoldable pub run_static_reported : BackupConfig → J Unit
  run_static_reported backup =
      on_error (do run_static_backup backup; ignore (optional backup.post_command))
        λ _. note (warned (codes "backup failed"))

  unfoldable pub run_static : BackupConfig → J Unit
  run_static backup = do run_static_reported backup; ignore (optional backup.finally_command)
