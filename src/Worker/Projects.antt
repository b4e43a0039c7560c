-- ===== src/Worker/Projects.antt =====
-- worker/container.go: the backup of a project of containers. Ranging over the map of containers
-- and running a group of goroutines happen in the order of the list, which is one of those that
-- the code may take; the context that a failed call of a group cancels is not modelled.
use borg_collective.Base.{not, none, some, List, [], ◌∷◌, ◌++◌, Bytes, codes, eqb, if◌then◌else◌}
use borg_collective.Base.Exec.{
  Outcome, ok, err, panic, fatal, pure, raise, lift, on_error, ◌>>=◌, ◌>>◌,
}
use borg_collective.Base.Assoc.{Assoc, lookup, values}
use borg_collective.Container.Model.{
  ContainerBackup, ContainerBackupProject, ContainerExecBackup, Volume, needs_backup, mode_string,
}
use borg_collective.Container.Paths.{find_source_for_in_container_path}
use borg_collective.Worker.Host.{
  Host, J, note, warned, ensure_running, ensure_stopped, exec_in, exec_output_in, create_paths,
  create_input, error_of,
}
use borg_collective.Worker.Common.{contains, archive_name, log_backup_complete}

-- `ContainerBackup{}`
abbrev pub no_container : ContainerBackup
no_container = record {
  id = [];
  service_name = [];
  mode = 0;
  upper_dir_path = [];
  exec = none;
  backup_volumes = [];
  all_volumes = [];
  dependencies = [];
}

-- A missing dependency is the zero value.
unfoldable pub find_dependencies : Assoc ContainerBackup → List Bytes → List ContainerBackup
find_dependencies containers [] = []
find_dependencies containers (dep ∷ deps) =
    elim (lookup dep containers) [ none ↦ no_container | some ctnr ↦ ctnr ]
    ∷ find_dependencies containers deps

unfoldable pub find_dependents : List ContainerBackup → Bytes → List ContainerBackup
find_dependents [] service_name = []
find_dependents (ctnr ∷ ctnrs) service_name =
    let rest = find_dependents ctnrs service_name in
    if contains ctnr.dependencies service_name then ctnr ∷ rest else rest

abbrev pub sources_of : List Volume → List Bytes
sources_of [] = []
sources_of (vol ∷ volumes) = vol.source ∷ sources_of volumes

module _ ⦃H : Host⦄ where
  -- Both calls are made whichever fails, and the first error is the group's.
  abbrev both : J Unit → J Unit → J Unit
  both first rest = do on_error first (λ e. do on_error rest (λ _. pure tt); raise e); rest

  -- An `errgroup` that makes sure that all containers run, or that all are stopped.
  unfoldable pub ensure_all : (Bytes → J Unit) → List ContainerBackup → J Unit
  ensure_all ensure [] = pure tt
  ensure_all ensure (ctnr ∷ ctnrs) = both (ensure ctnr.id) (ensure_all ensure ctnrs)

  abbrev proceed : {A : Type 0} → Outcome Bytes A → Bytes → (A → J Unit) → J Unit
  proceed (ok a) message next t = next a t
  proceed (err e) message next t = note (warned message) t
  proceed panic message next t = (panic, t)
  proceed fatal message next t = (fatal, t)

  -- `if err != nil { log.Warn()…; return }` after a step, and what follows it.
  abbrev pub or_warn : {A : Type 0} → Bytes → J A → (A → J Unit) → J Unit
  or_warn message step next t = let (r, t') = step t in proceed r message next t'

  unfoldable pub run_volume_backup : ContainerBackup → Bytes → J Unit
  run_volume_backup ctnr backup_name = do
    archive ← archive_name backup_name
    or_warn (codes "backup failed") (create_paths archive (sources_of ctnr.backup_volumes))
        λ _. log_backup_complete backup_name

  -- The loop over the paths of an exec backup; a path without a source is logged and left out.
  unfoldable pub source_paths : ContainerBackup → List Bytes → J (List Bytes)
  source_paths ctnr [] = pure []
  source_paths ctnr (c_path ∷ c_paths) = do
    found ← lift (find_source_for_in_container_path ctnr c_path)
    elim found [
      | none ↦ do note (warned (codes "no source for path")); source_paths ctnr c_paths
      | some s_path ↦ do rest ← source_paths ctnr c_paths; pure (s_path ∷ rest)
    ]

  -- The branch for the output of the command.
  unfoldable pub run_exec_output : ContainerBackup → ContainerExecBackup → Bytes → J Unit
  run_exec_output ctnr exec backup_name =
      or_warn (codes "failed to execute exec command") (exec_output_in ctnr.id exec.command)
        λ output. do
          archive ← archive_name backup_name
          or_warn (codes "backup failed") (create_input archive output) λ _. do
            failed ← error_of output
            elim failed [
              | none ↦ pure tt
              | some _ ↦ note (warned (codes "exec command failed, backup may be incomplete"))
            ]
            log_backup_complete backup_name

  -- A failed `CreateWithPaths` is logged, and the function goes on to log the completion.
  unfoldable pub create_and_log : Bytes → List Bytes → J Unit
  create_and_log backup_name paths = do
    archive ← archive_name backup_name
    on_error (create_paths archive paths) (λ _. note (warned (codes "backup failed")))
    log_backup_complete backup_name

  -- The branch for the paths that the command has written.
  unfoldable pub run_exec_paths : ContainerBackup → ContainerExecBackup → Bytes → J Unit
  run_exec_paths ctnr exec backup_name =
      or_warn (codes "failed to execute exec command") (exec_in ctnr.id exec.command)
        λ _. do paths ← source_paths ctnr exec.paths; create_and_log backup_name paths

  unfoldable pub run_exec_backup : ContainerBackup → ContainerExecBackup → Bytes → J Unit
  run_exec_backup ctnr exec backup_name =
      if exec.stdout
      then run_exec_output ctnr exec backup_name
      else run_exec_paths ctnr exec backup_name

  -- The end of an online backup.
  unfoldable pub run_either : ContainerBackup → Bytes → J Unit
  run_either ctnr backup_name = elim ctnr.exec [
    | some exec ↦ run_exec_backup ctnr exec backup_name
    | none ↦ run_volume_backup ctnr backup_name
  ]

  unfoldable pub ensure_dependencies : Assoc ContainerBackup → ContainerBackup → J Unit → J Unit
  ensure_dependencies containers ctnr next =
      or_warn (codes "failed to ensure dependencies are running")
        (ensure_all ensure_running (find_dependencies containers ctnr.dependencies)) λ _. next

  unfoldable pub run_online_backup : Assoc ContainerBackup → ContainerBackup → Bytes → J Unit
  run_online_backup containers ctnr backup_name =
      or_warn (codes "failed to ensure container running for online backup")
        (ensure_running ctnr.id)
        λ _. ensure_dependencies containers ctnr (run_either ctnr backup_name)

  unfoldable pub run_dependent_offline_backup :
      Assoc ContainerBackup → ContainerBackup → Bytes → J Unit
  run_dependent_offline_backup containers ctnr backup_name =
      or_warn (codes "failed to ensure container running for online backup (dependents offline)")
        (ensure_running ctnr.id)
        λ _. ensure_dependencies containers ctnr (
          or_warn (codes "failed to ensure dependent containers stopped")
            (ensure_all ensure_stopped (find_dependents (values containers) ctnr.service_name))
            λ _. run_either ctnr backup_name)

  unfoldable pub run_offline_backup : ContainerBackup → Bytes → J Unit
  run_offline_backup ctnr backup_name =
      or_warn (codes "failed to ensure container stopped for offline backup")
        (ensure_stopped ctnr.id) λ _. run_volume_backup ctnr backup_name

  -- The body of the loop over the plan. For an unknown mode, the text for the log panics.
  unfoldable pub run_one : Assoc ContainerBackup → Bytes → ContainerBackup → J Unit
  run_one containers project_name ctnr =
      let backup_name = project_name ++ (b'-' ∷ ctnr.service_name) in
      if not (needs_backup ctnr)
      then pure tt
      else if eqb ctnr.mode 1
      then run_online_backup containers ctnr backup_name
      else if eqb ctnr.mode 2
      then run_offline_backup ctnr backup_name
      else if eqb ctnr.mode 3
      then run_dependent_offline_backup containers ctnr backup_name
      else (do lift (mode_string ctnr.mode); note (warned (codes "unknown backup mode")))

  unfoldable pub run_plan : Assoc ContainerBackup → Bytes → List ContainerBackup → J Unit
  run_plan containers project_name [] = pure tt
  run_plan containers project_name (ctnr ∷ plan) = do
    run_one containers project_name ctnr
    run_plan containers project_name plan

  -- The goroutines that start all containers again.
  unfoldable pub restart_all : List ContainerBackup → J Unit
  restart_all [] = pure tt
  restart_all (ctnr ∷ ctnrs) = do
    on_error (ensure_running ctnr.id)
        λ _. note (warned (codes "failed to ensure container running after backup"))
    restart_all ctnrs

  -- `Run` of a job with its project and its plan.
  unfoldable pub run_project :
      {S : Type 0} → ContainerBackupProject S → List ContainerBackup → J Unit
  run_project project plan = do
    run_plan project.containers project.project_name plan
    restart_all (values project.containers)
