-- ===== src/Worker/Loop.antt =====
-- `Run` and `ScheduleContainerBackups` of worker/worker.go: the loop as a function of what its `select`
-- receives.
use borg_collective.Base.{Option, none, some, List, [], ◌∷◌, Bytes, ◌==◌, if◌then◌else◌, codes}
use borg_collective.Base.Exec.{Outcome, ok, err, panic, fatal, Exec}
use borg_collective.Container.Model.{ContainerBackupProject}
use borg_collective.Worker.Host.{Host}
use borg_collective.Worker.Static.{BackupConfig}
use borg_collective.Worker.Schedule.{
  Cron, Worker, schedule_repo_compaction, schedule_static_backups, schedule_docker_backup,
}
use borg_collective.Config.Load.{BackupEntry, Config}

module _ ⦃C : Cron⦄ where
  pub data Signal : Type 0 where
    config_update : Config C.Schedule → Signal
    config_error docker_error : Bytes → Signal
    docker_update : ContainerBackupProject C.Schedule → Signal
    done : Signal

  -- The backups, each with what its method `Schedule` returns.
  unfoldable pub scheduled : List (BackupEntry C.Schedule) → List (BackupConfig × Option C.Schedule)
  scheduled [] = []
  scheduled (entry ∷ backups) = (entry.backup, entry.schedule) ∷ scheduled backups

  -- The configuration of the borg client is not part of the worker.
  unfoldable pub handle_config : Config C.Schedule → Worker → Worker
  handle_config cfg w =
      schedule_static_backups (scheduled cfg.backups)
        (schedule_repo_compaction cfg.repo.compaction_schedule w)

module _ ⦃C : Cron⦄ ⦃H : Host⦄ where
  -- An error is logged.
  unfoldable pub handle_docker_update : ContainerBackupProject C.Schedule → Worker → Worker
  handle_docker_update project w =
      if project.engine == codes "docker" then (schedule_docker_backup project w).1 else w

  -- The result of `Run`, or `none` while the loop goes on.
  unfoldable pub run_loop : List Signal → Worker → Option (Outcome Bytes Unit) × Worker
  run_loop [] w = (none, w)
  run_loop (config_update cfg ∷ signals) w = run_loop signals (handle_config cfg w)
  run_loop (docker_update project ∷ signals) w = run_loop signals (handle_docker_update project w)
  run_loop (config_error e ∷ signals) w = (some (err e), w)
  run_loop (docker_error e ∷ signals) w = (some (err e), w)
  run_loop (done ∷ signals) w = (some (ok tt), w)

  -- The first error ends the loop.
  unfoldable pub schedule_container_backups :
      List (ContainerBackupProject C.Schedule) → Exec Bytes Worker Unit
  schedule_container_backups [] w = (ok tt, w)
  schedule_container_backups (project ∷ backups) w =
      let (r, w') = schedule_docker_backup project w in
      let added = schedule_container_backups backups w' in
      let skipped = schedule_container_backups backups w in
      let scheduled : Outcome Bytes Unit × Worker = elim r [
        | ok _ ↦ added
        | err e ↦ (err e, w')
        | panic ↦ (panic, w')
        | fatal ↦ (fatal, w')
      ] in
      if project.engine == codes "docker" then scheduled else skipped
