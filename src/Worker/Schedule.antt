-- ===== src/Worker/Schedule.antt =====
-- worker/worker.go: the jobs that a worker has with the cron scheduler, by their ids.
use borg_collective.Base.{ℕ, Option, none, some, List, [], ◌∷◌, ◌++◌, Bytes, eqb, if◌then◌else◌}
use borg_collective.Base.Exec.{ok, err, panic, fatal, Exec}
use borg_collective.Base.Assoc.{Assoc, lookup, insert, erase}
use borg_collective.Container.Model.{ContainerBackup, ContainerBackupProject}
use borg_collective.Worker.Host.{Host}
use borg_collective.Worker.Static.{BackupConfig}
use borg_collective.Worker.Creation.{new_project_job}

pub data Job (S : Type 0) : Type 0 where
  compaction : Job S
  static_backup : BackupConfig → Job S
  project_backup : ContainerBackupProject S → List ContainerBackup → Job S

-- A scheduled job with its schedule.
abbrev pub Entry : Type 0 → Type 0
Entry S = S × Job S

-- `cron.Cron`: `Remove`, `Schedule`, and what stands under an id among `Entries`. A schedule is
-- `none` where the interface value is nil. A running scheduler panics on a nil schedule in its own
-- goroutine, after `Schedule` has handed it over, and that ends the process: the state that follows
-- is then that of a scheduler of which nothing is known.
pub record Cron : Type 1 where
  pub Schedule : Type 0
  pub State : Type 0
  pub entry : ℕ → State → Option (Entry Schedule)
  pub remove : ℕ → State → State
  pub schedule : Option Schedule → Job Schedule → State → ℕ × State

module _ ⦃C : Cron⦄ where
  pub record Worker : Type 0 where
    pub scheduler : C.State
    pub compact_job_id : ℕ
    pub static_job_ids : List ℕ
    pub docker_job_ids : Assoc ℕ

  unfoldable pub remove_job : ℕ → Worker → Worker
  remove_job id w = record w { scheduler = C.remove id w.scheduler }

  -- A nil schedule leaves the repository without a compaction job.
  unfoldable pub schedule_repo_compaction : Option C.Schedule → Worker → Worker
  schedule_repo_compaction schedule w =
      let w' =
        if eqb w.compact_job_id 0
        then w
        else record (remove_job w.compact_job_id w) { compact_job_id = 0 } in
      elim schedule [
        | none ↦ w'
        | some s ↦
            let (id, scheduler) = C.schedule (some s) compaction w'.scheduler in
            record w' { scheduler = scheduler; compact_job_id = id }
      ]

  unfoldable pub remove_jobs : List ℕ → Worker → Worker
  remove_jobs [] w = w
  remove_jobs (id ∷ ids) w = remove_jobs ids (remove_job id w)

  -- Each backup with its schedule.
  unfoldable pub add_static : List (BackupConfig × Option C.Schedule) → Worker → Worker
  add_static [] w = w
  add_static ((backup, schedule) ∷ backups) w =
      let (id, scheduler) = C.schedule schedule (static_backup backup) w.scheduler in
      add_static backups
        (record w { scheduler = scheduler; static_job_ids = w.static_job_ids ++ (id ∷ []) })

  unfoldable pub schedule_static_backups : List (BackupConfig × Option C.Schedule) → Worker → Worker
  schedule_static_backups backups w =
      add_static backups (record (remove_jobs w.static_job_ids w) { static_job_ids = [] })

  -- The first half of `scheduleDockerBackup`.
  unfoldable pub unschedule_project : Bytes → Worker → Worker
  unschedule_project name w = elim (lookup name w.docker_job_ids) [
    | none ↦ w
    | some id ↦ record (remove_job id w) { docker_job_ids = erase name w.docker_job_ids }
  ]

  unfoldable pub add_project :
      ContainerBackupProject C.Schedule → List ContainerBackup → Worker → Worker
  add_project project plan w =
      let (id, scheduler) =
        C.schedule (some project.schedule) (project_backup project plan) w.scheduler in
      record w {
        scheduler = scheduler;
        docker_job_ids = insert project.project_name id w.docker_job_ids;
      }

module _ ⦃C : Cron⦄ ⦃H : Host⦄ where
  unfoldable pub schedule_docker_backup : ContainerBackupProject C.Schedule → Exec Bytes Worker Unit
  schedule_docker_backup project w =
      let w' = unschedule_project project.project_name w in
      elim project.containers [
        | [] ↦ (ok tt, w')
        | _ ∷ _ ↦ elim (new_project_job project) [
          | ok plan ↦ (ok tt, add_project project plan w')
          | err e ↦ (err e, w')
          | panic ↦ (panic, w')
          | fatal ↦ (fatal, w')
        ]
      ]
