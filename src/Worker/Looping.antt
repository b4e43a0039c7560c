-- ===== src/Worker/Looping.antt =====
-- `Run` of worker/worker.go against a table of jobs.
use borg_collective.Base.{
  ◌&&◌, Bool, true, Option, List, [], ◌∷◌, Bytes, codes, ◌==◌, ◌≡◌, if◌then◌else◌,
}
use borg_collective.Container.Model.{ContainerBackupProject}
use borg_collective.Worker.Host.{Host}
use borg_collective.Worker.Schedule.{Cron, Entry, Worker}
use borg_collective.Worker.Registry.{IsCron, job_of, intended}
use borg_collective.Worker.Statics.{jobs_at, static_jobs, all_scheduled}
use borg_collective.Config.Load.{Config}
use borg_collective.Worker.Loop.{
  Signal, config_update, config_error, docker_update, docker_error, done, scheduled,
}
use borg_collective.Worker.Separate.{compaction_of, compaction_entry}

module _ ⦃C : Cron⦄ (laws : IsCron) ⦃H : Host⦄ where
  -- The jobs that a worker is to have, with their schedules: that of the compaction, the static ones
  -- in their order, and that of each project.
  pub record Table : Type 0 where
    pub compaction : Option (Entry C.Schedule)
    pub statics : List (Option (Entry C.Schedule))
    pub project : Bytes → Option (Entry C.Schedule)

  abbrev with_project : ContainerBackupProject C.Schedule → Table → Table
  with_project p t = record t {
    project = λ name. if p.project_name == name then intended laws p else t.project name;
  }

  abbrev configured : Config C.Schedule → Table → Table
  configured cfg t = record t {
    compaction = compaction_entry laws cfg.repo.compaction_schedule;
    statics = static_jobs (scheduled cfg.backups);
  }

  -- A configuration replaces the compaction job and the static jobs, and a project of docker the job of its name. The first
  -- error and the end of the context are the last signals that count.
  abbrev pub run_table : List Signal → Table → Table
  run_table [] t = t
  run_table (config_update cfg ∷ signals) t = run_table signals (configured cfg t)
  run_table (docker_update p ∷ signals) t =
      run_table signals (if p.engine == codes "docker" then with_project p t else t)
  run_table (config_error e ∷ signals) t = t
  run_table (docker_error e ∷ signals) t = t
  run_table (done ∷ signals) t = t

  pub record Matches (t : Table) (w : Worker) : Type 0 where
    pub compaction : compaction_of laws w ≡ t.compaction
    pub statics : jobs_at w.static_job_ids w.scheduler ≡ t.statics
    pub project : (name : Bytes) → job_of name w ≡ t.project name

  -- No configuration that is received has a backup with a nil schedule.
  abbrev pub are_scheduled : List Signal → Bool
  are_scheduled [] = true
  are_scheduled (config_update cfg ∷ signals) =
      all_scheduled (scheduled cfg.backups) && are_scheduled signals
  are_scheduled (docker_update p ∷ signals) = are_scheduled signals
  are_scheduled (config_error e ∷ signals) = are_scheduled signals
  are_scheduled (docker_error e ∷ signals) = are_scheduled signals
  are_scheduled (done ∷ signals) = are_scheduled signals
