-- ===== src/Worker/Apart.antt =====
-- The ids that a worker of worker/worker.go keeps, after `scheduleDockerBackup`.
use borg_collective.Base.{
  ℕ, Bool, true, false, ◌||◌, Option, none, some, List, [], Bytes, ◌≡◌, ◌≢◌, refl, ap, ◌∙◌, arith,
  eqb, inl, inr, Option-cases,
}
use borg_collective.Base.Assoc.{lookup}
use borg_collective.Container.Model.{ContainerBackup, ContainerBackupProject}
use borg_collective.Worker.Host.{Host}
use borg_collective.Worker.Schedule.{
  Cron, Entry, compaction, static_backup, project_backup, Worker, remove_job, unschedule_project,
  add_project, schedule_docker_backup,
}
use borg_collective.Worker.Registry.{
  IsCron, job_of, intended, schedule_docker_backup-job_of, schedule_docker_backup-cases,
}
use borg_collective.Worker.Kinds.{kind, Keeps, Keeps-trans, jobs_at-Keeps, Keeps-schedule}
use borg_collective.Worker.Separate.{IsSeparate, IsSeparate-IsRegistered}

module _ ⦃C : Cron⦄ where
  module _ (laws : IsCron) where
    unschedule_project-Keeps :
        (k : ℕ) (name : Bytes) (w : Worker)
        → IsSeparate w
        → eqb k 3 ≡ false
        → Keeps k w.scheduler (unschedule_project name w).scheduler
    unfolding unschedule_project remove_job
    unschedule_project-Keeps k name w r t id same =
        elim (Option-cases (lookup name w.docker_job_ids)) [
          | inl e ↦ ground (arith, e)
          | inr (gone, e) ↦
              ground
                (arith, e, t, same, r.dockers name gone e, laws.entry-remove gone id w.scheduler)
        ]

    project-ids :
        (name : Bytes) (project : ContainerBackupProject C.Schedule) (plan : List ContainerBackup)
        (w : Worker)
        → ((unschedule_project name w).static_job_ids ≡ w.static_job_ids)
          × ((unschedule_project name w).compact_job_id ≡ w.compact_job_id)
          × ((add_project project plan w).static_job_ids ≡ w.static_job_ids)
          × ((add_project project plan w).compact_job_id ≡ w.compact_job_id)
    unfolding unschedule_project remove_job add_project
    project-ids name project plan w = elim (Option-cases (lookup name w.docker_job_ids)) [
      | inl e ↦ (ground (arith, e), ground (arith, e), refl, refl)
      | inr (gone, e) ↦ (ground (arith, e), ground (arith, e), refl, refl)
    ]

    add_project-Keeps :
        (k : ℕ) (project : ContainerBackupProject C.Schedule) (plan : List ContainerBackup)
        (w : Worker)
        → eqb k 0 ≡ false
        → Keeps k w.scheduler (add_project project plan w).scheduler
    unfolding add_project
    add_project-Keeps k project plan w z =
        Keeps-schedule laws k project.schedule (project_backup project plan) w.scheduler z

    module _ ⦃H : Host⦄ where
      pub docker_backup-Keeps :
          (k : ℕ) (project : ContainerBackupProject C.Schedule) (w : Worker)
          → IsSeparate w
          → eqb k 0 ≡ false
          → eqb k 3 ≡ false
          → Keeps k w.scheduler (schedule_docker_backup project w).1.scheduler
      docker_backup-Keeps k project w r z t =
          let freed = unschedule_project project.project_name w in
          let first = unschedule_project-Keeps k project.project_name w r t in
          elim (schedule_docker_backup-cases laws project w) [
            | inl (e, state) ↦ rw state first
            | inr (plan, e, state) ↦ rw state (
                Keeps-trans k w.scheduler freed.scheduler _ first
                  (add_project-Keeps k project plan freed z))
          ]

      pub docker_backup-ids :
          (project : ContainerBackupProject C.Schedule) (w : Worker)
          → ((schedule_docker_backup project w).1.static_job_ids ≡ w.static_job_ids)
            × ((schedule_docker_backup project w).1.compact_job_id ≡ w.compact_job_id)
      docker_backup-ids project w =
          let name = project.project_name in
          elim (schedule_docker_backup-cases laws project w) [
            | inl (e, state) ↦ ground (arith, state, project-ids name project [] w)
            | inr (plan, e, state) ↦ ground (
              arith,
              state,
              project-ids name project plan w,
              project-ids name project plan (unschedule_project name w),
            )
          ]

      abbrev is_project : Option (Entry C.Schedule) → Bool
      is_project job = eqb (kind job) 0 || eqb (kind job) 3

      job_of-is_project :
          (name : Bytes) (w : Worker) → IsSeparate w → is_project (job_of name w) ≡ true
      job_of-is_project name w r = elim (Option-cases (lookup name w.docker_job_ids)) [
        | inl e ↦ ground (arith, e)
        | inr (id, e) ↦ ground (arith, e, r.dockers name id e)
      ]

      intended-is_project :
          (project : ContainerBackupProject C.Schedule) (w : Worker)
          → is_project (intended laws project) ≡ true
      intended-is_project project w = elim (schedule_docker_backup-cases laws project w) [
        | inl (e, state) ↦ ground (arith, e)
        | inr (plan, e, state) ↦ ground (arith, e)
      ]

      live_project :
          (job : Option (Entry C.Schedule)) → is_project job ≡ true → job ≢ none → kind job ≡ 3
      live_project none h gone = absurd (gone refl)
      live_project (some (schedule, compaction)) h gone = absurd (ground (arith, h))
      live_project (some (schedule, static_backup backup)) h gone = absurd (ground (arith, h))
      live_project (some (schedule, project_backup project plan)) h gone = refl

      pub docker_backup-IsSeparate :
          (project : ContainerBackupProject C.Schedule) (w : Worker)
          → IsSeparate w
          → IsSeparate (schedule_docker_backup project w).1
      docker_backup-IsSeparate project w r =
          let ids = docker_backup-ids project w in
          let registered = IsSeparate-IsRegistered w r in
          let after =
            λ (name : Bytes). schedule_docker_backup-job_of laws project name w registered in
          let after_registered = (after []).1 in
          record {
            statics =
                rw (ids.0)
                  (jobs_at-Keeps 2 w.static_job_ids w.scheduler _
                    (docker_backup-Keeps 2 project w r refl refl) r.statics).1;
            dockers = λ name id found.
                live_project _
                  (ground (
                    arith,
                    (after name).0,
                    found,
                    job_of-is_project name w r,
                    intended-is_project project w,
                  ))
                  (after_registered.live name id found);
            compacts = λ h.
                let before = r.compacts (ground (arith, h, ids)) in
                rw (ids.1) (
                  ap kind (docker_backup-Keeps 1 project w r refl refl w.compact_job_id before)
                  ∙ before);
            apart = after_registered.apart;
          }
