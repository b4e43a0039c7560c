-- ===== src/Worker/Registry.antt =====
-- `scheduleDockerBackup` of worker/worker.go as a change of the map from projects to jobs.
use borg_collective.Base.{
  ℕ, Option, none, some, List, [], ◌∷◌, Bytes, ◌==◌, ==_iff, eqb, if◌then◌else◌, ◌≡◌, ◌≢◌, refl,
  arith, Option-cases, inl, inr, ◌⊎◌, ◌∙◌, false,
}
use borg_collective.Base.Exec.{Outcome-cases, ok, err, panic, fatal}
use borg_collective.Base.Assoc.{Assoc, lookup, lookup-insert, lookup-erase}
use borg_collective.Container.Model.{ContainerBackup, ContainerBackupProject}
use borg_collective.Worker.Host.{Host}
use borg_collective.Worker.Creation.{new_project_job}
use borg_collective.Worker.Schedule.{
  Cron, Entry, Job, project_backup, Worker, remove_job, unschedule_project, add_project,
  schedule_docker_backup,
}

containers_cases {ℓ} :
    {V : Type ℓ} (m : Assoc V)
    → (m ≡ []) ⊎ ((entry : Bytes × V) × (rest : Assoc V) × (m ≡ entry ∷ rest))
containers_cases [] = inl refl
containers_cases (entry ∷ rest) = inr (entry, rest, refl)

module _ ⦃C : Cron⦄ where
  -- What the scheduler promises: a new job gets an id that is not in use, and a call touches the
  -- entry of one id only. Ids are not 0. Nothing is promised for a nil schedule.
  pub record IsCron : Type 0 where
    pub entry-remove :
        (id other : ℕ) (s : C.State)
        → C.entry other (C.remove id s) ≡ (if eqb id other then none else C.entry other s)
    pub entry-schedule :
        (schedule : C.Schedule) (job : Job C.Schedule) (other : ℕ) (s : C.State)
        → C.entry other (C.schedule (some schedule) job s).1 ≡ (
            if eqb (C.schedule (some schedule) job s).0 other
            then some (schedule, job)
            else C.entry other s)
    pub fresh :
        (schedule : C.Schedule) (job : Job C.Schedule) (s : C.State)
        → C.entry (C.schedule (some schedule) job s).0 s ≡ none
    pub nonzero :
        (schedule : C.Schedule) (job : Job C.Schedule) (s : C.State)
        → eqb (C.schedule (some schedule) job s).0 0 ≡ false

  -- The job that is scheduled for a project.
  abbrev pub job_of : Bytes → Worker → Option (Entry C.Schedule)
  job_of name w = elim (lookup name w.docker_job_ids) [
    | none ↦ none
    | some id ↦ C.entry id w.scheduler
  ]

  -- The id of each project is that of a job, and no two projects share one.
  pub record IsRegistered (w : Worker) : Type 0 where
    pub live :
        (name : Bytes) (id : ℕ)
        → lookup name w.docker_job_ids ≡ some id
        → C.entry id w.scheduler ≢ none
    pub apart :
        (name other : Bytes) (id : ℕ)
        → lookup name w.docker_job_ids ≡ some id
        → lookup other w.docker_job_ids ≡ some id
        → name ≡ other

  module _ (laws : IsCron) where
    unschedule_project-job_of :
        (name other : Bytes) (w : Worker)
        → IsRegistered w
        → job_of other (unschedule_project name w)
          ≡ (if name == other then none else job_of other w)
    unfolding unschedule_project remove_job
    unschedule_project-job_of name other w r = elim (Option-cases (lookup name w.docker_job_ids)) [
      | inl e ↦ ground (arith, ==_iff name other)
      | inr (id, e) ↦
          grind (arith, lookup-erase, laws.entry-remove, ==_iff name other, r.apart name other id)
    ]

    unschedule_project-IsRegistered :
        (name : Bytes) (w : Worker) → IsRegistered w → IsRegistered (unschedule_project name w)
    unfolding unschedule_project remove_job
    unschedule_project-IsRegistered name w r = elim (Option-cases (lookup name w.docker_job_ids)) [
      | inl e ↦ rw (e, unschedule_project) r
      | inr (id, e) ↦ record {
        live = λ other i found gone. grind (
          arith,
          lookup-erase,
          laws.entry-remove,
          ==_iff name other,
          r.live other i,
          r.apart name other i,
        );
        apart = λ a b i found found'.
            grind (arith, lookup-erase, ==_iff name a, ==_iff name b, r.apart a b i);
      }
    ]

    add_project-job_of :
        (project : ContainerBackupProject C.Schedule) (plan : List ContainerBackup) (other : Bytes)
        (w : Worker)
        → IsRegistered w
        → job_of other (add_project project plan w) ≡ (
            if project.project_name == other
            then some (project.schedule, project_backup project plan)
            else job_of other w)
    unfolding add_project
    add_project-job_of project plan other w r =
        let job = project_backup project plan in
        let id = (C.schedule (some project.schedule) job w.scheduler).0 in
        grind (
          arith,
          lookup-insert,
          laws.entry-schedule,
          laws.fresh project.schedule job w.scheduler,
          ==_iff project.project_name other,
          r.live other id,
        )

    add_project-IsRegistered :
        (project : ContainerBackupProject C.Schedule) (plan : List ContainerBackup) (w : Worker)
        → IsRegistered w
        → IsRegistered (add_project project plan w)
    unfolding add_project
    add_project-IsRegistered project plan w r =
        let job = project_backup project plan in
        let name = project.project_name in
        let id = (C.schedule (some project.schedule) job w.scheduler).0 in
        let fresh = laws.fresh project.schedule job w.scheduler in
        record {
          live = λ other i found gone.
              grind (arith, lookup-insert, laws.entry-schedule, ==_iff name other, r.live other i);
          apart = λ a b i found found'. grind (
            arith,
            lookup-insert,
            ==_iff name a,
            ==_iff name b,
            r.apart a b i,
            r.live a id,
            r.live b id,
            fresh,
          );
        }

    module _ ⦃H : Host⦄ where
      -- The job that a project is to have.
      abbrev pub intended : ContainerBackupProject C.Schedule → Option (Entry C.Schedule)
      intended project = elim project.containers [
        | [] ↦ none
        | _ ∷ _ ↦ elim (new_project_job project) [
          | ok plan ↦ some (project.schedule, project_backup project plan)
          | err e ↦ none
          | panic ↦ none
          | fatal ↦ none
        ]
      ]

      pub schedule_docker_backup-cases :
          (project : ContainerBackupProject C.Schedule) (w : Worker)
          → ((intended project ≡ none)
              × ((schedule_docker_backup project w).1 ≡ unschedule_project project.project_name w))
            ⊎ ((plan : List ContainerBackup) × (intended project
                  ≡ some (project.schedule, project_backup project plan))
                × ((schedule_docker_backup project w).1
                    ≡ add_project project plan (unschedule_project project.project_name w)))
      unfolding schedule_docker_backup
      schedule_docker_backup-cases project w = elim (containers_cases project.containers) [
        | inl e ↦ inl (ground (arith, e))
        | inr (entry, rest, e) ↦ elim (Outcome-cases (new_project_job project)) [
          | inl (plan, made) ↦ inr (plan, ground arith, ground arith)
          | inr (inl (x, failed)) ↦ inl (ground arith)
          | inr (inr (inl failed)) ↦ inl (ground arith)
          | inr (inr (inr failed)) ↦ inl (ground arith)
        ]
      ]

      pub schedule_docker_backup-job_of :
          (project : ContainerBackupProject C.Schedule) (other : Bytes) (w : Worker)
          → IsRegistered w
          → (job_of other (schedule_docker_backup project w).1
              ≡ (if project.project_name == other then intended project else job_of other w))
            × IsRegistered (schedule_docker_backup project w).1
      schedule_docker_backup-job_of project other w r =
          let name = project.project_name in
          let freed = unschedule_project-job_of name other w r in
          let r' = unschedule_project-IsRegistered name w r in
          elim (schedule_docker_backup-cases project w) [
            | inl (e, state) ↦ (rw (state, e) freed, rw state r')
            | inr (plan, e, state) ↦ (
              rw (state, e)
                  (add_project-job_of project plan other (unschedule_project name w) r'
                    ∙ ground (arith, freed)),
              rw state (add_project-IsRegistered project plan (unschedule_project name w) r'),
            )
          ]
