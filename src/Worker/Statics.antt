-- ===== src/Worker/Statics.antt =====
-- `ScheduleStaticBackups` of worker/worker.go.
use borg_collective.Base.{
  ℕ, Bool, true, false, ◌&&◌, Option, none, some, List, [], ◌∷◌, ◌++◌, ◌≡◌, refl, ap, ◌∙◌, sym,
  arith,
}
use mathlib.Core.List.{append-nil}
use borg_collective.Worker.Static.{BackupConfig}
use borg_collective.Worker.Schedule.{
  Cron, Entry, Job, static_backup, Worker, add_static, schedule_static_backups,
}
use borg_collective.Worker.Registry.{IsCron}

module _ ⦃C : Cron⦄ where
  -- The jobs of the ids.
  abbrev pub jobs_at : List ℕ → C.State → List (Option (Entry C.Schedule))
  jobs_at [] s = []
  jobs_at (id ∷ ids) s = C.entry id s ∷ jobs_at ids s

  abbrev pub static_jobs :
      List (BackupConfig × Option C.Schedule) → List (Option (Entry C.Schedule))
  static_jobs [] = []
  static_jobs ((backup, none) ∷ backups) = none ∷ static_jobs backups
  static_jobs ((backup, some schedule) ∷ backups) =
      some (schedule, static_backup backup) ∷ static_jobs backups

  -- No schedule is nil.
  abbrev pub all_scheduled : List (BackupConfig × Option C.Schedule) → Bool
  all_scheduled [] = true
  all_scheduled ((backup, none) ∷ backups) = false
  all_scheduled ((backup, some schedule) ∷ backups) = all_scheduled backups

  abbrev is_live : Option (Entry C.Schedule) → Bool
  is_live none = false
  is_live (some job) = true

  abbrev all_live : List ℕ → C.State → Bool
  all_live [] s = true
  all_live (id ∷ ids) s = is_live (C.entry id s) && all_live ids s

  module _ (laws : IsCron) where
    pub keeps_jobs :
        (ids : List ℕ) (schedule : C.Schedule) (job : Job C.Schedule) (s : C.State)
        → all_live ids s ≡ true
        → (jobs_at ids (C.schedule (some schedule) job s).1 ≡ jobs_at ids s)
          × (all_live ids (C.schedule (some schedule) job s).1 ≡ true)
    keeps_jobs [] schedule job s h = (refl, refl)
    keeps_jobs (id ∷ ids) schedule job s h =
        let (same, live) = keeps_jobs ids schedule job s (ground (arith, h)) in
        (
          grind (arith, same, laws.entry-schedule schedule job id s, laws.fresh schedule job s),
          grind (arith, live, laws.entry-schedule schedule job id s, laws.fresh schedule job s),
        )

    jobs_at-append :
        (ids more : List ℕ) (s : C.State)
        → jobs_at (ids ++ more) s ≡ jobs_at ids s ++ jobs_at more s
    jobs_at-append [] more s = refl
    jobs_at-append (id ∷ ids) more s = ap (◌∷◌ (C.entry id s)) (jobs_at-append ids more s)

    all_live-append :
        (ids : List ℕ) (id : ℕ) (s : C.State)
        → all_live ids s ≡ true
        → is_live (C.entry id s) ≡ true
        → all_live (ids ++ (id ∷ [])) s ≡ true
    all_live-append [] id s h l = ground (arith, l)
    all_live-append (i ∷ ids) id s h l = ground (arith, all_live-append ids id s)

    append-assoc_one :
        (xs ys : List (Option (Entry C.Schedule))) (x : Option (Entry C.Schedule))
        → (xs ++ (x ∷ [])) ++ ys ≡ xs ++ (x ∷ ys)
    append-assoc_one [] ys x = refl
    append-assoc_one (y ∷ xs) ys x = ap (◌∷◌ y) (append-assoc_one xs ys x)

    add_static-jobs :
        (backups : List (BackupConfig × Option C.Schedule)) (w : Worker)
        → all_scheduled backups ≡ true
        → all_live w.static_job_ids w.scheduler ≡ true
        → jobs_at (add_static backups w).static_job_ids (add_static backups w).scheduler
          ≡ jobs_at w.static_job_ids w.scheduler ++ static_jobs backups
    unfolding add_static
    add_static-jobs [] w full h = sym (append-nil _)
    add_static-jobs ((backup, none) ∷ backups) w full h = absurd (ground (arith, full))
    add_static-jobs ((backup, some schedule) ∷ backups) w full h =
        let job = static_backup backup in
        let (id, scheduler) = C.schedule (some schedule) job w.scheduler in
        let w' : Worker = record w {
          scheduler = scheduler;
          static_job_ids = w.static_job_ids ++ (id ∷ []);
        } in
        let (same, live) = keeps_jobs w.static_job_ids schedule job w.scheduler h in
        let new : C.entry id scheduler ≡ some (schedule, job) =
          ground (arith, laws.entry-schedule schedule job id w.scheduler) in
        let rest =
          add_static-jobs backups w' full
            (all_live-append w.static_job_ids id scheduler live (ground (arith, new))) in
        rest
        ∙ ap (λ jobs. jobs ++ static_jobs backups)
            (jobs_at-append w.static_job_ids (id ∷ []) scheduler
              ∙ ap (λ jobs. jobs ++ (C.entry id scheduler ∷ [])) same
              ∙ ap (λ job. jobs_at w.static_job_ids w.scheduler ++ (job ∷ [])) new)
        ∙ append-assoc_one (jobs_at w.static_job_ids w.scheduler) (static_jobs backups)
            (some (schedule, static_backup backup))

    -- If the scheduler keeps its promises and no schedule is nil, the jobs that the worker has registered as static after
    -- `ScheduleStaticBackups` are exactly those of the given backups, at their schedules and in their order, whatever was
    -- registered before.
    pub schedule_static_backups-jobs :
        (backups : List (BackupConfig × Option C.Schedule)) (w : Worker)
        → all_scheduled backups ≡ true
        → jobs_at
            (schedule_static_backups backups w).static_job_ids
            (schedule_static_backups backups w).scheduler
          ≡ static_jobs backups
    unfolding schedule_static_backups
    schedule_static_backups-jobs backups w full = add_static-jobs backups _ full refl
