-- ===== src/Worker/Kinds.antt =====
-- Which entries of the scheduler the methods of worker/worker.go leave alone, by the kind of their
-- jobs.
use borg_collective.Base.{
  ℕ, Bool, true, false, ◌&&◌, ◌||◌, Option, none, some, List, [], ◌∷◌, ◌≡◌, refl, ap, ◌∙◌, arith,
  eqb,
}
use borg_collective.Worker.Static.{BackupConfig}
use borg_collective.Worker.Schedule.{
  Cron, Entry, Job, compaction, static_backup, project_backup, Worker, remove_job, remove_jobs,
  add_static, schedule_static_backups,
}
use borg_collective.Worker.Registry.{IsCron}
use borg_collective.Worker.Statics.{jobs_at, static_jobs, all_scheduled}

abbrev pub kind : {S : Type 0} → Option (Entry S) → ℕ
kind none = 0
kind (some (schedule, compaction)) = 1
kind (some (schedule, static_backup backup)) = 2
kind (some (schedule, project_backup project plan)) = 3

module _ ⦃C : Cron⦄ where
  -- The entries of a kind are the same in the second state.
  abbrev pub Keeps : ℕ → C.State → C.State → Type 0
  Keeps k s s' = (id : ℕ) → kind (C.entry id s) ≡ k → C.entry id s' ≡ C.entry id s

  abbrev pub all_kind : ℕ → List ℕ → C.State → Bool
  all_kind k [] s = true
  all_kind k (id ∷ ids) s = eqb (kind (C.entry id s)) k && all_kind k ids s

  pub Keeps-trans : (k : ℕ) (s t u : C.State) → Keeps k s t → Keeps k t u → Keeps k s u
  Keeps-trans k s t u a b id h = b id (ap kind (a id h) ∙ h) ∙ a id h

  pub jobs_at-Keeps :
      (k : ℕ) (ids : List ℕ) (s t : C.State)
      → Keeps k s t
      → all_kind k ids s ≡ true
      → (jobs_at ids t ≡ jobs_at ids s) × (all_kind k ids t ≡ true)
  jobs_at-Keeps k [] s t keeps h = (refl, refl)
  jobs_at-Keeps k (id ∷ ids) s t keeps h =
      let (same, all) = jobs_at-Keeps k ids s t keeps (ground (arith, h)) in
      let one = keeps id (ground (arith, h)) in
      (ground (arith, same, one), ground (arith, h, all, one))

  pub all_kind-static_jobs :
      (ids : List ℕ) (backups : List (BackupConfig × Option C.Schedule)) (s : C.State)
      → all_scheduled backups ≡ true
      → jobs_at ids s ≡ static_jobs backups
      → all_kind 2 ids s ≡ true
  all_kind-static_jobs [] backups s full h = refl
  all_kind-static_jobs (id ∷ ids) [] s full h = absurd (ground (arith, h))
  all_kind-static_jobs (id ∷ ids) ((backup, none) ∷ backups) s full h =
      absurd (ground (arith, full))
  all_kind-static_jobs (id ∷ ids) ((backup, some schedule) ∷ backups) s full h =
      ground (arith, h, all_kind-static_jobs ids backups s full)

  module _ (laws : IsCron) where
    pub Keeps-remove :
        (k id : ℕ) (s : C.State) → eqb (kind (C.entry id s)) k ≡ false → Keeps k s (C.remove id s)
    Keeps-remove k id s h other same = ground (arith, laws.entry-remove id other s, h, same)

    pub Keeps-schedule :
        (k : ℕ) (schedule : C.Schedule) (job : Job C.Schedule) (s : C.State)
        → eqb k 0 ≡ false
        → Keeps k s (C.schedule (some schedule) job s).1
    Keeps-schedule k schedule job s h other same =
        ground (arith, laws.entry-schedule schedule job other s, laws.fresh schedule job s, h, same)

    -- Entries that are static or gone.
    abbrev are_static : List ℕ → C.State → Bool
    are_static [] s = true
    are_static (id ∷ ids) s =
        (eqb (kind (C.entry id s)) 2 || eqb (kind (C.entry id s)) 0) && are_static ids s

    are_static-all_kind :
        (ids : List ℕ) (s : C.State) → all_kind 2 ids s ≡ true → are_static ids s ≡ true
    are_static-all_kind [] s h = refl
    are_static-all_kind (id ∷ ids) s h = ground (arith, are_static-all_kind ids s, h)

    are_static-remove :
        (id : ℕ) (ids : List ℕ) (s : C.State)
        → are_static ids s ≡ true
        → are_static ids (C.remove id s) ≡ true
    are_static-remove id [] s h = refl
    are_static-remove id (other ∷ ids) s h =
        ground (arith, laws.entry-remove id other s, are_static-remove id ids s, h)

    Keeps-remove_jobs :
        (k : ℕ) (ids : List ℕ) (w : Worker)
        → are_static ids w.scheduler ≡ true
        → eqb k 0 ≡ false
        → eqb k 2 ≡ false
        → Keeps k w.scheduler (remove_jobs ids w).scheduler
    unfolding remove_jobs remove_job
    Keeps-remove_jobs k [] w h z t = λ id same. refl
    Keeps-remove_jobs k (id ∷ ids) w h z t =
        let after = C.remove id w.scheduler in
        Keeps-trans k w.scheduler after _ (Keeps-remove k id w.scheduler (ground (arith, h, z, t)))
          (Keeps-remove_jobs k ids (remove_job id w)
            (are_static-remove id ids w.scheduler (ground (arith, h))) z t)

    Keeps-add_static :
        (k : ℕ) (backups : List (BackupConfig × Option C.Schedule)) (w : Worker)
        → all_scheduled backups ≡ true
        → eqb k 0 ≡ false
        → Keeps k w.scheduler (add_static backups w).scheduler
    unfolding add_static
    Keeps-add_static k [] w full z = λ id same. refl
    Keeps-add_static k ((backup, none) ∷ backups) w full z = absurd (ground (arith, full))
    Keeps-add_static k ((backup, some schedule) ∷ backups) w full z =
        let (id, scheduler) = C.schedule (some schedule) (static_backup backup) w.scheduler in
        Keeps-trans k w.scheduler scheduler _
          (Keeps-schedule k schedule (static_backup backup) w.scheduler z)
          (Keeps-add_static k backups _ full z)

    pub Keeps-static_backups :
        (k : ℕ) (backups : List (BackupConfig × Option C.Schedule)) (w : Worker)
        → all_scheduled backups ≡ true
        → all_kind 2 w.static_job_ids w.scheduler ≡ true
        → eqb k 0 ≡ false
        → eqb k 2 ≡ false
        → Keeps k w.scheduler (schedule_static_backups backups w).scheduler
    unfolding schedule_static_backups
    Keeps-static_backups k backups w full h z t =
        let removed = remove_jobs w.static_job_ids w in
        Keeps-trans k w.scheduler removed.scheduler _
          (Keeps-remove_jobs k w.static_job_ids w
            (are_static-all_kind w.static_job_ids w.scheduler h) z t)
          (Keeps-add_static k backups (record removed { static_job_ids = [] }) full z)
