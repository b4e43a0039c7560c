-- ===== src/Worker/Separate.antt =====
-- The ids that a worker of worker/worker.go keeps, after its methods for compaction and static backups.
use borg_collective.Base.{
  ℕ, true, false, Option, some, none, if◌then◌else◌, List, [], ◌∷◌, Bytes, ◌≡◌, refl, ap, ◌∙◌,
  arith, eqb, inl, inr, Option-cases,
}
use borg_collective.Base.Assoc.{lookup}
use borg_collective.Worker.Static.{BackupConfig}
use borg_collective.Worker.Schedule.{
  Cron, Entry, compaction, Worker, remove_job, remove_jobs, schedule_repo_compaction, add_static,
  schedule_static_backups,
}
use borg_collective.Worker.Registry.{IsCron, IsRegistered}
use borg_collective.Worker.Statics.{all_scheduled, schedule_static_backups-jobs}
use borg_collective.Worker.Kinds.{
  kind, Keeps, all_kind, jobs_at-Keeps, all_kind-static_jobs, Keeps-static_backups,
}

module _ ⦃C : Cron⦄ where
  -- The ids that the worker keeps are those of jobs of their kinds, and no two projects share one.
  pub record IsSeparate (w : Worker) : Type 0 where
    pub statics : all_kind 2 w.static_job_ids w.scheduler ≡ true
    pub dockers :
        (name : Bytes) (id : ℕ)
        → lookup name w.docker_job_ids ≡ some id
        → kind (C.entry id w.scheduler) ≡ 3
    pub compacts : eqb w.compact_job_id 0 ≡ false → kind (C.entry w.compact_job_id w.scheduler) ≡ 1
    pub apart :
        (name other : Bytes) (id : ℕ)
        → lookup name w.docker_job_ids ≡ some id
        → lookup other w.docker_job_ids ≡ some id
        → name ≡ other

  pub IsSeparate-IsRegistered : (w : Worker) → IsSeparate w → IsRegistered w
  IsSeparate-IsRegistered w r = record {
    live = λ name id found gone. ground (arith, r.dockers name id, found, gone);
    apart = r.apart;
  }

  module _ (laws : IsCron) where
    pub repo_compaction-Keeps :
        (k : ℕ) (schedule : Option C.Schedule) (w : Worker)
        → IsSeparate w
        → eqb k 0 ≡ false
        → eqb k 1 ≡ false
        → Keeps k w.scheduler (schedule_repo_compaction schedule w).scheduler
    unfolding schedule_repo_compaction remove_job
    repo_compaction-Keeps k schedule w r z t id same =
        let removed = C.remove w.compact_job_id w.scheduler in
        elim (Option-cases schedule) [
          | inl e ↦
              ground (
                arith,
                e,
                z,
                t,
                same,
                r.compacts,
                laws.entry-remove w.compact_job_id id w.scheduler,
              )
          | inr (sc, e) ↦ ground (
            arith,
            e,
            z,
            t,
            same,
            r.compacts,
            laws.entry-remove w.compact_job_id id w.scheduler,
            laws.entry-schedule sc compaction id w.scheduler,
            laws.entry-schedule sc compaction id removed,
            laws.fresh sc compaction w.scheduler,
            laws.fresh sc compaction removed,
          )
        ]

    repo_compaction-compacts :
        (schedule : Option C.Schedule) (w : Worker)
        → let w' = schedule_repo_compaction schedule w in
          eqb w'.compact_job_id 0 ≡ false → kind (C.entry w'.compact_job_id w'.scheduler) ≡ 1
    unfolding schedule_repo_compaction remove_job
    repo_compaction-compacts schedule w h =
        let removed = C.remove w.compact_job_id w.scheduler in
        elim (Option-cases schedule) [
          | inl e ↦ absurd (ground (arith, e, h))
          | inr (sc, e) ↦
              let id = (C.schedule (some sc) compaction w.scheduler).0 in
              let id' = (C.schedule (some sc) compaction removed).0 in
              ground (
                arith,
                e,
                h,
                laws.entry-schedule sc compaction id w.scheduler,
                laws.entry-schedule sc compaction id' removed,
              )
        ]

    -- What stands under the id of the compaction job, if there is one.
    abbrev pub compaction_of : Worker → Option (Entry C.Schedule)
    compaction_of w = if eqb w.compact_job_id 0 then none else C.entry w.compact_job_id w.scheduler

    -- The entry of the compaction job for a schedule that may be nil.
    abbrev pub compaction_entry : Option C.Schedule → Option (Entry C.Schedule)
    compaction_entry none = none
    compaction_entry (some schedule) = some (schedule, compaction)

    pub repo_compaction-compaction_of :
        (schedule : Option C.Schedule) (w : Worker)
        → compaction_of (schedule_repo_compaction schedule w) ≡ compaction_entry schedule
    unfolding schedule_repo_compaction remove_job
    repo_compaction-compaction_of none w = ground arith
    repo_compaction-compaction_of (some sc) w =
        let removed = C.remove w.compact_job_id w.scheduler in
        let id = (C.schedule (some sc) compaction w.scheduler).0 in
        let id' = (C.schedule (some sc) compaction removed).0 in
        ground (
          arith,
          laws.nonzero sc compaction w.scheduler,
          laws.nonzero sc compaction removed,
          laws.entry-schedule sc compaction id w.scheduler,
          laws.entry-schedule sc compaction id' removed,
        )

    pub repo_compaction-ids :
        (schedule : Option C.Schedule) (w : Worker)
        → ((schedule_repo_compaction schedule w).static_job_ids ≡ w.static_job_ids)
          × ((schedule_repo_compaction schedule w).docker_job_ids ≡ w.docker_job_ids)
    unfolding schedule_repo_compaction remove_job
    repo_compaction-ids schedule w = ground arith

    pub repo_compaction-IsSeparate :
        (schedule : Option C.Schedule) (w : Worker)
        → IsSeparate w
        → IsSeparate (schedule_repo_compaction schedule w)
    repo_compaction-IsSeparate schedule w r =
        let ids = repo_compaction-ids schedule w in
        record {
          statics =
              rw (ids.0)
                (jobs_at-Keeps 2 w.static_job_ids w.scheduler _
                  (repo_compaction-Keeps 2 schedule w r refl refl) r.statics).1;
          dockers = λ name id found.
              let before = r.dockers name id (ground (arith, found, ids)) in
              ground (arith, before, repo_compaction-Keeps 3 schedule w r refl refl id before);
          compacts = repo_compaction-compacts schedule w;
          apart = λ name other id found found'.
              ground (arith, r.apart name other id, ids, found, found');
        }

    remove_jobs-ids :
        (ids : List ℕ) (w : Worker)
        → ((remove_jobs ids w).docker_job_ids ≡ w.docker_job_ids)
          × ((remove_jobs ids w).compact_job_id ≡ w.compact_job_id)
    unfolding remove_jobs remove_job
    remove_jobs-ids [] w = (refl, refl)
    remove_jobs-ids (id ∷ ids) w = remove_jobs-ids ids _

    add_static-ids :
        (backups : List (BackupConfig × Option C.Schedule)) (w : Worker)
        → ((add_static backups w).docker_job_ids ≡ w.docker_job_ids)
          × ((add_static backups w).compact_job_id ≡ w.compact_job_id)
    unfolding add_static
    add_static-ids [] w = (refl, refl)
    add_static-ids ((backup, schedule) ∷ backups) w = add_static-ids backups _

    pub static_backups-ids :
        (backups : List (BackupConfig × Option C.Schedule)) (w : Worker)
        → ((schedule_static_backups backups w).docker_job_ids ≡ w.docker_job_ids)
          × ((schedule_static_backups backups w).compact_job_id ≡ w.compact_job_id)
    unfolding schedule_static_backups
    static_backups-ids backups w =
        let removed = remove_jobs-ids w.static_job_ids w in
        let added =
          add_static-ids backups
            (record (remove_jobs w.static_job_ids w) { static_job_ids = [] }) in
        (added.0 ∙ removed.0, added.1 ∙ removed.1)

    pub static_backups-IsSeparate :
        (backups : List (BackupConfig × Option C.Schedule)) (w : Worker)
        → all_scheduled backups ≡ true
        → IsSeparate w
        → IsSeparate (schedule_static_backups backups w)
    static_backups-IsSeparate backups w full r =
        let ids = static_backups-ids backups w in
        let keeps = λ (k : ℕ). Keeps-static_backups laws k backups w full r.statics in
        record {
          statics =
              all_kind-static_jobs _ backups _ full
                (schedule_static_backups-jobs laws backups w full);
          dockers = λ name id found.
              let before = r.dockers name id (ground (arith, found, ids)) in
              ground (arith, before, keeps 3 refl refl id before);
          compacts = λ h.
              let before = r.compacts (ground (arith, h, ids)) in
              rw (ids.1) (ap kind (keeps 1 refl refl w.compact_job_id before) ∙ before);
          apart = λ name other id found found'.
              ground (arith, r.apart name other id, ids, found, found');
        }
