-- ===== src/Worker/Completion.antt =====
-- `Run` of a job of worker/container.go.
use borg_collective.Base.{
  codes, ℕ, ◌+◌, suc, leb, ◌&&◌, ◌||◌, not, length, Bool, true, false, none, some, List, [], ◌∷◌,
  ◌++◌, Bytes, ◌≡◌, refl, arith, Option-cases, inl, inr,
}
use borg_collective.Worker.Plans.{
  every, Permutes, has_mode, is_checked, is_checked-ok, every-perm, every-collect_plan,
  new_project_job-inv, new_project_job-validates,
}
use borg_collective.Base.Exec.{Outcome, ok, err, panic, fatal, Outcome-cases, on_error, ◌>>◌}
use borg_collective.Base.Assoc.{Assoc, values}
use borg_collective.Worker.Restarts.{are_restarted, run_project-restarts}
use borg_collective.Container.Model.{
  ContainerBackup, ContainerBackupProject, ContainerExecBackup, needs_backup,
}
use borg_collective.Container.Paths.{find_source_for_in_container_path}
use borg_collective.Worker.Host.{
  Host, J, Trace, Event, running, stopped, executed, created, commanded, warned, complete,
  is_returned, ensure_running, ensure_stopped, exec_in, note,
}
use borg_collective.Worker.Common.{less, archive_name, log_backup_complete}
use borg_collective.Worker.Projects.{
  or_warn, find_dependencies, find_dependents, ensure_all, source_paths, create_and_log,
  run_volume_backup, run_exec_output, run_exec_paths, run_exec_backup, run_either,
  ensure_dependencies, run_online_backup, run_offline_backup, run_dependent_offline_backup, run_one,
  run_plan, restart_all, run_project,
}
use borg_collective.Worker.Creation.{check_paths, check_exec, new_project_job}

-- The warnings and the messages of complete backups in the log.
abbrev pub count_messages : List Event → ℕ
count_messages [] = 0
count_messages (warned message ∷ events) = suc (count_messages events)
count_messages (complete x ∷ events) = suc (count_messages events)
count_messages (running x ∷ events) = count_messages events
count_messages (stopped x ∷ events) = count_messages events
count_messages (executed x args ∷ events) = count_messages events
count_messages (created x ∷ events) = count_messages events
count_messages (commanded args ∷ events) = count_messages events

abbrev is_ok : Outcome Bytes Unit → Bool
is_ok (ok _) = true
is_ok (err e) = false
is_ok panic = false
is_ok fatal = false

module _ ⦃H : Host⦄ where
  -- A step returns without an error, if it is not stuck, and if it returns so it has logged at least
  -- so many messages.
  abbrev reports : ℕ → Trace → Outcome Bytes Unit × Trace → Bool
  reports n t (r, t') =
      (t'.is_stuck || is_ok r)
      && (not (is_ok r) || leb (count_messages t.events + n) (count_messages t'.events))

  -- A step comes back, if it is not stuck, and keeps the messages.
  abbrev comes_back : {A : Type 0} → Trace → Outcome Bytes A × Trace → Bool
  comes_back t (r, t') =
      (t'.is_stuck || is_returned r) && leb (count_messages t.events) (count_messages t'.events)

  -- One step and then another.
  seq_reports :
      (a b : ℕ) (first next : J Unit) (t : Trace)
      → reports a t (first t) ≡ true
      → reports b (first t).1 (next (first t).1) ≡ true
      → reports (a + b) t ((do first; next) t) ≡ true
  seq_reports a b first next t h k = elim (Outcome-cases (first t).0) [
    | inl (x, e) ↦ ground (arith, h, k)
    | inr (inl (x, e)) ↦ ground (arith, h)
    | inr (inr (inl e)) ↦ ground (arith, h)
    | inr (inr (inr e)) ↦ ground (arith, h)
  ]

  volume_reports :
      (ctnr : ContainerBackup) (name : Bytes) (t : Trace)
      → reports 1 t (run_volume_backup ctnr name t) ≡ true
  unfolding run_volume_backup archive_name log_backup_complete
  volume_reports ctnr name t = ground arith

  output_reports :
      (ctnr : ContainerBackup) (exec : ContainerExecBackup) (name : Bytes) (t : Trace)
      → reports 1 t (run_exec_output ctnr exec name t) ≡ true
  unfolding run_exec_output archive_name log_backup_complete
  output_reports ctnr exec name t = ground arith

  create_reports :
      (name : Bytes) (paths : List Bytes) (t : Trace)
      → reports 1 t (create_and_log name paths t) ≡ true
  unfolding create_and_log archive_name log_backup_complete
  create_reports name paths t = ground arith

  source_paths-ok :
      (ctnr : ContainerBackup) (c_paths : List Bytes) (t : Trace)
      → check_paths ctnr c_paths ≡ ok tt
      → (paths : List Bytes) × (source_paths ctnr c_paths t ≡ (ok paths, t))
  unfolding source_paths check_paths
  source_paths-ok ctnr [] t h = ([], refl)
  source_paths-ok ctnr (c_path ∷ c_paths) t h =
      let (rest, e) = source_paths-ok ctnr c_paths t (ground (arith, h)) in
      elim (Outcome-cases (find_source_for_in_container_path ctnr c_path)) [
        | inl (some path, found) ↦ (path ∷ rest, ground (arith, e))
        | inl (none, found) ↦ absurd (ground (arith, h))
        | inr (inl (x, found)) ↦ absurd (ground (arith, h))
        | inr (inr (inl found)) ↦ absurd (ground (arith, h))
        | inr (inr (inr found)) ↦ absurd (ground (arith, h))
      ]

  exec_paths_reports :
      (ctnr : ContainerBackup) (exec : ContainerExecBackup) (name : Bytes) (t : Trace)
      → check_paths ctnr exec.paths ≡ ok tt
      → reports 1 t (run_exec_paths ctnr exec name t) ≡ true
  unfolding run_exec_paths
  exec_paths_reports ctnr exec name t h =
      let called = (exec_in ctnr.id exec.command t).1 in
      let (paths, e) = source_paths-ok ctnr exec.paths called h in
      ground (arith, create_reports name paths called, e)

  either_reports :
      (ctnr : ContainerBackup) (name : Bytes) (t : Trace)
      → check_exec ctnr ≡ ok tt
      → reports 1 t (run_either ctnr name t) ≡ true
  unfolding run_either run_exec_backup check_exec
  either_reports ctnr name t h = elim (Option-cases ctnr.exec) [
    | inl e ↦ ground (arith, volume_reports ctnr name t)
    | inr (exec, e) ↦
        ground (arith, output_reports ctnr exec name t, exec_paths_reports ctnr exec name t)
  ]

  all_running-comes_back :
      (ctnrs : List ContainerBackup) (t : Trace)
      → comes_back t (ensure_all ensure_running ctnrs t) ≡ true
  unfolding ensure_all
  all_running-comes_back [] t = ground arith
  all_running-comes_back (ctnr ∷ ctnrs) t =
      ground (arith, all_running-comes_back ctnrs (ensure_running ctnr.id t).1)

  all_stopped-comes_back :
      (ctnrs : List ContainerBackup) (t : Trace)
      → comes_back t (ensure_all ensure_stopped ctnrs t) ≡ true
  unfolding ensure_all
  all_stopped-comes_back [] t = ground arith
  all_stopped-comes_back (ctnr ∷ ctnrs) t =
      ground (arith, all_stopped-comes_back ctnrs (ensure_stopped ctnr.id t).1)

  -- A step, and what follows it where the step succeeds.
  or_warn-reports :
      {A : Type 0} (message : Bytes) (step : J A) (next : A → J Unit) (t : Trace)
      → comes_back t (step t) ≡ true
      → ((a : A) → reports 1 (step t).1 (next a (step t).1) ≡ true)
      → reports 1 t (or_warn message step next t) ≡ true
  or_warn-reports message step next t r h = elim (Outcome-cases (step t).0) [
    | inl (a, e) ↦ ground (arith, h a)
    | inr (inl (x, e)) ↦ ground (arith, r)
    | inr (inr (inl e)) ↦ ground (arith, r)
    | inr (inr (inr e)) ↦ ground (arith, r)
  ]

  dependencies_reports :
      (containers : Assoc ContainerBackup) (ctnr : ContainerBackup) (next : J Unit) (t : Trace)
      → ((t' : Trace) → reports 1 t' (next t') ≡ true)
      → reports 1 t (ensure_dependencies containers ctnr next t) ≡ true
  unfolding ensure_dependencies
  dependencies_reports containers ctnr next t h =
      let dependencies = find_dependencies containers ctnr.dependencies in
      or_warn-reports _ (ensure_all ensure_running dependencies) (λ _. next) t
        (all_running-comes_back dependencies t) (λ _. h _)

  online_reports :
      (containers : Assoc ContainerBackup) (ctnr : ContainerBackup) (name : Bytes) (t : Trace)
      → check_exec ctnr ≡ ok tt
      → reports 1 t (run_online_backup containers ctnr name t) ≡ true
  unfolding run_online_backup
  online_reports containers ctnr name t h =
      or_warn-reports _ (ensure_running ctnr.id) _ t (ground arith)
        λ _. dependencies_reports containers ctnr _ _ λ t'. either_reports ctnr name t' h

  offline_reports :
      (ctnr : ContainerBackup) (name : Bytes) (t : Trace)
      → reports 1 t (run_offline_backup ctnr name t) ≡ true
  unfolding run_offline_backup
  offline_reports ctnr name t =
      or_warn-reports _ (ensure_stopped ctnr.id) _ t (ground arith) λ _. volume_reports ctnr name _

  dependent_offline_reports :
      (containers : Assoc ContainerBackup) (ctnr : ContainerBackup) (name : Bytes) (t : Trace)
      → check_exec ctnr ≡ ok tt
      → reports 1 t (run_dependent_offline_backup containers ctnr name t) ≡ true
  unfolding run_dependent_offline_backup
  dependent_offline_reports containers ctnr name t h =
      let dependents = find_dependents (values containers) ctnr.service_name in
      or_warn-reports _ (ensure_running ctnr.id) _ t (ground arith) λ _.
        dependencies_reports containers ctnr _ _ λ t'.
          or_warn-reports _ (ensure_all ensure_stopped dependents) _ t'
            (all_stopped-comes_back dependents t') (λ _. either_reports ctnr name _ h)

  run_one-reports :
      (containers : Assoc ContainerBackup) (project_name : Bytes) (ctnr : ContainerBackup)
      (t : Trace)
      → needs_backup ctnr ≡ true
      → has_mode ctnr ≡ true
      → is_checked ctnr ≡ true
      → reports 1 t (run_one containers project_name ctnr t) ≡ true
  unfolding run_one
  run_one-reports containers project_name ctnr t n m c =
      let name = project_name ++ (b'-' ∷ ctnr.service_name) in
      ground (
        arith,
        is_checked-ok ctnr,
        online_reports containers ctnr name t,
        offline_reports ctnr name t,
        dependent_offline_reports containers ctnr name t,
      )

  run_plan-reports :
      (containers : Assoc ContainerBackup) (project_name : Bytes) (plan : List ContainerBackup)
      (t : Trace)
      → every needs_backup plan ≡ true
      → every has_mode plan ≡ true
      → every is_checked plan ≡ true
      → reports (length plan) t (run_plan containers project_name plan t) ≡ true
  unfolding run_plan
  run_plan-reports containers project_name [] t n m c = ground arith
  run_plan-reports containers project_name (ctnr ∷ plan) t n m c =
      let first = run_one containers project_name ctnr in
      let one = run_one-reports containers project_name ctnr t in
      let more = run_plan-reports containers project_name plan (first t).1 in
      ground (
        arith,
        seq_reports 1 (length plan) first (run_plan containers project_name plan) t
            (ground (arith, one, n, m, c)) (ground (arith, more, n, m, c)),
      )

  restart_all-reports :
      (ctnrs : List ContainerBackup) (t : Trace) → reports 0 t (restart_all ctnrs t) ≡ true
  unfolding restart_all
  restart_all-reports [] t = ground arith
  restart_all-reports (ctnr ∷ ctnrs) t =
      let warning = codes "failed to ensure container running after backup" in
      let first : J Unit = on_error (ensure_running ctnr.id) (λ _. note (warned warning)) in
      seq_reports 0 0 first (restart_all ctnrs) t (ground arith)
        (restart_all-reports ctnrs (first t).1)

  run_both :
      {S : Type 0} (project : ContainerBackupProject S) (plan : List ContainerBackup) (t : Trace)
      → reports (length plan) t (run_plan project.containers project.project_name plan t) ≡ true
      → reports (length plan) t (run_project project plan t) ≡ true
  unfolding run_project
  run_both project plan t h =
      let planned = run_plan project.containers project.project_name plan in
      ground (
        arith,
        seq_reports (length plan) 0 planned (restart_all (values project.containers)) t h
            (restart_all-reports (values project.containers) (planned t).1),
      )

  -- Let `sort.Sort` permute, the modes of the containers be named ones and
  -- `newContainerProjectBackupJob` have made the plan. If no call that `Run` makes panics or fails to
  -- end, then `Run` returns without a panic, whatever calls come back with an error; it logs at least
  -- as many warnings and complete backups as the plan has containers; and for every container of
  -- the project a call to make it run follows the last call that stops any container.
  pub run_project_completes :
      {S : Type 0} (project : ContainerBackupProject S) (plan : List ContainerBackup) (t : Trace)
      → Permutes
      → every has_mode (values project.containers) ≡ true
      → new_project_job project ≡ ok plan
      → (run_project project plan t).1.is_stuck ≡ false
      → ((run_project project plan t).0 ≡ ok tt)
        × (leb
              (count_messages t.events + length plan)
              (count_messages (run_project project plan t).1.events)
            ≡ true)
        × (are_restarted (values project.containers) (run_project project plan t).1.events ≡ true)
  run_project_completes project plan t sorts modes made free =
      let (checked, planned) = new_project_job-inv project plan made in
      let needed = (new_project_job-validates project plan sorts made).1 in
      let in_plan : (p : ContainerBackup → Bool)
          → every p (values project.containers) ≡ true
          → every p plan ≡ true =
        λ p h.
          rw planned
            (every-perm p (sorts less _) (every-collect_plan p (values project.containers) h)) in
      let planned_run =
        run_plan-reports project.containers project.project_name plan t needed
          (in_plan has_mode modes) (in_plan is_checked checked) in
      let run = run_both project plan t planned_run in
      let done : (run_project project plan t).0 ≡ ok tt = ground (arith, run, free) in
      (done, ground (arith, run, free), run_project-restarts project plan t done)
