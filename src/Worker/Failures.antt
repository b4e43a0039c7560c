-- ===== src/Worker/Failures.antt =====
-- Failing calls in jobs of worker/container.go and worker/static.go, and the order of a plan.
use borg_collective.Base.{Bool, ◌||◌, true, false, ltb, List, ◌∷◌, ◌++◌, Bytes, codes, ◌≡◌, arith}
use borg_collective.Base.Exec.{Outcome, ok, err, panic, fatal}
use borg_collective.Container.Model.{ContainerBackup, ContainerExecBackup}
use borg_collective.Worker.Host.{
  Host, Trace, Event, created, warned, complete, executed, command, is_returned,
}
use borg_collective.Worker.Common.{contains, less, normalize, archive_name, log_backup_complete}
use borg_collective.Worker.Projects.{create_and_log, run_exec_paths, source_paths}

-- `Less` is no strict order: where one container depends on another of a lower mode, each of the two
-- is less than the other.
pub less_both_ways :
    (a b : ContainerBackup)
    → contains a.dependencies b.service_name ≡ true
    → ltb b.mode a.mode ≡ true
    → (less a b ≡ true) × (less b a ≡ true)
unfolding less
less_both_ways a b depends lower = (ground arith, ground arith)

module _ ⦃H : Host⦄ where
  -- If the command succeeds, every path has a source, and `CreateWithPaths` fails, then the backup of
  -- the paths of a command logs a warning and then, last, that the backup is complete.
  pub failed_exec_backup_logs_complete :
      (ctnr : ContainerBackup) (exec : ContainerExecBackup) (name e : Bytes) (paths : List Bytes)
      (t : Trace)
      → (H.exec ctnr.id exec.command t.host).0 ≡ ok tt
      → (source_paths ctnr exec.paths (record {
        host = (H.exec ctnr.id exec.command t.host).1;
        events = executed ctnr.id exec.command ∷ t.events;
        is_stuck = t.is_stuck;
      })).0
        ≡ ok paths
      → ((archive : Bytes) (s : H.State) → (H.create_with_paths archive paths s).0 ≡ err e)
      → (archive : Bytes) × (before : List Event) × ((run_exec_paths ctnr exec name t).1.events
          ≡ complete name ∷ warned (codes "backup failed") ∷ created archive ∷ before)
  unfolding run_exec_paths create_and_log archive_name log_backup_complete
  failed_exec_backup_logs_complete ctnr exec name e paths t run sources failing =
      let called : Trace = record {
        host = (H.exec ctnr.id exec.command t.host).1;
        events = executed ctnr.id exec.command ∷ t.events;
        is_stuck = t.is_stuck;
      } in
      let ready = (source_paths ctnr exec.paths called).1 in
      let archive = normalize false name ++ (b'-' ∷ H.timestamp ready.host) in
      (archive, ready.events, ground (arith, failing archive ready.host))

module _ ⦃H : Host⦄ where
  -- A step comes back, if it is not stuck.
  abbrev comes_back : Outcome Bytes Unit × Trace → Bool
  comes_back (r, t) = t.is_stuck || is_returned r

  abbrev is_ok : Outcome Bytes Unit → Bool
  is_ok (ok _) = true
  is_ok (err e) = false
  is_ok panic = false
  is_ok fatal = false
