-- ===== src/Worker/Restarts.antt =====
-- The end of `Run` of worker/container.go.
use borg_collective.Base.{
  Bool, true, false, ◌||◌, ◌&&◌, List, [], ◌∷◌, Bytes, ◌==◌, ==_refl, ◌≡◌, refl, arith,
}
use borg_collective.Base.Exec.{ok}
use borg_collective.Base.Assoc.{values}
use borg_collective.Container.Model.{ContainerBackup, ContainerBackupProject}
use borg_collective.Worker.Host.{
  Host, Trace, Event, running, stopped, executed, created, commanded, warned, complete,
}
use borg_collective.Worker.Projects.{restart_all, run_project}

-- Whether a container was made to run since the last stop of any container.
abbrev pub is_restarted : Bytes → List Event → Bool
is_restarted id [] = false
is_restarted id (running x ∷ events) = x == id || is_restarted id events
is_restarted id (stopped x ∷ events) = false
is_restarted id (executed x args ∷ events) = is_restarted id events
is_restarted id (created x ∷ events) = is_restarted id events
is_restarted id (commanded args ∷ events) = is_restarted id events
is_restarted id (warned message ∷ events) = is_restarted id events
is_restarted id (complete x ∷ events) = is_restarted id events

abbrev pub are_restarted : List ContainerBackup → List Event → Bool
are_restarted [] events = true
are_restarted (ctnr ∷ ctnrs) events = is_restarted ctnr.id events && are_restarted ctnrs events

module _ ⦃H : Host⦄ where
  restart_all-keeps :
      (ctnrs : List ContainerBackup) (id : Bytes) (t : Trace)
      → is_restarted id t.events ≡ true
      → is_restarted id (restart_all ctnrs t).1.events ≡ true
  unfolding restart_all
  restart_all-keeps [] id t h = h
  restart_all-keeps (ctnr ∷ ctnrs) id t h = grind (arith, restart_all-keeps ctnrs id)

  restart_all-restarts :
      (ctnrs : List ContainerBackup) (t : Trace)
      → (restart_all ctnrs t).0 ≡ ok tt
      → are_restarted ctnrs (restart_all ctnrs t).1.events ≡ true
  unfolding restart_all
  restart_all-restarts [] t h = refl
  restart_all-restarts (ctnr ∷ ctnrs) t h =
      grind (arith, restart_all-restarts ctnrs, restart_all-keeps ctnrs ctnr.id, ==_refl)

  -- If `Run` returns, then every container of the project was made to run after the last time that
  -- it stopped any, whatever failed in the backups before.
  pub run_project-restarts :
      {S : Type 0} (project : ContainerBackupProject S) (plan : List ContainerBackup) (t : Trace)
      → (run_project project plan t).0 ≡ ok tt
      → are_restarted (values project.containers) (run_project project plan t).1.events ≡ true
  unfolding run_project
  run_project-restarts project plan t h =
      grind (arith, restart_all-restarts (values project.containers))
