-- ===== src/Tests/DroneExamples.antt =====
-- A job of the drone on its own engine and client, with a command that cannot be expanded.
use borg_collective.Base.{refl, true, false, none, [], ◌∷◌, codes, ◌≡◌}
use borg_collective.Base.Exec.{ok, panic}
use borg_collective.Container.Model.{ContainerExecBackup}
use borg_collective.Worker.Host.{Trace}
use borg_collective.Worker.Projects.{run_exec_paths}
use borg_collective.Worker.Drone.{Machine, drone, run_exec_paths_panics}
use borg_collective.Tests.DockerExamples.{daemon, db_container, db_backup}
use borg_collective.Tests.BorgExamples.{warning_borg, idle, config}

abbrev machine : Machine ⦃D = daemon⦄ ⦃B = warning_borg⦄
machine = record {
  Local = Unit {0};
  local_exec = λ args p. (ok tt, p);
  local_exec_with_output = λ args p. (ok tt, p);
  input_of = λ reader. tt;
  reader_error = λ reader p. none;
  error_text = λ e. codes "failed";
  timestamp = λ p. codes "20250102030405";
  to_lower = λ s. s;
  sort = λ less ctnrs. ctnrs;
  config = config;
  fuel = 3;
}

abbrev start : Trace ⦃H = drone machine⦄
start = record { host = record { docker = 0; borg = idle }; events = []; is_stuck = false }

abbrev unclosed : ContainerExecBackup
unclosed = record { command = codes "dump &{USER" ∷ []; stdout = false; paths = codes "/data" ∷ [] }

run_exec_paths_panics_example :
    ((run_exec_paths ⦃H = drone machine⦄ db_backup unclosed (codes "shop-db") start).0 ≡ panic)
    × ((run_exec_paths ⦃H = drone machine⦄ db_backup unclosed (codes "shop-db") start).1.is_stuck
        ≡ true)
run_exec_paths_panics_example =
    run_exec_paths_panics machine db_backup false (codes "dump ") (codes "USER") (codes "shop-db")
      [] (codes "/data" ∷ []) db_container start refl refl refl
