-- ===== src/Tests/WorkerExamples.antt =====
-- The worker's jobs at concrete inputs, on a host whose archives cannot be written.
use borg_collective.Base.{
  ◌≡◌, leb, refl, none, some, List, [], ◌∷◌, true, false, codes, Bytes, ◌==◌, has_prefix, to_lower,
}
use mathlib.Core.List.Permᴰ
use borg_collective.Base.Exec.{ok, err}
use borg_collective.Base.Assoc.{lookup, values}
use borg_collective.Container.Model.{
  ContainerBackup, ContainerBackupProject, ContainerExecBackup, Volume, needs_backup,
}
use borg_collective.Container.Paths.{
  path_clean, path_join, find_in_volumes, find_in_upper_dir, find_source_for_in_container_path,
}
use borg_collective.Container.Mounts.{MountedAt, find_in_volumes-MountedAt}
use borg_collective.Worker.Host.{Host, Trace, Event, complete, warned, created}
use borg_collective.Worker.Static.{BackupConfig}
use borg_collective.Worker.Common.{archive_name, log_backup_complete}
use borg_collective.Worker.Projects.{
  source_paths, run_project, run_plan, run_one, run_online_backup, ensure_dependencies, ensure_all,
  find_dependencies, run_either, run_exec_backup, run_exec_paths, create_and_log,
  run_offline_backup, run_volume_backup, restart_all,
}
use borg_collective.Worker.Creation.{
  collect_plan, check_paths, check_exec, check_dependencies, check_containers, new_project_job,
}
use borg_collective.Worker.Plans.{every, Permutes, has_mode, is_found, new_project_job-validates}
use borg_collective.Worker.Restarts.{are_restarted}
use borg_collective.Worker.Completion.{count_messages, run_project_completes}
use borg_collective.Worker.Failures.{failed_exec_backup_logs_complete}

abbrev repository_locked : Bytes
repository_locked = codes "Failed to create/acquire the lock"

instance abbrev pub full : Host
full = record {
  State = Unit {0};
  Output = Unit {0};
  ensure_container_running = λ id s. (ok tt, s);
  ensure_container_stopped = λ id s. (ok tt, s);
  exec = λ id args s. (ok tt, s);
  exec_with_output = λ id args s. (ok tt, s);
  output_error = λ output s. none;
  create_with_paths = λ archive paths s. (err repository_locked, s);
  create_with_input = λ archive output s. (err repository_locked, s);
  local_exec = λ args s. (err (codes "exit status 1"), s);
  local_exec_with_output = λ args s. (ok tt, s);
  to_lower = to_lower;
  timestamp = λ s. codes "20250102030405";
  sort = λ less ctnrs. ctnrs;
}

pub full-Permutes : Permutes ⦃H = full⦄
full-Permutes before ctnrs = Permᴰ.refl ctnrs

abbrev pub start : Trace
start = record { host = tt; events = []; is_stuck = false }

abbrev data_volume : Volume
data_volume = record {
  mount_type = codes "volume";
  name = codes "data";
  source = codes "/srv/data";
  destination = codes "/var/lib/db";
}

abbrev dump : ContainerExecBackup
dump = record { command = codes "dump" ∷ []; stdout = false; paths = codes "/var/lib/db" ∷ [] }

abbrev pub db : ContainerBackup
db = record {
  id = codes "c1";
  service_name = codes "db";
  mode = 1;
  upper_dir_path = [];
  exec = some dump;
  backup_volumes = data_volume ∷ [];
  all_volumes = data_volume ∷ [];
  dependencies = [];
}

abbrev pub web : ContainerBackup
web = record db {
  id = codes "c2";
  service_name = codes "web";
  mode = 2;
  exec = none;
  dependencies = codes "db" ∷ [];
}

abbrev pub shop : ContainerBackupProject (Unit {0})
shop = record {
  engine = codes "docker";
  project_name = codes "shop";
  schedule = tt;
  containers = (codes "db", db) ∷ (codes "web", web) ∷ [];
}

find_in_volumes-MountedAt_example :
    MountedAt (data_volume ∷ []) (codes "/VAR/lib/db") (codes "/srv/data")
unfolding find_in_volumes path_join path_clean has_prefix to_lower ◌==◌
find_in_volumes-MountedAt_example =
    find_in_volumes-MountedAt (λ s h. refl) (data_volume ∷ []) (codes "/VAR/lib/db")
      (codes "/srv/data") refl refl refl

-- Its line opens the checks of a new job.
unfoldable pub shop_plan : List ContainerBackup
unfolding collect_plan check_paths check_exec check_dependencies check_containers new_project_job
    find_in_volumes find_in_upper_dir find_source_for_in_container_path path_join path_clean
    needs_backup has_prefix to_lower ◌==◌ lookup values source_paths
shop_plan = db ∷ web ∷ []

pub shop_is_made : new_project_job shop ≡ ok shop_plan
unfolding shop_plan
shop_is_made = refl

new_project_job-validates_example :
    (shop.engine ≡ codes "docker")
    × (every needs_backup shop_plan ≡ true)
    × (every (λ ctnr. every (is_found shop.containers) ctnr.dependencies) (values shop.containers)
        ≡ true)
new_project_job-validates_example =
    new_project_job-validates shop shop_plan full-Permutes shop_is_made

modes_are_named : every has_mode (values shop.containers) ≡ true
unfolding values
modes_are_named = refl

run_project_completes_example :
    ((run_project shop shop_plan start).0 ≡ ok tt)
    × (leb 2 (count_messages (run_project shop shop_plan start).1.events) ≡ true)
    × (are_restarted (values shop.containers) (run_project shop shop_plan start).1.events ≡ true)
unfolding shop_plan run_project run_plan run_one run_online_backup ensure_dependencies ensure_all
    find_dependencies run_either run_exec_backup run_exec_paths create_and_log archive_name
    log_backup_complete run_offline_backup run_volume_backup restart_all
run_project_completes_example =
    run_project_completes shop shop_plan start full-Permutes modes_are_named shop_is_made refl

failed_exec_backup_logs_complete_example :
    (archive : Bytes) × (before : List Event) × ((run_exec_paths db dump
        (codes "shop-db")
        start).1.events
      ≡ complete (codes "shop-db") ∷ warned (codes "backup failed") ∷ created archive ∷ before)
unfolding shop_plan
failed_exec_backup_logs_complete_example =
    failed_exec_backup_logs_complete db dump (codes "shop-db") repository_locked
      (codes "/srv/data" ∷ []) start refl refl (λ archive s. refl)

abbrev pub etc : BackupConfig
etc = record {
  name = codes "etc";
  pre_command = [];
  exec = none;
  paths = some (codes "/etc" ∷ []);
  post_command = [];
  finally_command = codes "umount" ∷ codes "/mnt" ∷ [];
}
