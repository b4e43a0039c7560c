-- ===== src/Tests/DockerExamples.antt =====
-- The docker client at concrete inputs: a daemon with one container, of a database.
use borg_collective.Base.{
  ℕ, zero, suc, ◌≡◌, ◌≢◌, refl, arith, none, some, [], ◌∷◌, true, false, codes, Bytes, ◌==◌,
  has_prefix,
}
use borg_collective.Base.Exec.{ok, panic}
use borg_collective.Base.Assoc.{Assoc, lookup, insert, values}
use borg_collective.Borg.Api.{pos}
use borg_collective.Utils.CommandLine.{is_space}
use borg_collective.Borg.Client.{trim_space, trim_left}
use borg_collective.Container.Model.{Volume, ContainerBackup, mode_from_string, needs_backup}
use borg_collective.Worker.Creation.{
  collect_plan, check_exec, check_dependencies, check_containers, new_project_job,
}
use borg_collective.Docker.Api.{MountPoint, InspectResponse, ExecInspect, Docker}
use borg_collective.Docker.Mappers.{
  map_volume, map_volumes, find_volume_by_destination, apply_label, apply_labels, upper_dir,
  exec_of, finish_backup, map_inspect_to_project, map_inspect_to_container_backup,
}
use borg_collective.Docker.Expand.{expand_from, expand_cmd, append_ok}
use borg_collective.Docker.Client.{ensure_container_running, wait_for_health, wait_for_exec}
use borg_collective.Docker.Projects.{
  is_borgd_enabled, Project, World, create, Event, handle_event, handle_container_updated,
  add_inspect, updated_project, find_or_create_project,
}
use borg_collective.Docker.Mapped.{is_sound, map_inspect_to_container_backup-is_sound}
use borg_collective.Docker.Cached.{is_sound_cache}
use borg_collective.Docker.Events.{passes_on_sound, handle_event-is_sound}
use borg_collective.Docker.Health.{
  SeenHealthy, ensure_container_running-healthy, wait_for_exec_ends,
}
use borg_collective.Docker.Expanding.{expand_from-reference, expand_cmd_panics}
use borg_collective.Tests.WorkerExamples.{full}

abbrev db_mount : MountPoint
db_mount = record {
  mount_type = codes "volume";
  name = codes "data";
  source = codes "/srv/data";
  destination = codes "/data";
}

abbrev pub db_container : InspectResponse
db_container = record {
  id = codes "c1";
  is_running = true;
  status = codes "running";
  health = some (codes "healthy");
  labels =
      (codes "io.v47.borgd.enabled", codes "true")
      ∷ (codes "io.v47.borgd.project_name", codes "shop")
      ∷ (codes "io.v47.borgd.when", codes "@daily")
      ∷ (codes "io.v47.borgd.service_name", codes "db")
      ∷ (codes "io.v47.borgd.service.mode", codes "offline")
      ∷ (codes "io.v47.borgd.service.volumes.0", codes "/data")
      ∷ [];
  env = [];
  graph_driver = codes "overlay2";
  graph_driver_data = [];
  mounts = db_mount ∷ [];
}

-- A command runs during the first poll only.
instance abbrev pub daemon : Docker
daemon = record {
  State = ℕ;
  Schedule = Bytes;
  Reader = Unit {0};
  parse_standard = λ text. ok text;
  container_inspect = λ id s. (ok db_container, s);
  container_start = λ id s. (ok tt, s);
  container_stop = λ id s. (ok tt, s);
  container_list = λ s. (ok (codes "c1" ∷ []), s);
  container_exec_create = λ id args attached s. (ok (codes "e1"), s);
  container_exec_start = λ id s. (ok tt, s);
  container_exec_attach = λ id s. (ok tt, s);
  container_exec_inspect = λ id s. (ok (poll s), s);
  polls = λ s. 60;
  sleep = λ s. suc s;
}
  where
    poll : ℕ → ExecInspect
    poll zero = record { is_running = true; exit_code = pos 0 }
    poll (suc n) = record { is_running = false; exit_code = pos 0 }

abbrev db_volume : Volume
db_volume = record {
  mount_type = codes "volume";
  name = codes "data";
  source = codes "/srv/data";
  destination = codes "/data";
}

abbrev pub db_backup : ContainerBackup
db_backup = record {
  id = codes "c1";
  service_name = codes "db";
  mode = 2;
  upper_dir_path = [];
  exec = none;
  backup_volumes = db_volume ∷ [];
  all_volumes = db_volume ∷ [];
  dependencies = [];
}

abbrev shop_project : Project
shop_project = record {
  engine = codes "docker";
  project_name = codes "shop";
  schedule = codes "@daily";
  containers = (codes "db", db_backup) ∷ [];
}

db_is_mapped : map_inspect_to_container_backup db_container ≡ ok db_backup
unfolding map_inspect_to_container_backup apply_labels apply_label trim_space trim_left ◌==◌
    has_prefix mode_from_string find_volume_by_destination map_volume map_volumes exec_of
    finish_backup upper_dir lookup
db_is_mapped = refl

abbrev before : World
before = record { docker = 0; cache = [] }

abbrev created : Event
created = record { is_container = true; action = create; actor = codes "c1" }

shop_is_emitted : (handle_event created before).0 ≡ ok (some shop_project)
unfolding handle_event handle_container_updated add_inspect is_borgd_enabled updated_project
    find_or_create_project lookup insert ◌==◌ map_inspect_to_project map_inspect_to_container_backup
    apply_labels trim_space trim_left apply_label has_prefix mode_from_string
    find_volume_by_destination map_volume exec_of finish_backup upper_dir map_volumes
shop_is_emitted = refl

shop_is_made : new_project_job ⦃H = full⦄ shop_project ≡ ok (db_backup ∷ [])
unfolding new_project_job check_containers check_exec check_dependencies values collect_plan
    needs_backup ◌==◌
shop_is_made = refl

map_inspect_to_container_backup-is_sound_example :
    (is_sound db_backup ≡ true)
    × (db_backup.id ≡ codes "c1")
    × (db_backup.all_volumes ≡ map_volumes (db_mount ∷ []))
map_inspect_to_container_backup-is_sound_example =
    map_inspect_to_container_backup-is_sound db_container db_backup db_is_mapped

handle_event-is_sound_example :
    (is_sound_cache (handle_event created before).1.cache ≡ true)
    × (passes_on_sound (handle_event created before).0 ≡ true)
handle_event-is_sound_example = handle_event-is_sound created before refl

ensure_container_running-healthy_example :
    SeenHealthy (codes "c1") (ensure_container_running (codes "c1") 0).1
unfolding ensure_container_running wait_for_health ◌==◌
ensure_container_running-healthy_example =
    ensure_container_running-healthy (codes "c1") 0 db_container (codes "healthy") refl refl refl

wait_for_exec_ends_example : (wait_for_exec 2 (codes "e1") 0).0 ≢ ok none
wait_for_exec_ends_example =
    wait_for_exec_ends 1 2 (codes "e1") 0 (record { is_running = false; exit_code = pos 0 }) refl
      refl (omega arith)

abbrev variables : Assoc Bytes
variables = (codes "USER", codes "app") ∷ []

expand_from-reference_example :
    (expand_from variables 0 (codes "-u &{USER} db")
      ≡ append_ok (ok (codes "-u app")) (expand_from variables 0 (codes " db")))
    × (expand_from variables 0 (codes "-u &U db")
        ≡ append_ok (ok (codes "-u &U")) (expand_from variables 0 (codes " db")))
unfolding lookup ◌==◌ is_space
expand_from-reference_example =
    expand_from-reference variables (codes "-u ") (codes " db") b'U' (codes "SER") refl refl refl
      refl

expand_cmd_panics_example : expand_cmd variables (codes "echo &{USER" ∷ codes "x" ∷ []) ≡ panic
expand_cmd_panics_example =
    expand_cmd_panics variables (codes "echo ") (codes "USER") (codes "x" ∷ []) refl refl
