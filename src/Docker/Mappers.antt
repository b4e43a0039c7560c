-- ===== src/Docker/Mappers.antt =====
-- container/docker/mappers.go: containers of docker as projects and backups. The labels are ranged
-- over in the order of their list.
use borg_collective.Base.{
  ℕ, ltb, Bool, true, false, ◌||◌, ◌&&◌, not, Option, none, some, List, [], ◌∷◌, ◌++◌, Bytes, codes,
  ◌==◌, eqb, if◌then◌else◌, length, has_prefix,
}
use borg_collective.Base.Exec.{Outcome, ok, err, panic, fatal}
use borg_collective.Base.Assoc.{Assoc, lookup}
use borg_collective.Container.Model.{
  Volume, ContainerExecBackup, ContainerBackup, ContainerBackupProject, mode_from_string,
}
use borg_collective.Utils.CommandLine.{split_command_line}
use borg_collective.Borg.Client.{trim_space}
use borg_collective.Docker.Api.{MountPoint, InspectResponse, Docker}

abbrev pub label_borgd_enabled : Bytes
label_borgd_enabled = codes "io.v47.borgd.enabled"

abbrev pub label_project_name : Bytes
label_project_name = codes "io.v47.borgd.project_name"

abbrev pub label_project_when : Bytes
label_project_when = codes "io.v47.borgd.when"

abbrev pub label_backup_mode : Bytes
label_backup_mode = codes "io.v47.borgd.service.mode"

abbrev pub label_dependencies_pfx : Bytes
label_dependencies_pfx = codes "io.v47.borgd.service.dependencies."

abbrev pub label_exec : Bytes
label_exec = codes "io.v47.borgd.service.exec"

abbrev pub label_exec_stdout : Bytes
label_exec_stdout = codes "io.v47.borgd.service.stdout"

abbrev pub label_exec_paths_pfx : Bytes
label_exec_paths_pfx = codes "io.v47.borgd.service.paths."

abbrev pub label_service_name : Bytes
label_service_name = codes "io.v47.borgd.service_name"

abbrev pub label_volumes_pfx : Bytes
label_volumes_pfx = codes "io.v47.borgd.service.volumes."

abbrev pub docker_engine : Bytes
docker_engine = codes "docker"

unfoldable pub map_inspect_to_project :
    ⦃D : Docker⦄ → InspectResponse → Outcome Bytes (ContainerBackupProject D.Schedule)
map_inspect_to_project ⦃D⦄ inspect = elim (lookup label_project_name inspect.labels) [
  | none ↦ err (codes "project name not found in container " ++ inspect.id)
  | some [] ↦ err (codes "project name not found in container " ++ inspect.id)
  | some (c ∷ name) ↦ elim (lookup label_project_when inspect.labels) [
    | none ↦ err (codes "project schedule not found in container " ++ inspect.id)
    | some schedule_raw ↦ elim (D.parse_standard schedule_raw) [
      | ok schedule ↦ ok (record {
        engine = docker_engine;
        project_name = c ∷ name;
        schedule = schedule;
        containers = [];
      })
      | err e ↦ err (
          codes "failed to parse project schedule in container "
          ++ (inspect.id ++ (codes ": " ++ e)))
      | panic ↦ panic
      | fatal ↦ fatal
    ]
  ]
]

-- Bind mounts and volumes only.
unfoldable pub map_volume : MountPoint → Option Volume
map_volume m =
    if m.mount_type == codes "bind" || m.mount_type == codes "volume"
    then some (record {
      mount_type = m.mount_type;
      name = m.name;
      source = m.source;
      destination = m.destination;
    })
    else none

unfoldable pub map_volumes : List MountPoint → List Volume
map_volumes [] = []
map_volumes (m ∷ mounts) = elim (map_volume m) [
  | none ↦ map_volumes mounts
  | some volume ↦ volume ∷ map_volumes mounts
]

-- The first mount with the destination decides.
unfoldable pub find_volume_by_destination : Bytes → List MountPoint → Option Volume
find_volume_by_destination target [] = none
find_volume_by_destination target (m ∷ mounts) =
    let later = find_volume_by_destination target mounts in
    if m.destination == target then map_volume m else later

-- What the loop over the labels changes.
pub record Draft : Type 0 where
  pub service_name : Bytes
  pub mode : ℕ
  pub backup_volumes : List Volume
  pub dependencies : List Bytes
  pub command : List Bytes
  pub stdout : Bool
  pub paths : List Bytes

-- The body of the loop for a value that is not blank.
unfoldable pub apply_label : InspectResponse → Bytes → Bytes → Draft → Outcome Bytes Draft
apply_label inspect key value d =
    if key == label_backup_mode
    then elim (mode_from_string value) [
      | ok mode ↦ ok (record d { mode = mode })
      | err e ↦ err (codes "unrecognized backup mode: " ++ e)
      | panic ↦ panic
      | fatal ↦ fatal
    ]
    else if has_prefix key label_dependencies_pfx
    then ok (record d { dependencies = d.dependencies ++ value ∷ [] })
    else if key == label_exec
    then ok (record d { command = split_command_line value })
    else if key == label_exec_stdout
    then ok (record d { stdout = true })
    else if has_prefix key label_exec_paths_pfx
    then ok (record d { paths = d.paths ++ value ∷ [] })
    else if key == label_service_name
    then ok (record d { service_name = value })
    else if has_prefix key label_volumes_pfx
    then elim (find_volume_by_destination value inspect.mounts) [
      | none ↦
          err (codes "volume for destination " ++ (value ++ (codes " not found in " ++ inspect.id)))
      | some m ↦ ok (record d { backup_volumes = d.backup_volumes ++ m ∷ [] })
    ]
    else ok d

unfoldable pub apply_labels : InspectResponse → Assoc Bytes → Draft → Outcome Bytes Draft
apply_labels inspect [] d = ok d
apply_labels inspect ((key, raw) ∷ labels) d = elim (trim_space raw) [
  | [] ↦ apply_labels inspect labels d
  | c ∷ value ↦ elim (apply_label inspect key (c ∷ value) d) [
    | ok d' ↦ apply_labels inspect labels d'
    | err e ↦ err e
    | panic ↦ panic
    | fatal ↦ fatal
  ]
]

-- `UpperDir` of the driver overlay2.
unfoldable pub upper_dir : InspectResponse → Bytes
upper_dir inspect =
    let found : Bytes = elim (lookup (codes "UpperDir") inspect.graph_driver_data) [
      | none ↦ []
      | some path ↦ path
    ] in
    if inspect.graph_driver == codes "overlay2" then found else []

-- The exec backup, if there is a command.
unfoldable pub exec_of : InspectResponse → Draft → Outcome Bytes (Option ContainerExecBackup)
exec_of inspect d = elim d.command [
  | [] ↦ ok none
  | _ ∷ _ ↦
      if eqb (length d.paths) 0 && not d.stdout
      then err (codes "exec must have either paths or stdout: " ++ inspect.id)
      else if ltb 0 (length d.paths) && d.stdout
      then err (codes "exec must not have both paths and stdout: " ++ inspect.id)
      else ok (some (record { command = d.command; stdout = d.stdout; paths = d.paths }))
]

abbrev pub is_some {ℓ} : {A : Type ℓ} → Option A → Bool
is_some none = false
is_some (some a) = true

-- The checks after the loop.
unfoldable pub finish_backup :
    InspectResponse → Draft → Option ContainerExecBackup → Outcome Bytes ContainerBackup
finish_backup inspect d exec =
    if is_some exec && ltb 0 (length d.backup_volumes)
    then err (codes "container must not have both exec and volumes: " ++ inspect.id)
    else if d.service_name == []
    then err (codes "container must have a service name: " ++ inspect.id)
    else if eqb d.mode 2 && is_some exec
    then err (codes "container cannot have exec with offline backup mode: " ++ inspect.id)
    else ok (record {
      id = inspect.id;
      service_name = d.service_name;
      mode = d.mode;
      upper_dir_path = upper_dir inspect;
      exec = exec;
      backup_volumes = d.backup_volumes;
      all_volumes = map_volumes inspect.mounts;
      dependencies = d.dependencies;
    })

abbrev pub empty_draft : Draft
empty_draft = record {
  service_name = [];
  mode = 1;
  backup_volumes = [];
  dependencies = [];
  command = [];
  stdout = false;
  paths = [];
}

unfoldable pub map_inspect_to_container_backup : InspectResponse → Outcome Bytes ContainerBackup
map_inspect_to_container_backup inspect = elim (apply_labels inspect inspect.labels empty_draft) [
  | ok d ↦ elim (exec_of inspect d) [
    | ok exec ↦ finish_backup inspect d exec
    | err e ↦ err e
    | panic ↦ panic
    | fatal ↦ fatal
  ]
  | err e ↦ err e
  | panic ↦ panic
  | fatal ↦ fatal
]
