-- ===== src/Docker/Projects.antt =====
-- `ReadProjects` of container/docker/docker.go and the events of container/docker/watch.go, over the
-- cache of projects. The cache is a map of values that hold maps; a project's map of containers is
-- changed through the value that is then put back. A project that is passed on is a value here; in the
-- code it shares that map with the cache.
use borg_collective.Base.{
  Bool, false, Option, none, some, List, [], ◌∷◌, ◌++◌, Bytes, codes, ◌==◌, if◌then◌else◌,
}
use borg_collective.Base.Exec.{Outcome, ok, err, panic, fatal, Exec, pure, raise, ◌>>=◌}
use borg_collective.Base.Assoc.{Assoc, lookup, insert, erase, values}
use borg_collective.Container.Model.{ContainerBackup, ContainerBackupProject}
use borg_collective.Docker.Api.{InspectResponse, Docker}
use borg_collective.Docker.Mappers.{
  label_borgd_enabled, map_inspect_to_project, map_inspect_to_container_backup,
}

unfoldable pub is_borgd_enabled : InspectResponse → Bool
is_borgd_enabled inspect = elim (lookup label_borgd_enabled inspect.labels) [
  | none ↦ false
  | some value ↦ value == codes "true"
]

module _ ⦃D : Docker⦄ where
  abbrev pub Project : Type 0
  Project = ContainerBackupProject D.Schedule

  abbrev pub Cache : Type 0
  Cache = Assoc Project

  unfoldable pub find_or_create_project : Cache → InspectResponse → Outcome Bytes Project
  find_or_create_project projects inspect = elim (map_inspect_to_project inspect) [
    | ok new_project ↦ elim (lookup new_project.project_name projects) [
      | none ↦ ok new_project
      | some project ↦ ok project
    ]
    | err e ↦ err e
    | panic ↦ panic
    | fatal ↦ fatal
  ]

  -- `project.Containers[backup.ServiceName] = *backup`
  abbrev pub with_container : ContainerBackup → Project → Project
  with_container backup project = record project {
    containers = insert backup.service_name backup project.containers;
  }

  abbrev pub put_project : Project → Cache → Cache
  put_project project cache = insert project.project_name project cache

  -- The project with the container of an enabled inspection; an error is logged, and is `none`.
  unfoldable pub updated_project : Cache → InspectResponse → Outcome Bytes (Option Project)
  updated_project cache inspect = elim (find_or_create_project cache inspect) [
    | ok project ↦ elim (map_inspect_to_container_backup inspect) [
      | ok backup ↦ ok (some (with_container backup project))
      | err e ↦ ok none
      | panic ↦ panic
      | fatal ↦ fatal
    ]
    | err e ↦ ok none
    | panic ↦ panic
    | fatal ↦ fatal
  ]

  -- The cache after an inspection, in the loop of `ReadProjects` and after an event.
  unfoldable pub add_inspect : InspectResponse → Cache → Outcome Bytes (Option Project × Cache)
  add_inspect inspect cache =
      let found : Outcome Bytes (Option Project × Cache) = elim (updated_project cache inspect) [
        | ok none ↦ ok (none, cache)
        | ok (some project) ↦ ok (some project, put_project project cache)
        | err e ↦ err e
        | panic ↦ panic
        | fatal ↦ fatal
      ] in
      if is_borgd_enabled inspect then found else ok (none, cache)

  -- The state of the client and the daemon.
  pub record World : Type 0 where
    pub docker : D.State
    pub cache : Cache

  abbrev pub M : Type 0 → Type 0
  M A = Exec Bytes World A

  abbrev pub inspect : Bytes → M InspectResponse
  inspect id w = let (r, s) = D.container_inspect id w.docker in (r, record w { docker = s })

  -- The loop of `ReadProjects` over the containers.
  unfoldable pub read_containers : List Bytes → Cache → M Cache
  read_containers [] projects = pure projects
  read_containers (id ∷ ids) projects = do
    inspected ← inspect id
    elim (add_inspect inspected projects) [
      | ok (_, projects') ↦ read_containers ids projects'
      | err e ↦ raise e
      | panic ↦ λ w. (panic, w)
      | fatal ↦ λ w. (fatal, w)
    ]

  unfoldable pub read_projects : M (List Project)
  read_projects w =
      let (ids, s) = D.container_list w.docker in
      elim ids [
        | ok listed ↦
            let (r, w') = read_containers listed [] (record w { docker = s }) in
            elim r [
              | ok projects ↦ (ok (values projects), record w' { cache = projects })
              | err e ↦ (err e, w')
              | panic ↦ (panic, w')
              | fatal ↦ (fatal, w')
            ]
        | err e ↦ (err e, record w { docker = s })
        | panic ↦ (panic, record w { docker = s })
        | fatal ↦ (fatal, record w { docker = s })
      ]

  unfoldable pub handle_container_updated : Bytes → M (Option Project)
  handle_container_updated id w =
      let (r, w') = inspect id w in
      elim r [
        | ok inspected ↦ elim (add_inspect inspected w'.cache) [
          | ok (project, cache) ↦ (ok project, record w' { cache = cache })
          | err e ↦ (err e, w')
          | panic ↦ (panic, w')
          | fatal ↦ (fatal, w')
        ]
        | err e ↦ (err (codes "failed to inspect container " ++ (id ++ (codes ": " ++ e))), w')
        | panic ↦ (panic, w')
        | fatal ↦ (fatal, w')
      ]

  -- The inner loop: the first container with the id.
  unfoldable pub find_container : Bytes → Assoc ContainerBackup → Option ContainerBackup
  find_container id [] = none
  find_container id ((_, container) ∷ containers) =
      let later = find_container id containers in
      if container.id == id then some container else later

  -- The outer loop, which goes on after a find: the last project with the id.
  unfoldable pub find_project : Bytes → Cache → Option (Project × ContainerBackup)
  find_project id [] = none
  find_project id ((_, project) ∷ cache) = elim (find_project id cache) [
    | some found ↦ some found
    | none ↦ elim (find_container id project.containers) [
      | none ↦ none
      | some backup ↦ some (project, backup)
    ]
  ]

  unfoldable pub handle_container_destroyed : Bytes → Cache → Option Project × Cache
  handle_container_destroyed id cache = elim (find_project id cache) [
    | none ↦ (none, cache)
    | some (project, backup) ↦
        let left : Project = record project {
          containers = erase backup.service_name project.containers;
        } in
        elim left.containers [
          | [] ↦ (some left, erase project.project_name cache)
          | _ ∷ _ ↦ (some left, put_project left cache)
        ]
  ]

  pub data Action : Type 0 where
    create update destroy other_action : Action

  -- `is_container` tells that the event's type is that of containers.
  pub record Event : Type 0 where
    pub is_container : Bool
    pub action : Action
    pub actor : Bytes

  abbrev handle_container_event : Event → M (Option Project)
  handle_container_event event w = elim event.action [
    | create ↦ handle_container_updated event.actor w
    | update ↦ handle_container_updated event.actor w
    | destroy ↦
        let (project, cache) = handle_container_destroyed event.actor w.cache in
        (ok project, record w { cache = cache })
    | other_action ↦ (ok none, w)
  ]

  unfoldable pub handle_event : Event → M (Option Project)
  handle_event event = if event.is_container then handle_container_event event else pure none
