-- ===== src/Worker/Creation.antt =====
-- `newContainerProjectBackupJob` of worker/container.go.
use borg_collective.Base.{none, some, List, [], ◌∷◌, ◌++◌, Bytes, codes, ◌==◌, if◌then◌else◌}
use borg_collective.Base.Exec.{Outcome, ok, err, panic, fatal}
use borg_collective.Base.Assoc.{Assoc, lookup, values}
use borg_collective.Container.Model.{ContainerBackup, ContainerBackupProject, needs_backup}
use borg_collective.Container.Paths.{find_source_for_in_container_path}
use borg_collective.Worker.Host.{Host}
use borg_collective.Worker.Common.{less}

-- The loop that collects the containers to back up.
unfoldable pub collect_plan : List ContainerBackup → List ContainerBackup
collect_plan [] = []
collect_plan (ctnr ∷ ctnrs) =
    let rest = collect_plan ctnrs in if needs_backup ctnr then ctnr ∷ rest else rest

-- One check after another, up to the first that does not return.
abbrev and_then : Outcome Bytes Unit → Outcome Bytes Unit → Outcome Bytes Unit
and_then (ok _) next = next
and_then (err e) next = err e
and_then panic next = panic
and_then fatal next = fatal

unfoldable pub check_dependencies : Assoc ContainerBackup → Bytes → List Bytes → Outcome Bytes Unit
check_dependencies containers service_name [] = ok tt
check_dependencies containers service_name (dep ∷ deps) =
    let rest = check_dependencies containers service_name deps in
    elim (lookup dep containers) [
      | none ↦
          err
            (codes "dependency " ++ (dep ++ (codes " of " ++ (service_name ++ codes " not found"))))
      | some _ ↦ rest
    ]

module _ ⦃H : Host⦄ where
  unfoldable pub check_paths : ContainerBackup → List Bytes → Outcome Bytes Unit
  check_paths ctnr [] = ok tt
  check_paths ctnr (c_path ∷ c_paths) =
      let rest = check_paths ctnr c_paths in
      elim (find_source_for_in_container_path ctnr c_path) [
        | ok none ↦ err (codes "no source for in-container path " ++ c_path)
        | ok (some _) ↦ rest
        | err e ↦ err e
        | panic ↦ panic
        | fatal ↦ fatal
      ]

  -- The paths are checked where the command writes to files.
  unfoldable pub check_exec : ContainerBackup → Outcome Bytes Unit
  check_exec ctnr = elim ctnr.exec [
    | none ↦ ok tt
    | some exec ↦ if exec.stdout then ok tt else check_paths ctnr exec.paths
  ]

  unfoldable pub check_containers :
      Assoc ContainerBackup → List ContainerBackup → Outcome Bytes Unit
  check_containers containers [] = ok tt
  check_containers containers (ctnr ∷ ctnrs) = and_then (check_exec ctnr) (
      and_then (check_dependencies containers ctnr.service_name ctnr.dependencies)
        (check_containers containers ctnrs))

-- The job, as its plan; the rest of the job is the project and the worker's clients.
unfoldable pub new_project_job :
    ⦃H : Host⦄ → {S : Type 0} → ContainerBackupProject S → Outcome Bytes (List ContainerBackup)
new_project_job ⦃H⦄ project = elim project.containers [
  | [] ↦ err (codes "nothing to do")
  | _ ∷ _ ↦ elim (check_containers project.containers (values project.containers)) [
    | ok _ ↦
        if project.engine == codes "docker"
        then ok (H.sort less (collect_plan (values project.containers)))
        else err (codes "unknown container engine " ++ project.engine)
    | err e ↦ err e
    | panic ↦ panic
    | fatal ↦ fatal
  ]
]
