-- ===== src/Docker/Cached.antt =====
-- The cache of projects of container/docker/docker.go and watch.go after one container.
use borg_collective.Base.{
  ltb, Bool, true, ◌&&◌, Option, some, [], ◌∷◌, Bytes, ◌==◌, ==_iff, length, ◌≡◌, refl, arith, inl,
  inr, Option-cases, List-cases,
}
use borg_collective.Base.Exec.{ok, Outcome-cases}
use borg_collective.Base.Assoc.{Assoc, lookup, erase, values}
use borg_collective.Container.Model.{ContainerBackup}
use borg_collective.Worker.Plans.{every, has_mode}
use borg_collective.Docker.Api.{InspectResponse, Docker}
use borg_collective.Docker.Mappers.{
  docker_engine, map_inspect_to_project, map_inspect_to_container_backup,
}
use borg_collective.Docker.Mapped.{is_sound, map_inspect_to_container_backup-is_sound}
use borg_collective.Docker.Projects.{
  Project, Cache, find_or_create_project, updated_project, add_inspect, find_project,
  handle_container_destroyed,
}
use borg_collective.Docker.Entries.{
  every_entry, every_entry-insert, every_entry-erase, every_entry-lookup, length-insert,
}

-- A container stands under its own service name.
abbrev is_sound_entry : Bytes → ContainerBackup → Bool
is_sound_entry key ctnr = key == ctnr.service_name && is_sound ctnr

every-has_mode :
    (containers : Assoc ContainerBackup)
    → every_entry is_sound_entry containers ≡ true
    → every has_mode (values containers) ≡ true
unfolding values
every-has_mode [] h = refl
every-has_mode ((key, ctnr) ∷ containers) h = ground (arith, every-has_mode containers)

module _ ⦃D : Docker⦄ where
  abbrev pub is_sound_project : Project → Bool
  is_sound_project project =
      project.engine == docker_engine && every_entry is_sound_entry project.containers

  -- A project stands under its own name and has containers.
  abbrev is_cached : Bytes → Project → Bool
  is_cached key project =
      key == project.project_name && is_sound_project project && ltb 0 (length project.containers)

  abbrev pub is_sound_cache : Cache → Bool
  is_sound_cache cache = every_entry is_cached cache

  pub is_sound_project-has_mode :
      (project : Project)
      → is_sound_project project ≡ true
      → every has_mode (values project.containers) ≡ true
  is_sound_project-has_mode project h = every-has_mode project.containers (ground (arith, h))

  map_inspect_to_project-is_sound :
      (inspected : InspectResponse) (project : Project)
      → map_inspect_to_project inspected ≡ ok project
      → is_sound_project project ≡ true
  unfolding map_inspect_to_project
  map_inspect_to_project-is_sound inspected project h =
      ground (arith, h, ==_iff project.engine docker_engine)

  find_or_create_project-is_sound :
      (cache : Cache) (inspected : InspectResponse) (project : Project)
      → is_sound_cache cache ≡ true
      → find_or_create_project cache inspected ≡ ok project
      → is_sound_project project ≡ true
  unfolding find_or_create_project
  find_or_create_project-is_sound cache inspected project sound h =
      elim (Outcome-cases (map_inspect_to_project inspected)) [
        | inl (fresh, e) ↦ elim (Option-cases (lookup fresh.project_name cache)) [
          | inl none_found ↦
              ground (arith, h, e, none_found, map_inspect_to_project-is_sound inspected fresh e)
          | inr (found, e') ↦ ground (
            arith,
            h,
            e,
            e',
            every_entry-lookup is_cached fresh.project_name found cache sound e',
          )
        ]
        | inr e ↦ absurd (ground (arith, h, e))
      ]

  updated_project-is_sound :
      (cache : Cache) (inspected : InspectResponse) (project : Project)
      → is_sound_cache cache ≡ true
      → updated_project cache inspected ≡ ok (some project)
      → (is_sound_project project ≡ true) × (ltb 0 (length project.containers) ≡ true)
  unfolding updated_project
  updated_project-is_sound cache inspected project sound h =
      elim (Outcome-cases (find_or_create_project cache inspected)) [
        | inl (before, e) ↦ elim (Outcome-cases (map_inspect_to_container_backup inspected)) [
          | inl (ctnr, e') ↦
              let mapped = map_inspect_to_container_backup-is_sound inspected ctnr e' in
              let old = find_or_create_project-is_sound cache inspected before sound e in
              let entries =
                every_entry-insert is_sound_entry ctnr.service_name ctnr before.containers in
              ground (
                arith,
                h,
                e,
                e',
                mapped,
                old,
                entries,
                ==_iff ctnr.service_name ctnr.service_name,
                length-insert ctnr.service_name ctnr before.containers,
              )
          | inr e' ↦ absurd (ground (arith, h, e, e'))
        ]
        | inr e ↦ absurd (ground (arith, h, e))
      ]

  pub add_inspect-is_sound :
      (inspected : InspectResponse) (cache after : Cache) (emitted : Option Project)
      → is_sound_cache cache ≡ true
      → add_inspect inspected cache ≡ ok (emitted, after)
      → (is_sound_cache after ≡ true)
        × ((project : Project) → emitted ≡ some project → is_sound_project project ≡ true)
  unfolding add_inspect
  add_inspect-is_sound inspected cache after emitted sound h =
      elim (Outcome-cases (updated_project cache inspected)) [
        | inl (found, e) ↦ elim (Option-cases found) [
          | inl nothing ↦ (
            ground (arith, h, e, nothing),
            λ project e'. absurd (ground (arith, h, e, nothing, e')),
          )
          | inr (project, e') ↦
              let kept =
                updated_project-is_sound cache inspected project sound (ground (arith, e, e')) in
              let put = every_entry-insert is_cached project.project_name project cache in
              (
                ground
                    (arith, h, e, e', kept, put, ==_iff project.project_name project.project_name),
                λ other e''. ground (arith, h, e, e', e'', kept),
              )
        ]
        | inr e ↦ (ground (arith, h, e), λ project e'. ground (arith, h, e, e'))
      ]

  find_project-is_sound :
      (id : Bytes) (cache : Cache) (project : Project) (ctnr : ContainerBackup)
      → is_sound_cache cache ≡ true
      → find_project id cache ≡ some (project, ctnr)
      → is_sound_project project ≡ true
  unfolding find_project
  find_project-is_sound id [] project ctnr sound h = absurd (ground (arith, h))
  find_project-is_sound id ((key, first) ∷ cache) project ctnr sound h =
      ground (arith, find_project-is_sound id cache project ctnr)

  pub handle_container_destroyed-is_sound :
      (id : Bytes) (cache : Cache)
      → is_sound_cache cache ≡ true
      → (is_sound_cache (handle_container_destroyed id cache).1 ≡ true)
        × ((project : Project)
            → (handle_container_destroyed id cache).0 ≡ some project
            → is_sound_project project ≡ true)
  unfolding handle_container_destroyed
  handle_container_destroyed-is_sound id cache sound = elim (Option-cases (find_project id cache)) [
    | inl e ↦ (ground (arith, e), λ project h. absurd (ground (arith, e, h)))
    | inr (found, e) ↦
        let project = found.0 in
        let name = found.1.service_name in
        let found_sound = find_project-is_sound id cache project found.1 sound e in
        let left = every_entry-erase is_sound_entry name project.containers in
        elim (List-cases (erase name project.containers)) [
          | inl none_left ↦ (
            ground (arith, e, none_left, every_entry-erase is_cached project.project_name cache),
            λ other h. ground (arith, e, none_left, h, found_sound, left),
          )
          | inr (entry, more, some_left) ↦ (
            ground (
              arith,
              e,
              some_left,
              found_sound,
              left,
              ==_iff project.project_name project.project_name,
              every_entry-insert is_cached project.project_name
                  (record project { containers = erase name project.containers }) cache,
            ),
            λ other h. ground (arith, e, some_left, h, found_sound, left),
          )
        ]
  ]
