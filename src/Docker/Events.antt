-- ===== src/Docker/Events.antt =====
-- `ReadProjects` of container/docker/docker.go and the events of container/docker/watch.go: what the
-- cache of projects holds after them.
use borg_collective.Base.{
  Bool, Option, none, some, true, List, [], ◌∷◌, Bytes, ◌≡◌, refl, arith, inl, inr,
}
use borg_collective.Base.Exec.{Outcome, panic, fatal, err, ok, Outcome-cases}
use borg_collective.Base.Assoc.{values}
use borg_collective.Worker.Plans.{every}
use borg_collective.Docker.Api.{Docker}
use borg_collective.Docker.Projects.{
  Project, Cache, add_inspect, World, inspect, read_containers, read_projects,
  handle_container_updated, Event, handle_event,
}
use borg_collective.Docker.Cached.{
  is_sound_project, is_sound_cache, add_inspect-is_sound, handle_container_destroyed-is_sound,
}

module _ ⦃D : Docker⦄ where
  handle_container_updated-is_sound :
      (id : Bytes) (w : World)
      → is_sound_cache w.cache ≡ true
      → (is_sound_cache (handle_container_updated id w).1.cache ≡ true)
        × ((project : Project)
            → (handle_container_updated id w).0 ≡ ok (some project)
            → is_sound_project project ≡ true)
  unfolding handle_container_updated
  handle_container_updated-is_sound id w sound =
      elim (Outcome-cases (D.container_inspect id w.docker).0) [
        | inl (inspected, e) ↦ elim (Outcome-cases (add_inspect inspected w.cache)) [
          | inl (added, e') ↦
              let kept = add_inspect-is_sound inspected w.cache added.1 added.0 sound e' in
              (
                ground (arith, e, e', kept.0),
                λ project h. kept.1 project (ground (arith, e, e', h)),
              )
          | inr e' ↦ (ground (arith, e, e', sound), λ project h. absurd (ground (arith, e, e', h)))
        ]
        | inr e ↦ (ground (arith, e, sound), λ project h. absurd (ground (arith, e, h)))
      ]

  pub handle_event_keeps :
      (event : Event) (w : World)
      → is_sound_cache w.cache ≡ true
      → (is_sound_cache (handle_event event w).1.cache ≡ true)
        × ((project : Project)
            → (handle_event event w).0 ≡ ok (some project)
            → is_sound_project project ≡ true)
  unfolding handle_event
  handle_event_keeps event w sound =
      let updated = handle_container_updated-is_sound event.actor w sound in
      let destroyed = handle_container_destroyed-is_sound event.actor w.cache sound in
      (
        ground (arith, updated.0, destroyed.0, sound),
        λ project h. ground (arith, h, updated.1 project, destroyed.1 project),
      )

  -- The project that is passed on, if there is one, is sound.
  abbrev pub passes_on_sound : Outcome Bytes (Option Project) → Bool
  passes_on_sound (ok none) = true
  passes_on_sound (ok (some project)) = is_sound_project project
  passes_on_sound (err e) = true
  passes_on_sound panic = true
  passes_on_sound fatal = true

  passes_on_sound_lem :
      (r : Outcome Bytes (Option Project))
      → ((project : Project) → r ≡ ok (some project) → is_sound_project project ≡ true)
      → passes_on_sound r ≡ true
  passes_on_sound_lem (ok none) h = refl
  passes_on_sound_lem (ok (some project)) h = h project refl
  passes_on_sound_lem (err e) h = refl
  passes_on_sound_lem panic h = refl
  passes_on_sound_lem fatal h = refl

  -- Events keep the cache sound: each project stands under its own name, is one of docker and has
  -- containers, and each container stands under its own service name, with a mode and an exec backup
  -- as a mapped container has them. A project that an event passes on is sound too, though its last
  -- container may be gone.
  pub handle_event-is_sound :
      (event : Event) (w : World)
      → is_sound_cache w.cache ≡ true
      → (is_sound_cache (handle_event event w).1.cache ≡ true)
        × (passes_on_sound (handle_event event w).0 ≡ true)
  handle_event-is_sound event w sound =
      let kept = handle_event_keeps event w sound in
      (kept.0, passes_on_sound_lem (handle_event event w).0 kept.1)

  read_containers-is_sound :
      (ids : List Bytes) (projects after : Cache) (w : World)
      → is_sound_cache projects ≡ true
      → (read_containers ids projects w).0 ≡ ok after
      → is_sound_cache after ≡ true
  unfolding read_containers
  read_containers-is_sound [] projects after w sound h = ground (arith, h)
  read_containers-is_sound (id ∷ ids) projects after w sound h =
      elim (Outcome-cases (inspect id w).0) [
        | inl (inspected, e) ↦ elim (Outcome-cases (add_inspect inspected projects)) [
          | inl (added, e') ↦
              read_containers-is_sound ids added.1 after (inspect id w).1
                (add_inspect-is_sound inspected projects added.1 added.0 sound e').0
                (ground (arith, h, e, e'))
          | inr e' ↦ absurd (ground (arith, h, e, e'))
        ]
        | inr e ↦ absurd (ground (arith, h, e))
      ]

  every_value :
      (cache : Cache) → is_sound_cache cache ≡ true → every is_sound_project (values cache) ≡ true
  unfolding values
  every_value [] h = refl
  every_value ((key, project) ∷ cache) h = ground (arith, every_value cache)

  read_containers-cache :
      (ids : List Bytes) (projects : Cache) (w : World)
      → (read_containers ids projects w).1.cache ≡ w.cache
  unfolding read_containers
  read_containers-cache [] projects w = refl
  read_containers-cache (id ∷ ids) projects w = elim (Outcome-cases (inspect id w).0) [
    | inl (inspected, e) ↦ elim (Outcome-cases (add_inspect inspected projects)) [
      | inl (added, e') ↦ ground (arith, e, e', read_containers-cache ids added.1 (inspect id w).1)
      | inr e' ↦ ground (arith, e, e')
    ]
    | inr e ↦ ground (arith, e)
  ]

  -- `ReadProjects` leaves a sound cache sound, whatever its outcome, and returns sound projects.
  pub read_projects-is_sound :
      (w : World)
      → is_sound_cache w.cache ≡ true
      → (is_sound_cache (read_projects w).1.cache ≡ true)
        × ((projects : List Project)
            → (read_projects w).0 ≡ ok projects
            → every is_sound_project projects ≡ true)
  unfolding read_projects
  read_projects-is_sound w sound = elim (Outcome-cases (D.container_list w.docker).0) [
    | inl (ids, e) ↦
        let before = record w { docker = (D.container_list w.docker).1 } in
        elim (Outcome-cases (read_containers ids [] before).0) [
          | inl (found, e') ↦
              let found_sound = read_containers-is_sound ids [] found before refl e' in
              (
                ground (arith, e, e', found_sound),
                λ projects h. ground (arith, e, e', h, every_value found found_sound),
              )
          | inr e' ↦ (
            ground (arith, e, e', sound, read_containers-cache ids [] before),
            λ projects h. absurd (ground (arith, e, e', h)),
          )
        ]
    | inr e ↦ (ground (arith, e, sound), λ projects h. absurd (ground (arith, e, h)))
  ]
