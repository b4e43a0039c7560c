-- ===== src/Docker/Mapped.antt =====
-- What the containers that `mapInspectToContainerBackup` of container/docker/mappers.go returns are
-- like.
use borg_collective.Base.{
  ℕ, ltb, Bool, true, ◌&&◌, ◌||◌, not, Option, none, some, List, [], ◌∷◌, Bytes, eqb, if◌then◌else◌,
  length, ◌≡◌, refl, arith, ==_iff, inl, inr, List-cases,
}
use borg_collective.Base.Exec.{ok, Outcome-cases}
use borg_collective.Base.Assoc.{Assoc}
use borg_collective.Container.Model.{Volume, ContainerExecBackup, ContainerBackup, mode_from_string}
use borg_collective.Worker.Plans.{has_mode}
use borg_collective.Borg.Client.{trim_space}
use borg_collective.Docker.Api.{InspectResponse}
use borg_collective.Docker.Mappers.{
  map_volumes, Draft, apply_label, apply_labels, exec_of, finish_backup, empty_draft,
  map_inspect_to_container_backup,
}

abbrev is_mode : ℕ → Bool
is_mode mode = eqb mode 1 || eqb mode 2 || eqb mode 3

-- An exec backup has a command, writes to its output or to paths, but not to both, and excludes the
-- offline mode and volumes.
abbrev is_sound_exec : Option ContainerExecBackup → ℕ → List Volume → Bool
is_sound_exec none mode volumes = true
is_sound_exec (some exec) mode volumes =
    ltb 0 (length exec.command)
    && (if exec.stdout then eqb (length exec.paths) 0 else ltb 0 (length exec.paths))
    && not (eqb mode 2)
    && eqb (length volumes) 0

abbrev pub is_sound : ContainerBackup → Bool
is_sound ctnr =
    has_mode ctnr
    && ltb 0 (length ctnr.service_name)
    && is_sound_exec ctnr.exec ctnr.mode ctnr.backup_volumes

mode_from_string-is_mode :
    (s : Bytes) (mode : ℕ) → mode_from_string s ≡ ok mode → is_mode mode ≡ true
unfolding mode_from_string
mode_from_string-is_mode s mode h = ground arith

apply_label-is_mode :
    (inspect : InspectResponse) (key value : Bytes) (d d' : Draft)
    → is_mode d.mode ≡ true
    → apply_label inspect key value d ≡ ok d'
    → is_mode d'.mode ≡ true
unfolding apply_label
apply_label-is_mode inspect key value d d' valid h = elim (Outcome-cases (mode_from_string value)) [
  | inl (mode, e) ↦ ground (arith, e, mode_from_string-is_mode value mode e)
  | inr e ↦ ground (arith, e)
]

apply_labels-is_mode :
    (inspect : InspectResponse) (labels : Assoc Bytes) (d d' : Draft)
    → is_mode d.mode ≡ true
    → apply_labels inspect labels d ≡ ok d'
    → is_mode d'.mode ≡ true
unfolding apply_labels
apply_labels-is_mode inspect [] d d' valid h = ground (arith, h)
apply_labels-is_mode inspect ((key, raw) ∷ labels) d d' valid h =
    elim (List-cases (trim_space raw)) [
      | inl blank ↦ apply_labels-is_mode inspect labels d d' valid (ground (arith, h, blank))
      | inr (c, value, e) ↦ elim (Outcome-cases (apply_label inspect key (c ∷ value) d)) [
        | inl (next, e') ↦
            apply_labels-is_mode inspect labels next d'
              (apply_label-is_mode inspect key (c ∷ value) d next valid e')
              (ground (arith, h, e, e'))
        | inr e' ↦ absurd (ground (arith, h, e, e'))
      ]
    ]

exec_of-inv :
    (inspect : InspectResponse) (d : Draft) (exec : Option ContainerExecBackup)
    → exec_of inspect d ≡ ok exec
    → is_sound_exec exec 1 [] ≡ true
unfolding exec_of
exec_of-inv inspect d exec h = ground arith

finish_backup-inv :
    (inspect : InspectResponse) (d : Draft) (exec : Option ContainerExecBackup)
    (b : ContainerBackup)
    → is_mode d.mode ≡ true
    → is_sound_exec exec 1 [] ≡ true
    → finish_backup inspect d exec ≡ ok b
    → (is_sound b ≡ true) × (b.id ≡ inspect.id) × (b.all_volumes ≡ map_volumes inspect.mounts)
unfolding finish_backup
finish_backup-inv inspect d exec b valid sound h = ground (arith, ==_iff d.service_name [])

-- A container that is mapped has the id and the mounted volumes of the inspection, one of the three
-- modes and a service name. If it has an exec backup, then this has a command and either paths or the
-- standard output, its mode is not offline, and it has no volumes to back up.
pub map_inspect_to_container_backup-is_sound :
    (inspect : InspectResponse) (b : ContainerBackup)
    → map_inspect_to_container_backup inspect ≡ ok b
    → (is_sound b ≡ true) × (b.id ≡ inspect.id) × (b.all_volumes ≡ map_volumes inspect.mounts)
unfolding map_inspect_to_container_backup
map_inspect_to_container_backup-is_sound inspect b h =
    elim (Outcome-cases (apply_labels inspect inspect.labels empty_draft)) [
      | inl (d, e) ↦ elim (Outcome-cases (exec_of inspect d)) [
        | inl (exec, e') ↦
            finish_backup-inv inspect d exec b
              (apply_labels-is_mode inspect inspect.labels empty_draft d refl e)
              (exec_of-inv inspect d exec e') (ground (arith, h, e, e'))
        | inr e' ↦ absurd (ground (arith, h, e, e'))
      ]
      | inr e ↦ absurd (ground (arith, h, e))
    ]
