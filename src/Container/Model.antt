-- ===== src/Container/Model.antt =====
-- borg-collective/internal/drone/container/model/model.go
use borg_collective.Base.{
  ℕ, ltb, Bool, true, Option, none, some, List, Bytes, codes, ◌==◌, eqb, if◌then◌else◌, length, ◌≡◌,
  refl, ==_iff, arith, ◌↔◌, ◌⊎◌, inl, inr,
}
use borg_collective.Base.Assoc.{Assoc}
use borg_collective.Base.Exec.{Outcome, ok, err, panic}

-- `BackupMode` is a `uint8`; these are its named values.
abbrev pub BackupMode : Type 0
BackupMode = ℕ

abbrev pub backup_mode_default : BackupMode
backup_mode_default = 1

abbrev pub backup_mode_offline : BackupMode
backup_mode_offline = 2

abbrev pub backup_mode_dependent_offline : BackupMode
backup_mode_dependent_offline = 3

-- `BackupMode.String`, which panics on any other value.
unfoldable pub mode_string : BackupMode → Outcome Bytes Bytes
mode_string b =
    if eqb b backup_mode_default
    then ok (codes "default")
    else if eqb b backup_mode_dependent_offline
    then ok (codes "dependent-offline")
    else if eqb b backup_mode_offline
    then ok (codes "offline")
    else panic

-- `BackupModeFromString`, with the unrecognised text as the error.
unfoldable pub mode_from_string : Bytes → Outcome Bytes BackupMode
mode_from_string s =
    if s == codes "default"
    then ok backup_mode_default
    else if s == codes "dependent-offline"
    then ok backup_mode_dependent_offline
    else if s == codes "offline"
    then ok backup_mode_offline
    else err s

-- The field `Type`.
pub record Volume : Type 0 where
  pub mount_type : Bytes
  pub name : Bytes
  pub source : Bytes
  pub destination : Bytes

pub record ContainerExecBackup : Type 0 where
  pub command : List Bytes
  pub stdout : Bool
  pub paths : List Bytes

pub record ContainerBackup : Type 0 where
  pub id : Bytes
  pub service_name : Bytes
  pub mode : BackupMode
  pub upper_dir_path : Bytes
  pub exec : Option ContainerExecBackup
  pub backup_volumes : List Volume
  pub all_volumes : List Volume
  pub dependencies : List Bytes

-- `S` is the type of a cron schedule.
pub record ContainerBackupProject (S : Type 0) : Type 0 where
  pub engine : Bytes
  pub project_name : Bytes
  pub schedule : S
  pub containers : Assoc ContainerBackup

unfoldable pub needs_backup : ContainerBackup → Bool
needs_backup b = elim b.exec [ some _ ↦ true | none ↦ ltb 0 (length b.backup_volumes) ]

split-mode :
    (s : Bytes) (b : BackupMode)
    → mode_string b ≡ ok s
    → ((b ≡ 1) × (s ≡ codes "default"))
      ⊎ (((b ≡ 3) × (s ≡ codes "dependent-offline")) ⊎ ((b ≡ 2) × (s ≡ codes "offline")))
unfolding mode_string
split-mode s b h = ground arith

mode_from_string-mode_string :
    (s : Bytes) (b : BackupMode) → mode_string b ≡ ok s → mode_from_string s ≡ ok b
unfolding mode_from_string ◌==◌
mode_from_string-mode_string s b h = elim (split-mode s b h) [
  | inl e ↦ rw (e.0, e.1) refl
  | inr (inl e) ↦ rw (e.0, e.1) refl
  | inr (inr e) ↦ rw (e.0, e.1) refl
]

-- `BackupModeFromString` reads the mode b from the text s exactly when s is `b.String()`, so the
-- two are inverse on the named modes, and no other text is read.
pub mode_from_string_iff :
    (s : Bytes) (b : BackupMode) → (mode_from_string s ≡ ok b) ↔ (mode_string b ≡ ok s)
unfolding mode_from_string mode_string
mode_from_string_iff s b = (
  λ h. ground (
    arith,
    ==_iff s (codes "default"),
    ==_iff s (codes "dependent-offline"),
    ==_iff s (codes "offline"),
  ),
  mode_from_string-mode_string s b,
)
