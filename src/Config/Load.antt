-- ===== src/Config/Load.antt =====
-- config/config.go: the configuration and `LoadConfig`.
use borg_collective.Base.{
  Bool, true, false, Option, none, some, List, [], ◌∷◌, ◌++◌, Bytes, codes, if◌then◌else◌,
}
use borg_collective.Base.Exec.{Outcome, ok, err, panic, fatal}
use borg_collective.Worker.Static.{BackupConfig}

pub record RepositoryConfig (S : Type 0) : Type 0 where
  pub location : Bytes
  pub identity_file : Option Bytes
  pub compaction_schedule_value : Option Bytes
  pub compaction_schedule : Option S

pub record EncryptionConfig : Type 0 where
  pub secret : Option Bytes
  pub secret_command : Option Bytes

-- A backup with the fields of its schedule.
pub record BackupEntry (S : Type 0) : Type 0 where
  pub backup : BackupConfig
  pub schedule_value : Bytes
  pub schedule : Option S

-- `temp_dir` is the one field of the options.
pub record Config (S : Type 0) : Type 0 where
  pub temp_dir : Option Bytes
  pub repo : RepositoryConfig S
  pub encryption : Option EncryptionConfig
  pub backups : List (BackupEntry S)

-- The file system, the decoder for TOML, which leaves the private fields alone, and the parser of
-- schedules.
pub record Loader : Type 1 where
  pub State : Type 0
  pub Schedule : Type 0
  pub open_file : Bytes → State → Outcome Bytes Bytes
  pub decode : Bytes → Outcome Bytes (Config Schedule)
  pub parse_standard : Bytes → Outcome Bytes Schedule

-- Both secrets are missing.
abbrev pub lacks_secret : EncryptionConfig → Bool
lacks_secret encryption = elim encryption.secret [
  | none ↦ elim encryption.secret_command [ none ↦ true | some _ ↦ false ]
  | some _ ↦ false
]

unfoldable pub check_encryption : Option EncryptionConfig → Outcome Bytes Unit
check_encryption none = ok tt
check_encryption (some encryption) =
    if lacks_secret encryption
    then err (codes "encryption config must specify either Secret or SecretCommand")
    else ok tt

module _ ⦃L : Loader⦄ where
  unfoldable pub parse_compaction :
      RepositoryConfig L.Schedule → Outcome Bytes (RepositoryConfig L.Schedule)
  parse_compaction repo = elim repo.compaction_schedule_value [
    | none ↦ ok repo
    | some value ↦ elim (L.parse_standard value) [
      | ok schedule ↦ ok (record repo { compaction_schedule = some schedule })
      | err e ↦ err (codes "invalid compaction schedule " ++ (value ++ (codes ": " ++ e)))
      | panic ↦ panic
      | fatal ↦ fatal
    ]
  ]

  -- The body of the loop over the backups, with the loop variable that it leaves.
  unfoldable pub parse_backup : BackupEntry L.Schedule → Outcome Bytes (BackupEntry L.Schedule)
  parse_backup entry = elim (L.parse_standard entry.schedule_value) [
    | ok schedule ↦ ok (record entry { schedule = some schedule })
    | err e ↦ err (
        codes "invalid backup schedule for "
        ++ (entry.backup.name ++ (codes " (" ++ (entry.schedule_value ++ (codes "): " ++ e)))))
    | panic ↦ panic
    | fatal ↦ fatal
  ]

  -- The loop, whose variable is a copy of the backup.
  unfoldable pub parse_backups : List (BackupEntry L.Schedule) → Outcome Bytes Unit
  parse_backups [] = ok tt
  parse_backups (entry ∷ backups) = elim (parse_backup entry) [
    | ok copy ↦ parse_backups backups
    | err e ↦ err e
    | panic ↦ panic
    | fatal ↦ fatal
  ]

  -- The checks of a configuration that was decoded.
  unfoldable pub check_config : Config L.Schedule → Outcome Bytes (Config L.Schedule)
  check_config conf = elim (parse_compaction conf.repo) [
    | ok repo ↦ elim (check_encryption conf.encryption) [
      | ok _ ↦ elim (parse_backups conf.backups) [
        | ok _ ↦ ok (record conf { repo = repo })
        | err e ↦ err e
        | panic ↦ panic
        | fatal ↦ fatal
      ]
      | err e ↦ err e
      | panic ↦ panic
      | fatal ↦ fatal
    ]
    | err e ↦ err e
    | panic ↦ panic
    | fatal ↦ fatal
  ]

  unfoldable pub load_config : Bytes → L.State → Outcome Bytes (Config L.Schedule)
  load_config path s = elim (L.open_file path s) [
    | ok text ↦ elim (L.decode text) [
      | ok conf ↦ check_config conf
      | err e ↦ err e
      | panic ↦ panic
      | fatal ↦ fatal
    ]
    | err e ↦ err e
    | panic ↦ panic
    | fatal ↦ fatal
  ]
