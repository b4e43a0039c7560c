-- ===== src/Config/Loading.antt =====
-- Which configurations `LoadConfig` of config/config.go returns.
use borg_collective.Base.{
  Bool, true, false, ◌&&◌, not, Option, none, some, List, [], ◌∷◌, Bytes, ◌≡◌, ◌↔◌, refl, arith,
  ◌⊎◌, inl, inr, Option-cases,
}
use borg_collective.Base.Exec.{Outcome, ok, Outcome-cases}
use borg_collective.Config.Load.{
  RepositoryConfig, EncryptionConfig, BackupEntry, Config, Loader, lacks_secret, check_encryption,
  parse_compaction, parse_backup, parse_backups, check_config, load_config,
}

abbrev has_secret : Option EncryptionConfig → Bool
has_secret none = true
has_secret (some encryption) = not (lacks_secret encryption)

abbrev is_parsed {ℓ} : {E A : Type ℓ} → Outcome E A → Bool
is_parsed (ok _) = true
is_parsed _ = false

module _ ⦃L : Loader⦄ where
  abbrev are_scheduled : List (BackupEntry L.Schedule) → Bool
  are_scheduled [] = true
  are_scheduled (entry ∷ backups) =
      is_parsed (L.parse_standard entry.schedule_value) && are_scheduled backups

  -- The compaction schedule that belongs to its text.
  abbrev pub IsCompaction : RepositoryConfig L.Schedule → Option L.Schedule → Type 0
  IsCompaction repo parsed =
      ((repo.compaction_schedule_value ≡ none) × (parsed ≡ repo.compaction_schedule))
      ⊎ ((value : Bytes) × (schedule : L.Schedule) × (repo.compaction_schedule_value ≡ some value)
          × (L.parse_standard value ≡ ok schedule)
          × (parsed ≡ some schedule))

  abbrev pub with_compaction : Option L.Schedule → Config L.Schedule → Config L.Schedule
  with_compaction compaction conf = record conf {
    repo = record conf.repo { compaction_schedule = compaction };
  }

  -- The text is that of a configuration whose schedules parse, and whose encryption, if there is one,
  -- has a secret or a command for it.
  abbrev pub IsAccepted : Bytes → Config L.Schedule → Option L.Schedule → Type 0
  IsAccepted text conf compaction =
      (L.decode text ≡ ok conf)
      × IsCompaction conf.repo compaction
      × (has_secret conf.encryption ≡ true)
      × (are_scheduled conf.backups ≡ true)

  parse_backups_iff :
      (backups : List (BackupEntry L.Schedule))
      → (parse_backups backups ≡ ok tt) ↔ (are_scheduled backups ≡ true)
  unfolding parse_backups parse_backup
  parse_backups_iff [] = (λ h. refl, λ h. refl)
  parse_backups_iff (entry ∷ backups) =
      let rest = parse_backups_iff backups in
      (λ h. ground (arith, h, rest), λ h. ground (arith, h, rest))

  check_encryption_iff :
      (encryption : Option EncryptionConfig)
      → (check_encryption encryption ≡ ok tt) ↔ (has_secret encryption ≡ true)
  unfolding check_encryption
  check_encryption_iff encryption = (λ h. ground (arith, h), λ h. ground (arith, h))

  parse_compaction-IsCompaction :
      (repo parsed : RepositoryConfig L.Schedule)
      → parse_compaction repo ≡ ok parsed
      → (compaction : Option L.Schedule) × IsCompaction repo compaction
        × (parsed ≡ record repo { compaction_schedule = compaction })
  unfolding parse_compaction
  parse_compaction-IsCompaction repo parsed h = elim (Option-cases repo.compaction_schedule_value) [
    | inl e ↦ (repo.compaction_schedule, inl (e, refl), ground (arith, h, e))
    | inr (value, e) ↦ elim (Outcome-cases (L.parse_standard value)) [
      | inl (schedule, e') ↦
          (some schedule, inr (value, schedule, e, e', refl), ground (arith, h, e, e'))
      | inr e' ↦ absurd (ground (arith, h, e, e'))
    ]
  ]

  parse_compaction-ok :
      (repo : RepositoryConfig L.Schedule) (compaction : Option L.Schedule)
      → IsCompaction repo compaction
      → parse_compaction repo ≡ ok (record repo { compaction_schedule = compaction })
  unfolding parse_compaction
  parse_compaction-ok repo compaction h = ground (arith, h)

  check_config-IsAccepted :
      (text : Bytes) (conf loaded : Config L.Schedule)
      → L.decode text ≡ ok conf
      → check_config conf ≡ ok loaded
      → (compaction : Option L.Schedule) × IsAccepted text conf compaction
        × (loaded ≡ with_compaction compaction conf)
  unfolding check_config
  check_config-IsAccepted text conf loaded d h = elim (Outcome-cases (parse_compaction conf.repo)) [
    | inl (repo, e) ↦
        let (compaction, c, same) = parse_compaction-IsCompaction conf.repo repo e in
        (
          compaction,
          (
            d,
            c,
            ground (arith, h, e, check_encryption_iff conf.encryption),
            ground (arith, h, e, parse_backups_iff conf.backups),
          ),
          ground (arith, h, e, same),
        )
    | inr e ↦ absurd (ground (arith, h, e))
  ]

  check_config-ok :
      (text : Bytes) (conf : Config L.Schedule) (compaction : Option L.Schedule)
      → IsAccepted text conf compaction
      → check_config conf ≡ ok (with_compaction compaction conf)
  unfolding check_config
  check_config-ok text conf compaction (d, c, has, are) = ground (
    arith,
    parse_compaction-ok conf.repo compaction c,
    check_encryption_iff conf.encryption,
    parse_backups_iff conf.backups,
    has,
    are,
  )

  -- What `LoadConfig` is to return.
  abbrev pub IsLoaded : Bytes → L.State → Config L.Schedule → Type 0
  IsLoaded path s loaded =
      (text : Bytes) × (conf : Config L.Schedule) × (compaction : Option L.Schedule) × (L.open_file
          path s
        ≡ ok text)
      × IsAccepted text conf compaction
      × (loaded ≡ with_compaction compaction conf)

  -- `LoadConfig` returns a configuration exactly when the file opens, its text is accepted, and the
  -- configuration is the decoded one with the compaction schedule of its text: in particular the
  -- backups are returned as they were decoded, without the schedules that were parsed for them.
  pub load_config_iff :
      (path : Bytes) (s : L.State) (loaded : Config L.Schedule)
      → (load_config path s ≡ ok loaded) ↔ IsLoaded path s loaded
  unfolding load_config
  load_config_iff path s loaded = (
    λ h. elim (Outcome-cases (L.open_file path s)) [
      | inl (text, e) ↦ elim (Outcome-cases (L.decode text)) [
        | inl (conf, e') ↦
            let (compaction, accepted, same) =
              check_config-IsAccepted text conf loaded e' (ground (arith, h, e, e')) in
            (text, conf, compaction, e, accepted, same)
        | inr e' ↦ absurd (ground (arith, h, e, e'))
      ]
      | inr e ↦ absurd (ground (arith, h, e))
    ],
    λ (text, conf, compaction, e, accepted, same).
        ground (arith, e, accepted.0, check_config-ok text conf compaction accepted, same),
  )
