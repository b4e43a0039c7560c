-- ===== src/Borg/Client.antt =====
-- borg-collective/internal/drone/borg/borg.go: the commands of the client. Each reads the
-- configuration under its lock, so that the configuration is an argument.
use borg_collective.Base.{
  ℕ, Bool, false, ◌||◌, Option, none, some, List, [], ◌∷◌, ◌++◌, Bytes, codes, eqb, if◌then◌else◌,
  has_prefix, reverse,
}
use borg_collective.Base.Exec.{
  Outcome, ok, err, panic, fatal, pure, raise, lift, on_error, panics, ◌>>=◌, ◌>>◌,
}
use borg_collective.Base.Assoc.{Assoc, insert}
use borg_collective.Borg.Api.{Error, canceled, external, wrapped, Borg}
use borg_collective.Borg.Run.{M, run, handle_borg_return_code}

-- `config.EncryptionConfig` and `config.RepositoryConfig`, with what the client reads of them.
pub record EncryptionConfig : Type 0 where
  pub secret : Option Bytes
  pub secret_command : Option Bytes

pub record RepositoryConfig : Type 0 where
  pub location : Bytes
  pub identity_file : Option Bytes

pub record Config : Type 0 where
  pub repo : RepositoryConfig
  pub encryption : Option EncryptionConfig

unfoldable pub default_env : Assoc Bytes
default_env =
    (codes "LANG", codes "en_US.UTF-8")
    ∷ (codes "LC_CTYPE", codes "en_US.UTF-8")
    ∷ (codes "BORG_EXIT_CODES", codes "modern")
    ∷ []

-- The secret is dereferenced where there is no command.
unfoldable pub env : Config → Outcome Error (Assoc Bytes)
env config = elim config.encryption [
  | none ↦ ok default_env
  | some encryption ↦ elim encryption.secret_command [
    | some command ↦ ok (insert (codes "BORG_PASSCOMMAND") command default_env)
    | none ↦ elim encryption.secret [
      | some secret ↦ ok (insert (codes "BORG_PASSPHRASE") secret default_env)
      | none ↦ panic
    ]
  ]
]

unfoldable pub set_rsh : Config → List Bytes → List Bytes
set_rsh config args = elim config.repo.identity_file [
  | none ↦ args
  | some file ↦ args ++ codes "--rsh" ∷ (codes "ssh -i " ++ file) ∷ []
]

abbrev pub create_args : List Bytes
create_args = codes "create" ∷ codes "--json" ∷ codes "--compression" ∷ codes "zlib,6" ∷ []

-- `fmt.Sprintf("%s::%s", …)`
abbrev pub archive_of : Config → Bytes → Bytes
archive_of config archive_name = config.repo.location ++ (codes "::" ++ archive_name)

unfoldable pub info_args : Config → List Bytes
info_args config = set_rsh config (codes "info" ∷ codes "--json" ∷ []) ++ config.repo.location ∷ []

unfoldable pub init_args : Config → List Bytes
init_args config =
    let mode : Bytes = elim config.encryption [
      | some _ ↦ codes "--encryption=keyfile"
      | none ↦ codes "--encryption=none"
    ] in
    set_rsh config (codes "init" ∷ codes "--make-parent-dirs" ∷ mode ∷ [])
    ++ config.repo.location ∷ []

unfoldable pub create_with_paths_args : Config → Bytes → List Bytes → List Bytes
create_with_paths_args config archive_name paths =
    set_rsh config create_args ++ archive_of config archive_name ∷ paths

unfoldable pub create_with_input_args : Config → Bytes → List Bytes
create_with_input_args config archive_name =
    set_rsh config create_args ++ archive_of config archive_name ∷ codes "-" ∷ []

unfoldable pub compact_args : Config → List Bytes
compact_args config = set_rsh config (codes "compact" ∷ []) ++ config.repo.location ∷ []

-- `filepath.IsAbs` on Unix.
unfoldable pub is_abs : Bytes → Bool
is_abs path = has_prefix path (codes "/")

-- The first path that is not absolute.
unfoldable pub find_relative : List Bytes → Option Bytes
find_relative [] = none
find_relative (path ∷ paths) =
    let rest = find_relative paths in if is_abs path then rest else some path

-- `strings.TrimSpace` on ASCII.
abbrev is_space : ℕ → Bool
is_space c = eqb c 32 || eqb c 9 || eqb c 10 || eqb c 11 || eqb c 12 || eqb c 13

unfoldable pub trim_left : Bytes → Bytes
trim_left [] = []
trim_left (c ∷ s) = let rest = trim_left s in if is_space c then rest else c ∷ s

unfoldable pub trim_space : Bytes → Bytes
unfolding trim_left
trim_space s = reverse (trim_left (reverse (trim_left s)))

-- `strings.Split(s, " ")`
unfoldable pub split_spaces : Bytes → List Bytes
split_spaces [] = [] ∷ []
split_spaces (c ∷ s) =
    let rest = split_spaces s in
    if eqb c 32
    then [] ∷ rest
    else elim rest [ [] ↦ (c ∷ []) ∷ [] | part ∷ parts ↦ (c ∷ part) ∷ parts ]

-- The error of `CreateWithInput`.
abbrev pub wrap_unless_canceled : Error → Error
wrap_unless_canceled canceled = canceled
wrap_unless_canceled e = wrapped (codes "failed to run borg create with stdin: ") e

module _ ⦃B : Borg⦄ where
  -- `fuel` is that of the loop over log lines.
  abbrev pub run_and_handle :
      {A : Type 0} → ℕ → Config → Bytes → List Bytes → Option (Bytes → Option A) → A → M A
  run_and_handle fuel config context args decode zero_value = do
    environment ← lift (env config)
    (code, messages, result) ←
        on_error (run fuel false args environment none decode) (λ e. raise (wrapped context e))
    handle_borg_return_code code messages
    pure (elim result [ none ↦ zero_value | some value ↦ value ])

  unfoldable pub info : ℕ → Config → M B.InfoListOutput
  info fuel config =
      run_and_handle fuel config (codes "failed to run borg info: ") (info_args config)
        (some B.json_info) B.no_info

  unfoldable pub init : ℕ → Config → M Unit
  init fuel config =
      run_and_handle fuel config (codes "failed to run borg init: ") (init_args config) none tt

  unfoldable pub create_with_paths : ℕ → Config → Bytes → List Bytes → M B.CreateOutput
  create_with_paths fuel config archive_name paths = elim (find_relative paths) [
    | some path ↦ raise (external (codes "path " ++ (path ++ codes " is not an absolute path")))
    | none ↦
        run_and_handle fuel config (codes "failed to run borg create with paths: ")
          (create_with_paths_args config archive_name paths) (some B.json_create) B.no_stats
  ]

  -- `none` is a nil reader. A cancelled context is returned as it is.
  unfoldable pub create_with_input : ℕ → Config → Bool → Bytes → Option B.Input → M B.CreateOutput
  create_with_input fuel config cancellable archive_name input = elim input [
    | none ↦ panics
    | some reader ↦ do
      environment ← lift (env config)
      (code, messages, result) ←
          on_error
            (run fuel cancellable (create_with_input_args config archive_name) environment
              (some reader) (some B.json_create))
            (λ e. raise (wrap_unless_canceled e))
      handle_borg_return_code code messages
      pure (elim result [ none ↦ B.no_stats | some stats ↦ stats ])
  ]

  unfoldable pub compact : ℕ → Config → M Unit
  compact fuel config =
      run_and_handle fuel config (codes "failed to run borg compact: ") (compact_args config) none
        tt

  unfoldable pub version : M B.Version
  version w = elim (B.version_output w.borg) [
    | ok output ↦ elim (split_spaces (trim_space output)) [
      | _ ∷ number ∷ [] ↦ elim (B.new_version number) [
        | ok v ↦ (ok v, w)
        | err e ↦ (err (external e), w)
        | panic ↦ (panic, w)
        | fatal ↦ (fatal, w)
      ]
      | _ ↦ (err (external (codes "failed to parse borg version: " ++ output)), w)
    ]
    | err e ↦ (err (wrapped (codes "failed to get borg version: ") (external e)), w)
    | panic ↦ (panic, w)
    | fatal ↦ (fatal, w)
  ]

  -- `NewClient`, which only checks the version.
  unfoldable pub new_client : M Unit
  new_client = do
    v ← on_error version (λ e. raise (wrapped (codes "failed to check borg version: ") e))
    if B.is_below_min v || B.is_from_upper v
        then raise (external (codes "unsupported borg version"))
        else pure tt
