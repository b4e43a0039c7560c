-- ===== src/Worker/Common.antt =====
-- worker/common.go and utils/borg.go.
use borg_collective.Base.{
  ℕ, ltb, leb, Bool, true, false, ◌||◌, ◌&&◌, List, [], ◌∷◌, ◌++◌, Bytes, codes, ◌==◌, eqb,
  if◌then◌else◌,
}
use borg_collective.Base.Exec.{pure, raise, ◌>>=◌, ◌>>◌}
use borg_collective.Container.Model.{ContainerBackup}
use borg_collective.Worker.Host.{Host, J, note, complete, create_paths, now}

-- `slices.Contains`
unfoldable pub contains : List Bytes → Bytes → Bool
contains [] x = false
contains (y ∷ ys) x = y == x || contains ys x

-- `containerPlan.Less`, on the two containers.
unfoldable pub less : ContainerBackup → ContainerBackup → Bool
less a b = contains a.dependencies b.service_name || ltb a.mode b.mode

-- A byte of the class `[_a-zA-Z0-9]`.
abbrev is_word : ℕ → Bool
is_word c =
    eqb c b'_'
    || (leb b'a' c && leb c b'z')
    || (leb b'A' c && leb c b'Z')
    || (leb b'0' c && leb c b'9')

-- `ReplaceAllString` with "_" for every longest run of other bytes; `within` tells that the run has
-- begun.
unfoldable pub normalize : Bool → Bytes → Bytes
normalize within [] = []
normalize within (c ∷ name) =
    let word = is_word c in
    let rest = normalize (if word then false else true) name in
    if word then c ∷ rest else if within then rest else b'_' ∷ rest

module _ ⦃H : Host⦄ where
  unfoldable pub archive_name : Bytes → J Bytes
  archive_name base = do time ← now; pure (normalize false base ++ (b'-' ∷ time))

  unfoldable pub log_backup_complete : Bytes → J Unit
  log_backup_complete backup_name = note (complete backup_name)

  unfoldable pub backup_paths : Bytes → List Bytes → J Unit
  backup_paths backup_name [] = raise (codes "no paths specified")
  backup_paths backup_name (path ∷ paths) = do
    archive ← archive_name backup_name
    create_paths archive (path ∷ paths)
    log_backup_complete backup_name
