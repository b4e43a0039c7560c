-- ===== src/Config/Watch.antt =====
-- config/watch.go: the goroutine of `NewWatch` as a function of the signals that its `select` receives,
-- each with the state of the files when it is handled. Each send is received.
use borg_collective.Base.{
  Bool, true, false, ◌&&◌, Option, none, some, List, [], ◌∷◌, ◌++◌, Bytes, codes, ◌==◌, eqb,
  if◌then◌else◌, reverse,
}
use borg_collective.Base.Exec.{Outcome, ok, err, panic, fatal}
use borg_collective.Container.Paths.{path_clean}
use borg_collective.Config.Load.{Config, Loader, load_config}

-- Drops the bytes after the last slash, of a reversed path.
unfoldable pub drop_element : Bytes → Bytes
drop_element [] = []
drop_element (c ∷ s) = let rest = drop_element s in if eqb c b'/' then c ∷ s else rest

-- `filepath.Dir` on Unix.
unfoldable pub path_dir : Bytes → Bytes
path_dir path = path_clean (reverse (drop_element (reverse path)))

-- What is read of an `fsnotify.Event`.
pub record Event : Type 0 where
  pub name : Bytes
  pub has_remove : Bool
  pub has_write : Bool

-- The watcher of fsnotify; a result is the error, if there is one.
pub record Watcher : Type 1 where
  pub State : Type 0
  pub add : Bytes → State → Option Bytes × State
  pub remove : Bytes → State → Option Bytes × State

-- What the goroutine sends on its two channels.
pub data Output (S : Type 0) : Type 0 where
  updated : Config S → Output S
  failed : Bytes → Output S

module _ ⦃L : Loader⦄ where
  pub data Signal : Type 0 where
    event : Event → L.State → Signal
    watcher_error : Bytes → Signal
    -- Half a second without another signal.
    idle : Signal
    -- A closed channel, or the end of the context.
    closed : Signal

module _ ⦃L : Loader⦄ ⦃W : Watcher⦄ where
  -- `is_removed` tells that `lastOp` is not zero; `sent` has the newest output first.
  pub record Loop : Type 0 where
    pub watching_parent_dir : Bool
    pub is_removed : Bool
    pub is_over : Bool
    pub watcher : W.State
    pub sent : List (Output L.Schedule)

  -- An error is sent, and the goroutine returns.
  abbrev pub fail : Bytes → Loop → Loop
  fail e w = record w { is_over = true; sent = failed e ∷ w.sent }

  unfoldable pub handle_remove : Bytes → Bytes → Loop → Loop
  handle_remove path name w =
      let (e, s) = W.add (path_dir name) w.watcher in
      let added : Loop = elim e [
        | none ↦ record w { is_removed = true; watcher = s; watching_parent_dir = true }
        | some problem ↦ fail problem (record w { is_removed = true; watcher = s })
      ] in
      if w.watching_parent_dir
      then fail (codes "config file parent directory was removed: " ++ path_dir path) w
      else added

  -- The file is watched again in place of its directory.
  unfoldable pub watch_file : Bytes → Loop → Loop
  watch_file path w =
      let (e, s) = W.remove (path_dir path) w.watcher in
      let (e', s') = W.add path s in
      let again : Loop = elim e [
        | some problem ↦ fail problem (record w { watcher = s })
        | none ↦ elim e' [
          | some problem ↦ fail problem (record w { watcher = s'; watching_parent_dir = false })
          | none ↦ record w { watcher = s'; watching_parent_dir = false }
        ]
      ] in
      if w.watching_parent_dir then again else w

  -- An error of `LoadConfig` is logged.
  unfoldable pub reload : Bytes → L.State → Loop → Loop
  reload path files w = elim (load_config path files) [
    | ok conf ↦ record w { sent = updated conf ∷ w.sent }
    | err e ↦ w
    | panic ↦ record w { is_over = true }
    | fatal ↦ record w { is_over = true }
  ]

  unfoldable pub handle_write : Bytes → L.State → Loop → Loop
  handle_write path files w =
      let w' = watch_file path w in if w'.is_over then w' else reload path files w'

  unfoldable pub handle_fs_event : Bytes → Event → L.State → Loop → Loop
  handle_fs_event path e files w =
      let kept : Loop = record w { is_removed = false } in
      if e.has_remove
      then handle_remove path e.name w
      else if e.has_write && e.name == path
      then handle_write path files kept
      else kept

  -- A round of the loop.
  unfoldable pub handle_signal : Bytes → Signal → Loop → Loop
  handle_signal path (event e files) w = handle_fs_event path e files w
  handle_signal path (watcher_error e) w = fail e w
  handle_signal path idle w =
      if w.is_removed then fail (codes "timed out after last op REMOVE") w else w
  handle_signal path closed w = record w { is_over = true }

  unfoldable pub run_watch : Bytes → List Signal → Loop → Loop
  run_watch path [] w = w
  run_watch path (signal ∷ signals) w =
      run_watch path signals (if w.is_over then w else handle_signal path signal w)

  -- `NewWatch`, up to the goroutine.
  unfoldable pub new_watch : Bytes → W.State → Outcome Bytes Loop
  new_watch path s =
      let (e, s') = W.add path s in
      elim e [
        | some problem ↦ err problem
        | none ↦ ok (record {
          watching_parent_dir = false;
          is_removed = false;
          is_over = false;
          watcher = s';
          sent = [];
        })
      ]
