-- ===== src/Config/Watching.antt =====
-- What the watch of config/watch.go sends.
use borg_collective.Base.{
  Bool, true, false, not, ◌&&◌, List, [], ◌∷◌, ◌++◌, Bytes, codes, ◌==◌, ◌≡◌, refl, arith, ◌⊎◌, inl,
  inr, if◌then◌else◌, Option-cases, Bool-cases,
}
use borg_collective.Base.Exec.{ok, Outcome-cases}
use borg_collective.Config.Load.{Config, Loader, load_config}
use borg_collective.Config.Watch.{
  path_dir, Watcher, Output, updated, failed, Signal, event, watcher_error, idle, closed, Loop,
  handle_remove, watch_file, reload, handle_write, handle_fs_event, handle_signal, run_watch,
  new_watch,
}

module _ ⦃L : Loader⦄ where
  abbrev pub has_failure : List (Output L.Schedule) → Bool
  has_failure [] = false
  has_failure (updated conf ∷ sent) = has_failure sent
  has_failure (failed e ∷ sent) = true

  -- No output but the newest is an error.
  abbrev pub only_last_fails : List (Output L.Schedule) → Bool
  only_last_fails [] = true
  only_last_fails (newest ∷ sent) = not (has_failure sent)

module _ ⦃L : Loader⦄ ⦃W : Watcher⦄ where
  abbrev is_sound_loop : Loop → Bool
  is_sound_loop w = if w.is_over then only_last_fails w.sent else not (has_failure w.sent)

  watch_file-is_sound_loop :
      (path : Bytes) (w : Loop)
      → has_failure w.sent ≡ false
      → w.is_over ≡ false
      → is_sound_loop (watch_file path w) ≡ true
  unfolding watch_file
  watch_file-is_sound_loop path w h o = ground (arith, h, o)

  reload-is_sound_loop :
      (path : Bytes) (files : L.State) (w : Loop)
      → has_failure w.sent ≡ false
      → w.is_over ≡ false
      → is_sound_loop (reload path files w) ≡ true
  unfolding reload
  reload-is_sound_loop path files w h o = elim (Outcome-cases (load_config path files)) [
    | inl (conf, e) ↦ ground (arith, h, o, e)
    | inr e ↦ ground (arith, h, o, e)
  ]

  handle_signal-is_sound_loop :
      (path : Bytes) (signal : Signal) (w : Loop)
      → has_failure w.sent ≡ false
      → w.is_over ≡ false
      → is_sound_loop (handle_signal path signal w) ≡ true
  unfolding handle_signal handle_fs_event handle_remove handle_write
  handle_signal-is_sound_loop path (event e files) w h o =
      let kept : Loop = record w { is_removed = false } in
      let watched = watch_file path kept in
      ground (
        arith,
        h,
        o,
        watch_file-is_sound_loop path kept h o,
        reload-is_sound_loop path files watched,
      )
  handle_signal-is_sound_loop path (watcher_error e) w h o = ground (arith, h, o)
  handle_signal-is_sound_loop path idle w h o = ground (arith, h, o)
  handle_signal-is_sound_loop path closed w h o = ground (arith, h, o)

  run_watch-is_sound_loop :
      (path : Bytes) (signals : List Signal) (w : Loop)
      → is_sound_loop w ≡ true
      → is_sound_loop (run_watch path signals w) ≡ true
  unfolding run_watch
  run_watch-is_sound_loop path [] w h = h
  run_watch-is_sound_loop path (signal ∷ signals) w h =
      run_watch-is_sound_loop path signals (if w.is_over then w else handle_signal path signal w)
        (ground (arith, h, handle_signal-is_sound_loop path signal w))

  -- The loaded configurations that were sent.
  abbrev pub AreLoaded : Bytes → List (Output L.Schedule) → Type 0
  AreLoaded path [] = Unit
  AreLoaded path (updated conf ∷ sent) =
      ((files : L.State) × (load_config path files ≡ ok conf)) × AreLoaded path sent
  AreLoaded path (failed e ∷ sent) = AreLoaded path sent

  -- What a step may add to the outputs.
  abbrev Adds : Bytes → List (Output L.Schedule) → List (Output L.Schedule) → Type 0
  Adds path sent after =
      (after ≡ sent)
      ⊎ ((e : Bytes) × (after ≡ failed e ∷ sent))
      ⊎ ((files : L.State) × (conf : Config L.Schedule) × (load_config path files ≡ ok conf)
          × (after ≡ updated conf ∷ sent))

  Adds-AreLoaded :
      (path : Bytes) (sent after : List (Output L.Schedule))
      → Adds path sent after
      → AreLoaded path sent
      → AreLoaded path after
  Adds-AreLoaded path sent after a h = elim a [
    | inl e ↦ rw e h
    | inr (inl (e, same)) ↦ rw same h
    | inr (inr (files, conf, e, same)) ↦ rw same ((files, e), h)
  ]

  watch_file-sent :
      (path : Bytes) (w : Loop)
      → ((watch_file path w).sent ≡ w.sent)
        ⊎ ((e : Bytes) × ((watch_file path w).sent ≡ failed e ∷ w.sent)
            × ((watch_file path w).is_over ≡ true))
  unfolding watch_file
  watch_file-sent path w =
      let first = W.remove (path_dir path) w.watcher in
      elim (Bool-cases w.watching_parent_dir) [
        | inl d ↦ elim (Option-cases first.0) [
          | inl e ↦ elim (Option-cases (W.add path first.1).0) [
            | inl e' ↦ inl (ground (arith, d, e, e'))
            | inr (x, e') ↦ inr (x, ground (arith, d, e, e'), ground (arith, d, e, e'))
          ]
          | inr (x, e) ↦ inr (x, ground (arith, d, e), ground (arith, d, e))
        ]
        | inr d ↦ inl (ground (arith, d))
      ]

  reload-Adds :
      (path : Bytes) (files : L.State) (w : Loop) → Adds path w.sent (reload path files w).sent
  unfolding reload
  reload-Adds path files w = elim (Outcome-cases (load_config path files)) [
    | inl (conf, e) ↦ inr (inr (files, conf, e, ground (arith, e)))
    | inr e ↦ inl (ground (arith, e))
  ]

  handle_write-Adds :
      (path : Bytes) (files : L.State) (w : Loop)
      → w.is_over ≡ false
      → Adds path w.sent (handle_write path files w).sent
  unfolding handle_write
  handle_write-Adds path files w o =
      let after = watch_file path w in
      elim (Bool-cases after.is_over) [
        | inl over ↦ elim (watch_file-sent path w) [
          | inl same ↦ inl (ground (arith, over, same))
          | inr (e, same, _) ↦ inr (inl (e, ground (arith, over, same)))
        ]
        | inr going ↦ elim (watch_file-sent path w) [
          | inl same ↦ elim (reload-Adds path files after) [
            | inl e ↦ inl (ground (arith, going, same, e))
            | inr (inl (x, e)) ↦ inr (inl (x, ground (arith, going, same, e)))
            | inr (inr (fs, conf, l, e)) ↦ inr (inr (fs, conf, l, ground (arith, going, same, e)))
          ]
          | inr (e, same, over) ↦ absurd (ground (arith, going, over))
        ]
      ]

  handle_remove-Adds :
      (path name : Bytes) (w : Loop) → Adds path w.sent (handle_remove path name w).sent
  unfolding handle_remove
  handle_remove-Adds path name w = elim (Bool-cases w.watching_parent_dir) [
    | inl d ↦ inr (
        inl
          (codes "config file parent directory was removed: " ++ path_dir path, ground (arith, d)))
    | inr d ↦ elim (Option-cases (W.add (path_dir name) w.watcher).0) [
      | inl e ↦ inl (ground (arith, d, e))
      | inr (x, e) ↦ inr (inl (x, ground (arith, d, e)))
    ]
  ]

  handle_signal-Adds :
      (path : Bytes) (signal : Signal) (w : Loop)
      → w.is_over ≡ false
      → Adds path w.sent (handle_signal path signal w).sent
  unfolding handle_signal handle_fs_event
  handle_signal-Adds path (event e files) w o = elim (Bool-cases e.has_remove) [
    | inl r ↦ rw r (handle_remove-Adds path e.name w)
    | inr r ↦ elim (Bool-cases (e.has_write && e.name == path)) [
      | inl c ↦ rw (r, c) (handle_write-Adds path files (record w { is_removed = false }) o)
      | inr c ↦ inl (ground (arith, r, c))
    ]
  ]
  handle_signal-Adds path (watcher_error e) w o = inr (inl (e, refl))
  handle_signal-Adds path idle w o = elim (Bool-cases w.is_removed) [
    | inl r ↦ inr (inl (codes "timed out after last op REMOVE", ground (arith, r)))
    | inr r ↦ inl (ground (arith, r))
  ]
  handle_signal-Adds path closed w o = inl refl

  run_watch-AreLoaded :
      (path : Bytes) (signals : List Signal) (w : Loop)
      → AreLoaded path w.sent
      → AreLoaded path (run_watch path signals w).sent
  unfolding run_watch
  run_watch-AreLoaded path [] w h = h
  run_watch-AreLoaded path (signal ∷ signals) w h =
      run_watch-AreLoaded path signals (if w.is_over then w else handle_signal path signal w)
        (Adds-AreLoaded path w.sent _ added h)
    where
      added : Adds path w.sent (if w.is_over then w else handle_signal path signal w).sent
      added = elim (Bool-cases w.is_over) [
        | inl o ↦ inl (ground (arith, o))
        | inr o ↦ elim (handle_signal-Adds path signal w o) [
          | inl e ↦ inl (ground (arith, o, e))
          | inr (inl (x, e)) ↦ inr (inl (x, ground (arith, o, e)))
          | inr (inr (fs, conf, l, e)) ↦ inr (inr (fs, conf, l, ground (arith, o, e)))
        ]
      ]

  -- Whatever signals the watch of a file receives after it was started, it sends only configurations
  -- that `LoadConfig` returned for the file, it sends no error while it goes on, and once it is over,
  -- no output but its last is an error.
  pub run_watch_outputs :
      (path : Bytes) (s : W.State) (w : Loop) (signals : List Signal)
      → new_watch path s ≡ ok w
      → AreLoaded path (run_watch path signals w).sent
        × ((if (run_watch path signals w).is_over
              then only_last_fails (run_watch path signals w).sent
              else not (has_failure (run_watch path signals w).sent))
            ≡ true)
  unfolding new_watch
  run_watch_outputs path s w signals h =
      let quiet : w.sent ≡ [] = ground (arith, h) in
      let going : w.is_over ≡ false = ground (arith, h) in
      (
        run_watch-AreLoaded path signals w (rw quiet tt),
        run_watch-is_sound_loop path signals w (ground (arith, quiet, going)),
      )
