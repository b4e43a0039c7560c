-- ===== src/Config/Removal.antt =====
-- The watch of config/watch.go after its file was removed.
use borg_collective.Base.{
  true, false, none, [], ◌∷◌, ◌++◌, Bytes, codes, ==_iff, ◌≡◌, arith, inl, inr, Option-cases,
  Bool-cases,
}
use borg_collective.Base.Exec.{ok}
use borg_collective.Config.Load.{Config, Loader, load_config}
use borg_collective.Config.Watch.{
  path_dir, Event, Watcher, updated, failed, event, idle, Loop, handle_remove, watch_file, reload,
  handle_write, handle_fs_event, handle_signal, run_watch,
}

module _ ⦃L : Loader⦄ ⦃W : Watcher⦄ where
  -- A running watch sends exactly one error and ends, if the removal of its file is followed by half a
  -- second without a signal, or by the removal of any file at all.
  pub removed_and_ends :
      (path : Bytes) (e e' : Event) (files files' : L.State) (w : Loop)
      → w.is_over ≡ false
      → e.has_remove ≡ true
      → e'.has_remove ≡ true
      → ((problem : Bytes) × ((run_watch path (event e files ∷ idle ∷ []) w).sent
            ≡ failed problem ∷ w.sent)
          × ((run_watch path (event e files ∷ idle ∷ []) w).is_over ≡ true))
        × ((problem : Bytes) × ((run_watch path (event e files ∷ event e' files' ∷ []) w).sent
              ≡ failed problem ∷ w.sent)
            × ((run_watch path (event e files ∷ event e' files' ∷ []) w).is_over ≡ true))
  unfolding run_watch handle_signal handle_fs_event handle_remove
  removed_and_ends path e e' files files' w o r r' =
      let gone = codes "config file parent directory was removed: " ++ path_dir path in
      elim (Bool-cases w.watching_parent_dir) [
        | inl d ↦ (
          (gone, ground (arith, o, r, d), ground (arith, o, r, d)),
          (gone, ground (arith, o, r, d), ground (arith, o, r, d)),
        )
        | inr d ↦ elim (Option-cases (W.add (path_dir e.name) w.watcher).0) [
          | inl a ↦ (
            (
              codes "timed out after last op REMOVE",
              ground (arith, o, r, d, a),
              ground (arith, o, r, d, a),
            ),
            (gone, ground (arith, o, r, r', d, a), ground (arith, o, r, r', d, a)),
          )
          | inr (x, a) ↦ (
            (x, ground (arith, o, r, d, a), ground (arith, o, r, d, a)),
            (x, ground (arith, o, r, r', d, a), ground (arith, o, r, r', d, a)),
          )
        ]
      ]

  -- If the file of a running watch is removed while its directory is not watched, then written again
  -- with a content that `LoadConfig` reads, and the watcher has no error, then the configuration is
  -- sent, the watch goes on, and what is watched is what it was with the directory added, the
  -- directory removed and the file added again.
  pub removed_and_written :
      (path : Bytes) (e e' : Event) (files files' : L.State) (conf : Config L.Schedule) (w : Loop)
      (in_dir out_of_dir back : W.State)
      → w.is_over ≡ false
      → w.watching_parent_dir ≡ false
      → e.has_remove ≡ true
      → e.name ≡ path
      → e'.has_remove ≡ false
      → e'.has_write ≡ true
      → e'.name ≡ path
      → W.add (path_dir path) w.watcher ≡ (none, in_dir)
      → W.remove (path_dir path) in_dir ≡ (none, out_of_dir)
      → W.add path out_of_dir ≡ (none, back)
      → load_config path files' ≡ ok conf
      → run_watch path (event e files ∷ event e' files' ∷ []) w
        ≡ record w { is_removed = false; watcher = back; sent = updated conf ∷ w.sent }
  unfolding run_watch handle_signal handle_fs_event handle_remove handle_write watch_file reload
  removed_and_written path e e' files files' conf w in_dir out_of_dir back o d r n r' wr n' a rm b
        l =
      grind (arith, o, d, r, n, r', wr, n', a, rm, b, l, ==_iff path path)
