-- ===== src/Borg/Commands.antt =====
-- The commands of borg/borg.go.
use borg_collective.Base.{
  ℕ, zero, suc, Bool, true, false, Option, none, some, List, [], ◌∷◌, Bytes, codes, ◌≡◌, ◌⊎◌, ◌↔◌,
  inl, inr, refl, arith, Option-cases,
}
use borg_collective.Base.Exec.{ok}
use borg_collective.Base.Assoc.{Assoc}
use borg_collective.Borg.Api.{pos, negsuc, LogMessage, Completion, exited, not_run, Borg}
use borg_collective.Borg.Run.{World, final_env, parse_log_lines, finish_run, run}
use borg_collective.Borg.Client.{
  Config, EncryptionConfig, env, set_rsh, info_args, init_args, create_with_paths_args,
  create_with_input_args, compact_args, find_relative, run_and_handle, init, create_with_paths,
  compact,
}
use borg_collective.Borg.Codes.{handle_borg_return_code_iff}

abbrev pub is_encrypted : Option EncryptionConfig → Bool
is_encrypted none = false
is_encrypted (some encryption) = true

-- The secret of the repository is on no command line: for two configurations with the same
-- repository that both encrypt or both do not, the arguments of every command are the same, whatever
-- their secrets and their commands for a secret.
pub args_hide_secret :
    (c d : Config) (archive : Bytes) (paths : List Bytes)
    → c.repo ≡ d.repo
    → is_encrypted c.encryption ≡ is_encrypted d.encryption
    → (info_args c ≡ info_args d)
      × (init_args c ≡ init_args d)
      × (create_with_paths_args c archive paths ≡ create_with_paths_args d archive paths)
      × (create_with_input_args c archive ≡ create_with_input_args d archive)
      × (compact_args c ≡ compact_args d)
unfolding info_args init_args create_with_paths_args create_with_input_args compact_args set_rsh
args_hide_secret c d archive paths r e = ground arith

module _ ⦃B : Borg⦄ where
  -- How borg ends when it is started with the arguments, in the environment of the configuration.
  abbrev pub completion_of : List Bytes → Assoc Bytes → World → Completion
  completion_of args environment w =
      (B.run (codes "--log-json" ∷ args) (final_env environment) none w.borg).0

  -- Borg ended with success, or with a warning and log lines that are read to their end.
  abbrev pub Succeeded : ℕ → Completion → Type 0
  Succeeded fuel c =
      ((out : Bytes) × (log : Bytes) × (c ≡ exited (pos 0) out log))
      ⊎ ((out : Bytes) × (log : Bytes) × (messages : List (LogMessage B.Float)) × (c
            ≡ exited (pos 1) out log)
          × (parse_log_lines fuel log [] ≡ some messages))

  run_and_handle-Succeeded :
      (fuel : ℕ) (config : Config) (context : Bytes) (args : List Bytes) (environment : Assoc Bytes)
      (w : World)
      → env config ≡ ok environment
      → (run_and_handle {A = Unit {0}} fuel config context args none tt w).0 ≡ ok tt
      → Succeeded fuel (completion_of args environment w)
  unfolding run finish_run
  run_and_handle-Succeeded fuel config context args environment w e h =
      go (completion_of args environment w) refl
    where
      after : World
      after = record w {
        borg = (B.run (codes "--log-json" ∷ args) (final_env environment) none w.borg).1;
      }

      go : (c : Completion) → completion_of args environment w ≡ c → Succeeded fuel c
      go (not_run x) q = absurd (ground arith)
      go (exited (pos zero) out log) q = inl (out, log, refl)
      go (exited (pos (suc zero)) out log) q = elim (Option-cases (parse_log_lines fuel log [])) [
        | inl stuck ↦ absurd (ground arith)
        | inr (messages, p) ↦ inr (out, log, messages, refl, p)
      ]
      go (exited (pos (suc (suc n))) out log) q =
          elim (Option-cases (parse_log_lines fuel log [])) [
            | inl stuck ↦ absurd (ground arith)
            | inr (messages, p) ↦
                absurd
                  (ground (arith, handle_borg_return_code_iff (pos (suc (suc n))) messages after))
          ]
      go (exited (negsuc n) out log) q = elim (Option-cases (parse_log_lines fuel log [])) [
        | inl stuck ↦ absurd (ground arith)
        | inr (messages, p) ↦
            absurd (ground (arith, handle_borg_return_code_iff (negsuc n) messages after))
      ]

  run_and_handle-ok :
      (fuel : ℕ) (config : Config) (context : Bytes) (args : List Bytes) (environment : Assoc Bytes)
      (w : World)
      → env config ≡ ok environment
      → Succeeded fuel (completion_of args environment w)
      → (run_and_handle {A = Unit {0}} fuel config context args none tt w).0 ≡ ok tt
  unfolding run finish_run
  run_and_handle-ok fuel config context args environment w e h = elim h [
    | inl (out, log, c) ↦ ground (arith, c, handle_borg_return_code_iff (pos 0) [] after)
    | inr (out, log, messages, c, p) ↦
        ground (arith, c, p, handle_borg_return_code_iff (pos 1) messages after)
  ]
    where
      after : World
      after = record w {
        borg = (B.run (codes "--log-json" ∷ args) (final_env environment) none w.borg).1;
      }

  -- If the configuration has an environment, `Compact` and `Init` return without an error exactly
  -- when borg, started with their arguments, ends with success, or ends with a warning and log lines
  -- that are read to their end.
  pub compact_iff :
      (fuel : ℕ) (config : Config) (environment : Assoc Bytes) (w : World)
      → env config ≡ ok environment
      → (((compact fuel config w).0 ≡ ok tt)
          ↔ Succeeded fuel (completion_of (compact_args config) environment w))
        × (((init fuel config w).0 ≡ ok tt)
            ↔ Succeeded fuel (completion_of (init_args config) environment w))
  unfolding compact init
  compact_iff fuel config environment w e = (
    (
      run_and_handle-Succeeded fuel config _ (compact_args config) environment w e,
      run_and_handle-ok fuel config _ (compact_args config) environment w e,
    ),
    (
      run_and_handle-Succeeded fuel config _ (init_args config) environment w e,
      run_and_handle-ok fuel config _ (init_args config) environment w e,
    ),
  )

  -- If borg ends with a warning and log lines that are read to their end, `CreateWithPaths` of
  -- absolute paths returns no error, but the zero value in place of what borg wrote of the archive.
  pub create_with_paths_warning :
      (fuel : ℕ) (config : Config) (archive out log : Bytes) (paths : List Bytes)
      (environment : Assoc Bytes) (messages : List (LogMessage B.Float)) (w : World)
      → env config ≡ ok environment
      → find_relative paths ≡ none
      → completion_of (create_with_paths_args config archive paths) environment w
        ≡ exited (pos 1) out log
      → parse_log_lines fuel log [] ≡ some messages
      → (create_with_paths fuel config archive paths w).0 ≡ ok B.no_stats
  unfolding create_with_paths run finish_run
  create_with_paths_warning fuel config archive out log paths environment messages w e a c p =
      let after : World = record w {
        borg =
            (B.run (codes "--log-json" ∷ create_with_paths_args config archive paths)
              (final_env environment) none w.borg).1;
      } in
      ground (arith, handle_borg_return_code_iff (pos 1) messages after)
