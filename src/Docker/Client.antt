-- ===== src/Docker/Client.antt =====
-- The engine of container/docker/docker.go: starting, stopping and running commands in containers.
use borg_collective.Base.{
  ℕ, zero, suc, true, false, Option, none, some, List, ◌++◌, Bytes, codes, ◌==◌, if◌then◌else◌,
}
use borg_collective.Base.Exec.{ok, Exec, pure, raise, panics, lift, ◌>>=◌, ◌>>◌}
use borg_collective.Borg.Api.{ℤ, pos, negsuc}
use borg_collective.Utils.Environment.{to_map}
use borg_collective.Docker.Api.{Docker}
use borg_collective.Docker.Expand.{expand_cmd}

module _ ⦃D : Docker⦄ where
  abbrev pub M : Type 0 → Type 0
  M A = Exec Bytes D.State A

  abbrev pub polls_left : M ℕ
  polls_left s = (ok (D.polls s), s)

  abbrev pub sleep : M Unit
  sleep s = (ok tt, D.sleep s)

  abbrev pub timed_out : Bytes → Bytes
  timed_out id = codes "timed out waiting for container to become healthy: " ++ id

  -- The goroutine that waits for the health check, with the rounds left before the timeout. Without a
  -- health check the pointer to its state is nil.
  unfoldable pub wait_for_health : ℕ → Bytes → M Unit
  wait_for_health zero id = raise (timed_out id)
  wait_for_health (suc rounds) id = do
    inspect ← D.container_inspect id
    elim inspect.health [
      | none ↦ panics
      | some status ↦
          let again = sleep >> wait_for_health rounds id in
          if status == codes "unhealthy"
          then raise (codes "container is unhealthy: " ++ id)
          else if status == codes "healthy"
          then pure tt
          else again
    ]

  unfoldable pub ensure_container_running : Bytes → M Unit
  ensure_container_running id = do
    inspect ← D.container_inspect id
    if inspect.is_running then pure tt else D.container_start id
    elim inspect.health [
      | none ↦ pure tt
      | some _ ↦ do rounds ← polls_left; wait_for_health rounds id
    ]

  unfoldable pub ensure_container_stopped : Bytes → M Unit
  ensure_container_stopped id = do
    inspect ← D.container_inspect id
    if inspect.status == codes "exited" then pure tt else D.container_stop id

  -- The text, without the number of the code at its end.
  abbrev exit_error : Bytes
  exit_error = codes "exec container exited with "

  abbrev exit_result : ℤ → M (Option Unit)
  exit_result (pos zero) = pure (some tt)
  exit_result (pos (suc n)) = raise exit_error
  exit_result (negsuc n) = raise exit_error

  -- The loop until a command has ended; `none` means that the fuel ran out before.
  unfoldable pub wait_for_exec : ℕ → Bytes → M (Option Unit)
  wait_for_exec zero exec_id = pure none
  wait_for_exec (suc fuel) exec_id = do
    inspect ← D.container_exec_inspect exec_id
    let again = sleep >> wait_for_exec fuel exec_id
    if inspect.is_running then again else exit_result inspect.exit_code

  unfoldable pub exec : ℕ → Bytes → List Bytes → M (Option Unit)
  exec fuel id cmd = do
    inspect ← D.container_inspect id
    expanded ← lift (expand_cmd (to_map inspect.env) cmd)
    exec_id ← D.container_exec_create id expanded false
    D.container_exec_start exec_id
    wait_for_exec fuel exec_id

  -- The reader with the id of the command, whose end gives the reader's error.
  unfoldable pub exec_with_output : Bytes → List Bytes → M (D.Reader × Bytes)
  exec_with_output id cmd = do
    inspect ← D.container_inspect id
    expanded ← lift (expand_cmd (to_map inspect.env) cmd)
    exec_id ← D.container_exec_create id expanded true
    reader ← D.container_exec_attach exec_id
    pure (reader, exec_id)
