-- ===== src/Docker/Health.antt =====
-- Waiting in container/docker/docker.go: for a healthy container and for the end of a command.
use borg_collective.Base.{
  ℕ, zero, suc, ◌<◌, false, none, some, Bytes, codes, ◌==◌, ==_iff, ◌≡◌, ◌≢◌, arith, inl, inr,
  Option-cases, Bool-cases,
}
use borg_collective.Base.Exec.{ok, Outcome-cases}
use borg_collective.Borg.Api.{pos}
use borg_collective.Docker.Api.{InspectResponse, ExecInspect, Docker}
use borg_collective.Docker.Client.{wait_for_health, ensure_container_running, wait_for_exec}

module _ ⦃D : Docker⦄ where
  -- The last call was an inspection that found the container healthy.
  abbrev pub SeenHealthy : Bytes → D.State → Type 0
  SeenHealthy id final =
      (s : D.State) × (inspected : InspectResponse) × (D.container_inspect id s
        ≡ (ok inspected, final))
      × (inspected.health ≡ some (codes "healthy"))

  wait_for_health-healthy :
      (rounds : ℕ) (id : Bytes) (s : D.State)
      → (wait_for_health rounds id s).0 ≡ ok tt
      → SeenHealthy id (wait_for_health rounds id s).1
  unfolding wait_for_health
  wait_for_health-healthy zero id s h = absurd (ground (arith, h))
  wait_for_health-healthy (suc rounds) id s h =
      let after = (D.container_inspect id s).1 in
      elim (Outcome-cases (D.container_inspect id s).0) [
        | inl (inspected, e) ↦ elim (Option-cases inspected.health) [
          | inl none_found ↦ absurd (ground (arith, h, e, none_found))
          | inr (status, e') ↦ elim (Bool-cases (status == codes "healthy")) [
            | inl is_healthy ↦ (
              s,
              inspected,
              grind (
                arith,
                e,
                e',
                is_healthy,
                ==_iff status (codes "healthy"),
                ==_iff status (codes "unhealthy"),
              ),
              ground (arith, e', is_healthy, ==_iff status (codes "healthy")),
            )
            | inr unhealthy ↦
                let later =
                  wait_for_health-healthy rounds id (D.sleep after)
                    (ground (arith, h, e, e', unhealthy)) in
                let same : (wait_for_health (suc rounds) id s).1
                    ≡ (wait_for_health rounds id (D.sleep after)).1 =
                  ground (arith, h, e, e', unhealthy) in
                rw same later
          ]
        ]
        | inr e ↦ absurd (ground (arith, h, e))
      ]

  -- The state in which `Exec` polls a command for the n-th time.
  abbrev pub after_polls : ℕ → Bytes → D.State → D.State
  after_polls zero exec_id s = s
  after_polls (suc n) exec_id s =
      after_polls n exec_id (D.sleep (D.container_exec_inspect exec_id s).1)

  -- If the inspection of the n-th poll after the first finds that the command has ended, then more than
  -- n rounds of fuel are enough for the loop of `Exec` to come to an end.
  pub wait_for_exec_ends :
      (n fuel : ℕ) (exec_id : Bytes) (s : D.State) (ended : ExecInspect)
      → (D.container_exec_inspect exec_id (after_polls n exec_id s)).0 ≡ ok ended
      → ended.is_running ≡ false
      → n < fuel
      → (wait_for_exec fuel exec_id s).0 ≢ ok none
  unfolding wait_for_exec
  wait_for_exec_ends n zero exec_id s ended h e lt = absurd (omega (arith, lt))
  wait_for_exec_ends zero (suc fuel) exec_id s ended h e lt = ground (arith, h, e)
  wait_for_exec_ends (suc n) (suc fuel) exec_id s ended h e lt =
      let after = D.sleep (D.container_exec_inspect exec_id s).1 in
      ground (arith, wait_for_exec_ends n fuel exec_id after ended h e, lt)

  -- If `EnsureContainerRunning` succeeds for a container whose first inspection shows a health check,
  -- then the last thing it saw of the container is that it is healthy.
  pub ensure_container_running-healthy :
      (id : Bytes) (s : D.State) (inspected : InspectResponse) (status : Bytes)
      → (D.container_inspect id s).0 ≡ ok inspected
      → inspected.health ≡ some status
      → (ensure_container_running id s).0 ≡ ok tt
      → SeenHealthy id (ensure_container_running id s).1
  unfolding ensure_container_running
  ensure_container_running-healthy id s inspected status e e' h =
      let after = (D.container_inspect id s).1 in
      elim (Bool-cases inspected.is_running) [
        | inl runs ↦
            let same : (ensure_container_running id s).1
                ≡ (wait_for_health (D.polls after) id after).1 =
              ground (arith, e, e', runs) in
            rw same
              (wait_for_health-healthy (D.polls after) id after (ground (arith, h, e, e', runs)))
        | inr stopped ↦ elim (Outcome-cases (D.container_start id after).0) [
          | inl (done, started) ↦
              let next = (D.container_start id after).1 in
              let same : (ensure_container_running id s).1
                  ≡ (wait_for_health (D.polls next) id next).1 =
                ground (arith, e, e', stopped, started) in
              rw same (
                wait_for_health-healthy (D.polls next) id next
                  (ground (arith, h, e, e', stopped, started)))
          | inr failed ↦ absurd (ground (arith, h, e, e', stopped, failed))
        ]
      ]

  -- `wait_for_exec` answers success only if the last inspection found the command ended with code 0.
  pub wait_for_exec-exit_code :
      (fuel : ℕ) (exec_id : Bytes) (s : D.State)
      → (wait_for_exec fuel exec_id s).0 ≡ ok (some tt)
      → (before : D.State) × (ended : ExecInspect) × (D.container_exec_inspect exec_id before
          ≡ (ok ended, (wait_for_exec fuel exec_id s).1))
        × (ended.is_running ≡ false)
        × (ended.exit_code ≡ pos 0)
  unfolding wait_for_exec
  wait_for_exec-exit_code zero exec_id s h = absurd (ground (arith, h))
  wait_for_exec-exit_code (suc fuel) exec_id s h =
      let after = D.sleep (D.container_exec_inspect exec_id s).1 in
      elim (Outcome-cases (D.container_exec_inspect exec_id s).0) [
        | inl (ended, e) ↦ elim (Bool-cases ended.is_running) [
          | inl runs ↦
              let same : (wait_for_exec (suc fuel) exec_id s).1
                  ≡ (wait_for_exec fuel exec_id after).1 =
                ground (arith, e, runs) in
              rw same (wait_for_exec-exit_code fuel exec_id after (ground (arith, h, e, runs)))
          | inr over ↦ (s, ended, grind (arith, h, e, over), over, ground (arith, h, e, over))
        ]
        | inr e ↦ absurd (ground (arith, h, e))
      ]
