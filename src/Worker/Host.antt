-- ===== src/Worker/Host.antt =====
-- What a job calls: the interface `Engine` of container/engine.go, the client of borg/borg.go and
-- the commands of utils/exec.go; and the trace that a job leaves.
use borg_collective.Base.{true, false, not, ◌||◌, Bool, Option, List, ◌∷◌, Bytes}
use borg_collective.Base.Exec.{Outcome, ok, err, panic, fatal, Exec, gets}
use borg_collective.Container.Model.{ContainerBackup}

-- An `Output` is a `utils.ErrorReader`, and `output_error` its method `Error`. The result of
-- `Create…` goes to the verbose log only and is left out. `to_lower` is `strings.ToLower`.
-- `timestamp` is the time of the call as `20060102150405`. `sort` is `sort.Sort` with the given
-- `Less`. Drone fills the record with the engine of docker and the client of borg.
pub record Host : Type 1 where
  pub State : Type 0
  pub Output : Type 0
  pub ensure_container_running : Bytes → Exec Bytes State Unit
  pub ensure_container_stopped : Bytes → Exec Bytes State Unit
  pub exec : Bytes → List Bytes → Exec Bytes State Unit
  pub exec_with_output : Bytes → List Bytes → Exec Bytes State Output
  pub output_error : Output → State → Option Bytes
  pub create_with_paths : Bytes → List Bytes → Exec Bytes State Unit
  pub create_with_input : Bytes → Output → Exec Bytes State Unit
  pub local_exec : List Bytes → Exec Bytes State Unit
  pub local_exec_with_output : List Bytes → Exec Bytes State Output
  pub to_lower : Bytes → Bytes
  pub timestamp : State → Bytes
  pub sort :
      (ContainerBackup → ContainerBackup → Bool) → List ContainerBackup → List ContainerBackup

-- A call of the host, named by its container, archive or command, or a message of the log.
pub data Event : Type 0 where
  running stopped : Bytes → Event
  executed : Bytes → List Bytes → Event
  created : Bytes → Event
  commanded : List Bytes → Event
  warned complete : Bytes → Event

-- A call that comes back, with a result or an error. One that never ends is `fatal`, as one that ends
-- the process.
abbrev pub is_returned {ℓ} : {E A : Type ℓ} → Outcome E A → Bool
is_returned (ok _) = true
is_returned (err _) = true
is_returned panic = false
is_returned fatal = false

-- The newest event comes first. `is_stuck` is set once a call of the host has not come back: it has
-- panicked or has not ended.
pub record Trace ⦃H : Host⦄ : Type 0 where
  pub host : H.State
  pub events : List Event
  pub is_stuck : Bool

module _ ⦃H : Host⦄ where
  abbrev pub J : Type 0 → Type 0
  J A = Exec Bytes Trace A

  abbrev pub note : Event → J Unit
  note e t = (ok tt, record t { events = e ∷ t.events })

  -- A call of the host, once its event is noted.
  abbrev pub call : {A : Type 0} → Event → Exec Bytes H.State A → J A
  call e m t =
      let (r, s) = m t.host in
      (r, record { host = s; events = e ∷ t.events; is_stuck = t.is_stuck || not (is_returned r) })

  abbrev pub ensure_running : Bytes → J Unit
  ensure_running id = call (running id) (H.ensure_container_running id)

  abbrev pub ensure_stopped : Bytes → J Unit
  ensure_stopped id = call (stopped id) (H.ensure_container_stopped id)

  abbrev pub exec_in : Bytes → List Bytes → J Unit
  exec_in id command = call (executed id command) (H.exec id command)

  abbrev pub exec_output_in : Bytes → List Bytes → J H.Output
  exec_output_in id command = call (executed id command) (H.exec_with_output id command)

  abbrev pub create_paths : Bytes → List Bytes → J Unit
  create_paths archive paths = call (created archive) (H.create_with_paths archive paths)

  abbrev pub create_input : Bytes → H.Output → J Unit
  create_input archive output = call (created archive) (H.create_with_input archive output)

  abbrev pub command : List Bytes → J Unit
  command args = call (commanded args) (H.local_exec args)

  abbrev pub command_output : List Bytes → J H.Output
  command_output args = call (commanded args) (H.local_exec_with_output args)

  abbrev pub now : J Bytes
  now = gets (λ t. H.timestamp t.host)

  abbrev pub error_of : H.Output → J (Option Bytes)
  error_of output = gets (λ t. H.output_error output t.host)
