-- ===== src/Docker/Api.antt =====
-- What the docker client of container/docker takes from the docker daemon and its Go client.
use borg_collective.Base.{ℕ, Bool, Option, List, Bytes}
use borg_collective.Base.Exec.{Outcome, Exec}
use borg_collective.Base.Assoc.{Assoc}
use borg_collective.Borg.Api.{ℤ}

pub record MountPoint : Type 0 where
  pub mount_type : Bytes
  pub name : Bytes
  pub source : Bytes
  pub destination : Bytes

-- What is read of a `container.InspectResponse`. `health` is the status of its health check, and
-- `none` where it has none.
pub record InspectResponse : Type 0 where
  pub id : Bytes
  pub is_running : Bool
  pub status : Bytes
  pub health : Option Bytes
  pub labels : Assoc Bytes
  pub env : List Bytes
  pub graph_driver : Bytes
  pub graph_driver_data : Assoc Bytes
  pub mounts : List MountPoint

pub record ExecInspect : Type 0 where
  pub is_running : Bool
  pub exit_code : ℤ

-- The calls of the daemon, with their errors as texts. `polls` is the number of rounds of the wait
-- for a healthy container that fit into its timeout, and `sleep` the pause between two rounds.
-- `container_exec_create` is told whether the output is attached.
pub record Docker : Type 1 where
  pub State : Type 0
  pub Schedule : Type 0
  pub Reader : Type 0
  pub parse_standard : Bytes → Outcome Bytes Schedule
  pub container_inspect : Bytes → Exec Bytes State InspectResponse
  pub container_start : Bytes → Exec Bytes State Unit
  pub container_stop : Bytes → Exec Bytes State Unit
  pub container_list : Exec Bytes State (List Bytes)
  pub container_exec_create : Bytes → List Bytes → Bool → Exec Bytes State Bytes
  pub container_exec_start : Bytes → Exec Bytes State Unit
  pub container_exec_attach : Bytes → Exec Bytes State Reader
  pub container_exec_inspect : Bytes → Exec Bytes State ExecInspect
  pub polls : State → ℕ
  pub sleep : State → State
