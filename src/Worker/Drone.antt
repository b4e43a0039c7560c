-- ===== src/Worker/Drone.antt =====
-- The host of the jobs as cmd/drone puts it together: the engine of container/docker/docker.go and the
-- client of borg/borg.go, whose errors are shown as texts.
use borg_collective.Base.{
  ℕ, true, false, Option, none, some, List, ◌∷◌, ◌++◌, Bytes, Bool, ◌≡◌, arith,
}
use borg_collective.Base.Exec.{Outcome, ok, err, panic, fatal, Exec}
use borg_collective.Container.Model.{ContainerBackup, ContainerExecBackup}
use borg_collective.Docker.Api.{Docker, InspectResponse}
use borg_collective.Docker.Client.{
  ensure_container_running, ensure_container_stopped, exec, exec_with_output,
}
use borg_collective.Docker.Expanding.{has_byte, expand_cmd_panics}
use borg_collective.Borg.Api.{Error, Borg}
use borg_collective.Borg.Run.{World}
use borg_collective.Borg.Client.{Config, create_with_paths, create_with_input}
use borg_collective.Utils.Environment.{to_map}
use borg_collective.Worker.Host.{Host, Trace}
use borg_collective.Worker.Projects.{run_exec_paths}

module _ ⦃D : Docker⦄ ⦃B : Borg⦄ where
  pub record Process : Type 0 where
    pub docker : D.State
    pub borg : World

  -- A reader of a command in a container, with the id of the command, or one of a local command.
  pub data Reader (L : Type 0) : Type 0 where
    in_container : D.Reader → Bytes → Reader L
    local_output : L → Reader L

  -- What is left to the operating system and Go: commands on the machine itself, readers as the input
  -- of borg, the error at the end of a reader, texts of errors, the time and `sort`. `fuel` is that of
  -- the loops of docker.go and run.go.
  pub record Machine : Type 1 where
    pub Local : Type 0
    pub local_exec : List Bytes → Exec Bytes Process Unit
    pub local_exec_with_output : List Bytes → Exec Bytes Process Local
    pub input_of : Reader Local → B.Input
    pub reader_error : Reader Local → Process → Option Bytes
    pub error_text : Error → Bytes
    pub timestamp : Process → Bytes
    pub to_lower : Bytes → Bytes
    pub sort :
        (ContainerBackup → ContainerBackup → Bool) → List ContainerBackup → List ContainerBackup
    pub config : Config
    pub fuel : ℕ

  abbrev pub on_docker : {A : Type 0} → Exec Bytes D.State A → Exec Bytes Process A
  on_docker m p = let (r, s) = m p.docker in (r, record p { docker = s })

  -- The loop for the end of a command that does not end is `fatal`.
  abbrev pub ended : Outcome Bytes (Option Unit) → Outcome Bytes Unit
  ended (ok (some _)) = ok tt
  ended (ok none) = fatal
  ended (err e) = err e
  ended panic = panic
  ended fatal = fatal

  module _ (machine : Machine) where
    abbrev pub with_text : {A : Type 0} → Outcome Error A → Outcome Bytes Unit
    with_text (ok _) = ok tt
    with_text (err e) = err (machine.error_text e)
    with_text panic = panic
    with_text fatal = fatal

    abbrev pub on_borg : {A : Type 0} → Exec Error World A → Exec Bytes Process Unit
    on_borg m p = let (r, s) = m p.borg in (with_text r, record p { borg = s })

    abbrev pub exec_drone : Bytes → List Bytes → Exec Bytes Process Unit
    exec_drone id cmd p =
        let (r, s) = exec machine.fuel id cmd p.docker in (ended r, record p { docker = s })

    abbrev pub in_reader : Outcome Bytes (D.Reader × Bytes) → Outcome Bytes (Reader machine.Local)
    in_reader (ok (reader, id)) = ok (in_container reader id)
    in_reader (err e) = err e
    in_reader panic = panic
    in_reader fatal = fatal

    abbrev pub local_reader : Outcome Bytes machine.Local → Outcome Bytes (Reader machine.Local)
    local_reader (ok output) = ok (local_output output)
    local_reader (err e) = err e
    local_reader panic = panic
    local_reader fatal = fatal

    abbrev pub drone : Host
    drone = record {
      State = Process;
      Output = Reader machine.Local;
      ensure_container_running = λ id. on_docker (ensure_container_running id);
      ensure_container_stopped = λ id. on_docker (ensure_container_stopped id);
      exec = exec_drone;
      exec_with_output = λ id cmd p.
          let (r, s) = exec_with_output id cmd p.docker in (in_reader r, record p { docker = s });
      output_error = machine.reader_error;
      create_with_paths =
          λ archive paths. on_borg (create_with_paths machine.fuel machine.config archive paths);
      create_with_input = λ archive output. on_borg (
          create_with_input machine.fuel machine.config false archive
            (some (machine.input_of output)));
      local_exec = machine.local_exec;
      local_exec_with_output =
          λ args p. let (r, p') = machine.local_exec_with_output args p in (local_reader r, p');
      to_lower = machine.to_lower;
      timestamp = machine.timestamp;
      sort = machine.sort;
    }

    -- On the program's own engine, if the inspection of a container succeeds and the first ampersand of
    -- its backup command's first word is followed by an opening brace that is not closed, then the
    -- backup of the paths of this command panics, and the panic is the job's.
    pub run_exec_paths_panics :
        (ctnr : ContainerBackup) (stdout : Bool) (start s name : Bytes) (args paths : List Bytes)
        (inspect : InspectResponse) (t : Trace ⦃H = drone⦄)
        → has_byte b'&' start ≡ false
        → has_byte b'}' s ≡ false
        → (D.container_inspect ctnr.id t.host.docker).0 ≡ ok inspect
        → let command : ContainerExecBackup = record {
          command = (start ++ (b'&' ∷ b'{' ∷ s)) ∷ args;
          stdout = stdout;
          paths = paths;
        } in
          ((run_exec_paths ⦃H = drone⦄ ctnr command name t).0 ≡ panic)
          × ((run_exec_paths ⦃H = drone⦄ ctnr command name t).1.is_stuck ≡ true)
    unfolding run_exec_paths exec
    run_exec_paths_panics ctnr stdout start s name args paths inspect t kept unclosed found =
        ground (arith, found, expand_cmd_panics (to_map inspect.env) start s args kept unclosed)
