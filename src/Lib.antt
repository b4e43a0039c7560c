-- ===== src/Lib.antt =====
-- Borg Collective: a credential store for backup clients (credentials) and the drone that runs the
-- backups (borg-collective).
--
-- The store keeps items, each a secret value, in files of a storage backend. A vault opens the files
-- with the administrator's passphrase and reads and writes the items; a service checks the
-- credentials of each request and calls the vault. The drone runs jobs on a schedule: backups of
-- paths and command outputs of its own machine, and backups of projects of containers.
--
-- Base: helpers. Base/Exec has the outcome of a Go method (a result, an error, a panic, or the end of
--   the process by log.Fatal) with the state that it leaves; Base/ByteString has strings as lists of
--   bytes; Base/Assoc has maps as association lists.
-- Vault: credentials/internal/store/vault.
--   Env: the types of vault.go, the interface Backend of backend.go, and what the vault calls outside
--     of this repository (age, memguard, uuid, semver, JSON, hashes, AES-GCM, the clock and the source
--     of randomness) as the record Env, with documented laws of it in Laws.
--   State: the state of the vault with its files and metrics, and the steps on it.
--   Files: utils.go. Values: the unsafe methods of vault.go. Unlock: upgrade.go, Unlock,
--     VerifyPassphrase and Lock. Methods: the other methods. Memory: inmemorybackend.go on
--     values and the contract of a backend. Slices: inmemorybackend.go with the byte slices that it
--     shares with its callers.
--   The other modules hold the proofs, named for their subjects.
-- Service: credentials/internal/store/service. Requests has the messages of
--   credentials/internal/proto/credentials.proto, Methods the methods of service.go, vault.go and
--   clients.go; `*_service` stands for the method of the same name.
-- Server: credentials/internal/store/server. Grpc has the handlers of grpc.go, `*_rpc` for the method of
--   the same name; Listener is securelistener.go over the network as a parameter.
-- Container: borg-collective/internal/drone/container/model/model.go in Model, and
--   findSourceForInContainerPath of worker/container.go, with path.Join of Go, in Paths.
-- Worker: borg-collective/internal/drone/worker. Host is what a job calls, the interface Engine of
--   container/engine.go among it, and the trace of calls and log messages that a job leaves. Drone
--   fills it with the engine of Docker and the client of Borg. Common is common.go, Static is
--   static.go, Creation and Projects are container.go. Schedule has the scheduling methods of
--   worker.go over the cron scheduler, which is a parameter, and Loop its loop over what its select
--   receives.
-- Utils: borg-collective/internal/utils/utils.go, SplitCommandLine in CommandLine and ToMap in
--   Environment.
-- Config: borg-collective/internal/drone/config. Load is config.go; Watch is the goroutine of watch.go,
--   as a function of the signals that its select receives.
-- Borg: borg-collective/internal/drone/borg. Api is api/api.go, with what borg and JSON do as the record
--   Borg; Run is api/run.go; Client is borg.go.
-- Docker: borg-collective/internal/drone/container/docker. Api has what the docker daemon does as the
--   record Docker; Expand is expandCmd, Mappers is mappers.go, Client has the operations of docker.go on
--   a container, and Projects has ReadProjects of docker.go and the events of watch.go.
-- Tests: concrete libraries and hosts, runs, and the theorems at concrete inputs.
--
-- Every method of the vault holds its lock to the end, so that a method is one step and a history is a
-- list of calls. A draw of randomness or of the time takes the next number of a counter. Maps are
-- traversed in the order of their lists. ToLower is a parameter of the host of a job; times are in nanoseconds. A call of a job that panics or never ends sets a flag of
-- the trace; the theorems on jobs name this flag where they need it. A nil schedule is passed on to the
-- scheduler, of which nothing is promised then: a running one panics. The
-- digits of a number have the number plus one as fuel, each digit taking one division; the attempts to
-- restore a recovery recipient are the three of the code. The loop over the log lines of borg has fuel,
-- which one round for each line and one more satisfies; the wait for the end of a command has fuel for
-- its polls; the loop of the listener has fuel for the connections that it closes; the wait for a
-- healthy container has as many rounds as fit into its timeout, which is a number that the daemon's
-- state gives. All other recursion is structural. Matches of regular expressions are found by functions
-- on bytes.
--
-- Not modelled: the sharing of maps (the map of containers of a project, which its job shares with the
-- cache, is a value, so that later events do not reach a job), wiping of memory by the vault and the enclaves' encryption in memory, the text of log messages of
-- the vault, the local storage backend, the setup of the server, the CLI, the goroutines and pipes of the
-- docker client, NewWorker and RunOnce of the worker and the entry points: they are input and output, or
-- wait for concurrent events.
pub mod Base
pub mod Vault
pub mod Service
pub mod Server
pub mod Utils
pub mod Container
pub mod Worker
pub mod Config
pub mod Borg
pub mod Docker
mod Tests
