-- ===== src/Tests.antt =====
-- Runs of the model at concrete inputs, and the theorems applied to them.
mod Toy
mod Worlds
pub mod VaultExamples
pub mod PeerExamples
mod OpeningExamples
mod ServiceExamples
mod FlakyExamples
pub mod DroneExamples
pub mod WorkerExamples
mod ScheduleExamples
mod BorgExamples
mod UtilsExamples
mod DockerExamples
mod ConfigExamples
mod ServerExamples
