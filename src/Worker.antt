-- ===== src/Worker.antt =====
-- borg-collective/internal/drone/worker: the jobs that a schedule runs.
pub mod Host
pub mod Common
pub mod Static
pub mod Projects
pub mod Creation
pub mod Plans
pub mod Restarts
pub mod Completion
pub mod Failures
pub mod Schedule
pub mod Registry
pub mod Statics
pub mod Loop
pub mod Kinds
pub mod Separate
pub mod Apart
pub mod Looping
pub mod Drone
