-- ===== src/Config.antt =====
-- borg-collective/internal/drone/config: the configuration of the drone and its watch.
pub mod Load
pub mod Watch
pub mod Loading
pub mod Watching
pub mod Removal
