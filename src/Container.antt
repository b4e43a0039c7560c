-- ===== src/Container.antt =====
-- borg-collective/internal/drone/container
pub mod Model
pub mod Paths
pub mod Mounts
