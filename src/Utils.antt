-- ===== src/Utils.antt =====
-- borg-collective/internal/utils/utils.go: command lines and environments.
pub mod CommandLine
pub mod Environment
pub mod Splitting
