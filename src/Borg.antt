-- ===== src/Borg.antt =====
-- borg-collective/internal/drone/borg: the borg command line client.
pub mod Api
pub mod Run
pub mod Client
pub mod LogLines
pub mod Codes
pub mod Commands
