-- ===== src/Docker.antt =====
-- borg-collective/internal/drone/container/docker: the docker client.
pub mod Api
pub mod Expand
pub mod Mappers
pub mod Client
pub mod Projects
pub mod Expanding
pub mod Mapped
pub mod Entries
pub mod Cached
pub mod Events
pub mod Health
