-- ===== src/Service.antt =====
-- credentials/internal/store/service
pub mod Requests
pub mod Methods
pub mod Access
pub mod Items
pub mod Clients
