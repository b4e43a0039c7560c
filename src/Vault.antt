-- ===== src/Vault.antt =====
-- credentials/internal/store/vault
pub mod Env
pub mod State
pub mod Files
pub mod Values
pub mod Unlock
pub mod Methods
pub mod Memory
pub mod Slices
pub mod Laws
pub mod Opened
pub mod Frames
pub mod Locked
pub mod Peers
pub mod Stable
pub mod Recovery
pub mod Items
pub mod Keyed
pub mod KeyedRecovery
pub mod History
pub mod Opening
pub mod Metadata
pub mod Listing
pub mod RoundTrip
