-- ===== src/Vault.antt =====
-- internal/remoteflight/vault: the state of a Vault node, and the checks on it.
pub mod Status
pub mod Health
pub mod SealStatus
pub mod Responses
pub mod Endpoints
pub mod State
pub mod GetState
pub mod WaitForState
pub mod Unseal
pub mod Init
pub mod NodeReaders
pub mod Checks
