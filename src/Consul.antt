-- ===== src/Consul.antt =====
-- internal/remoteflight/consul: the state of a Consul node, and the checks on it.
pub mod Responses
pub mod Checks
pub mod GetState
pub mod Requests
pub mod Cli
