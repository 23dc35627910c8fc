-- ===== src/Vault/Checks.antt =====
-- internal/remoteflight/vault/checks.go: the checks that a state must pass, by what they look at.
pub mod Base
pub mod Node
pub mod Pods
pub mod Cluster
