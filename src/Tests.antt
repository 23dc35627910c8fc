-- ===== src/Tests.antt =====
-- Runs of the modelled code on concrete inputs.
pub mod Samples
pub mod RetryRuns
pub mod SystemdRuns
pub mod VaultRuns
pub mod UnsealRuns
pub mod RequestRuns
pub mod InstallRuns
pub mod CheckRuns
pub mod ConsulRuns
pub mod ServerRuns
pub mod FlightRuns
pub mod TargetRuns
