-- ===== src/Flight.antt =====
-- internal/remoteflight: the commands that a transport runs on a target, each over its transport and the
-- retry loop.
pub mod Errors
pub mod Paths
pub mod Attempts
pub mod Directory
pub mod File
pub mod Unzip
pub mod Download
pub mod Script
pub mod User
pub mod OsRelease
pub mod Target
pub mod Install
