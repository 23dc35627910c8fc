-- ===== src/Systemd.antt =====
-- internal/remoteflight/systemd: unit properties, systemctl commands and the client.
pub mod Properties
pub mod Decode
pub mod Systemctl
pub mod Client
