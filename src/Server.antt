-- ===== src/Server.antt =====
-- internal/server: the provider server and its two routers.
pub mod Terraform
pub mod ResourceRouter
pub mod DataRouter
