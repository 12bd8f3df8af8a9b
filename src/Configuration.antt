-- ===== src/Configuration.antt =====
-- pkg/configuration: what is set up in Vault once it is unsealed.
pub mod World
pub mod Configurator
mod Tests
