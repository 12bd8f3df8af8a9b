-- ===== src/Transit.antt =====
-- pkg/transit: the transit Vault, where the admin token is backed up.
pub mod Resolver
pub mod World
pub mod Kv
pub mod Backup
pub mod Cluster
mod Tests
