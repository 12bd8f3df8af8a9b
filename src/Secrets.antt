-- ===== src/Secrets.antt =====
-- pkg/secrets: the Secrets that the operator expects to find, and their recovery.
pub mod Verifier
pub mod World
pub mod Placeholder
pub mod Restore
pub mod Recovery
pub mod Trace
pub mod Manager
pub mod Drift
mod Tests
