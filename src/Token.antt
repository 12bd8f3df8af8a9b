-- ===== src/Token.antt =====
-- pkg/token: the admin token, its rotation and its revoke ledger.
pub mod World
pub mod Ledger
pub mod Backoff
pub mod Mint
pub mod Pass
pub mod Fence
pub mod Revoke
pub mod Swap
pub mod Rotate
pub mod Renew
pub mod Initial
pub mod Trace
pub mod Tracked
mod Cluster
mod Tests
