-- ===== src/Reconciler.antt =====
-- pkg/reconciler: the unsealing of one VaultTransitUnseal.
pub mod Conditions
pub mod Setup
pub mod Shamir
pub mod Init
pub mod Keys
pub mod Pod
pub mod Loop
pub mod Trace
pub mod Address
mod Tests
