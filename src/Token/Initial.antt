-- ===== src/Token/Initial.antt =====
-- pkg/token/manager_simple.go: the first admin token, and its replacement when it is a root token
-- or no longer valid.
pub mod Client
pub mod Scoped
pub mod Create
pub mod Recover
pub mod Root
pub mod Reconcile
pub mod Allowed
mod Tests
pub mod Ends
