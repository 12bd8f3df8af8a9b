-- ===== src/StoredKey.antt =====
-- pkg/storedkey: the shares in the unseal-key Secret, and their submission to Vault.
pub mod Keys
pub mod Submit
