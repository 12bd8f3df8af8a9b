-- ===== src/Reconciler/Shamir.antt =====
-- pkg/reconciler/stored_key.go: unsealing from the stored shares.
pub mod Allowed
pub mod Reported
use vault_transit_unseal_ope.Base.{List, Option, String, [], false, length, none, some, true, ◌∷◌}
use vault_transit_unseal_ope.Base.Exec.{Exec, pure, ◌>>=◌, ◌>>◌}
use vault_transit_unseal_ope.Reconciler.Setup.{
  ProcessError, Setup, available, cannot_read, condition, fixed, no_share, unseal_error,
  unseal_failed, unseal_key_unavailable, warn,
}
use vault_transit_unseal_ope.Spec.{StoredKeySecretRef, stored_key, stored_key_secret_ref}
use vault_transit_unseal_ope.StoredKey.Keys.{parse_keys}
use vault_transit_unseal_ope.StoredKey.Submit.{Progress, UnsealError, unseal}
use vault_transit_unseal_ope.System.{Call, Metric, World, ask, set_status, tell}
use vault_transit_unseal_ope.Token.World.{normal}

module _ (c : Setup) where
  abbrev key_ref : StoredKeySecretRef
  key_ref = stored_key_secret_ref c.spec

  on_keys : List String → Exec World (Option (List String))
  on_keys [] = do condition c "KeySecretPresent" "False" "NoShares" (no_share key_ref); pure none
  on_keys (k ∷ ks) = do
    condition c "KeySecretPresent" "True" "SharesAvailable" (available (length (k ∷ ks)) key_ref)
    pure (some (k ∷ ks))

  on_raw : Option String → Exec World (Option (List String))
  unfolding on_keys
  on_raw none = do
    condition c "KeySecretPresent" "False" "SecretUnreadable" (cannot_read key_ref)
    pure none
  on_raw (some raw) = on_keys (parse_keys raw)

  -- `ValidateStoredKeySecret`: the shares, or none for its error
  unfoldable pub validate_stored_key_secret : Exec World (Option (List String))
  unfolding on_raw
  validate_stored_key_secret = do
    raw ←
        ask (Call.get_key key_ref.namespace key_ref.name key_ref.key) (λ h. c.env.get_key h key_ref)
    on_raw raw

  -- `handleUninitializedStoredKey`
  unfoldable pub handle_uninitialized : Exec World (Unit {0})
  handle_uninitialized = do
    condition c "Initialized" "False" "AwaitingExternalInit" (
        fixed
          "Vault is not initialized; stored-key mode never initializes. Run the bootstrap vault-setup step, which initializes Vault and seeds the unseal-key Secret.")
    condition c "Ready" "False" "VaultSealed" (fixed "Vault is sealed and not yet initialized")
    warn "InitializationDeferred"

  after_unseal : Progress × Option UnsealError → Exec World (Option ProcessError)
  after_unseal (p, some e) = do
    tell (Call.metric (Metric.unseal_attempt stored_key false))
    condition c "Ready" "False" "UnsealFailed" (unseal_error e p)
    warn "UnsealFailed"
    pure (some (unseal_failed e))
  after_unseal (p, none) = do
    tell (Call.metric (Metric.unseal_attempt stored_key true))
    tell (Call.metric (Metric.vault_status true false))
    now ← ask Call.clock c.env.clock
    set_status (λ s. record s { sealed = false; last_unseal_time = c.codec.format_time now })
    condition c "Ready" "True" "VaultReady" (fixed "Vault is unsealed and ready")
    tell (Call.event normal "Unsealed")
    pure none

  with_keys : Option (List String) → Exec World (Option ProcessError)
  unfolding after_unseal
  with_keys none = do
    warn "UnsealKeyUnavailable"
    tell (Call.metric (Metric.unseal_attempt stored_key false))
    pure (some unseal_key_unavailable)
  with_keys (some keys) = do result ← unseal c.env keys; after_unseal result

  -- `UnsealWithStoredKey`
  unfoldable pub unseal_with_stored_key : Exec World (Option ProcessError)
  unfolding with_keys
  unseal_with_stored_key = do keys ← validate_stored_key_secret; with_keys keys
