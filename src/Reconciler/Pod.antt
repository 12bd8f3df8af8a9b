-- ===== src/Reconciler/Pod.antt =====
-- pkg/reconciler/vault_reconciler.go: `ProcessPod`.
pub mod Allowed
pub mod Safe
use vault_transit_unseal_ope.Base.{
  Bool, List, Option, String, [], any, false, if◌then◌else◌, ltb, none, not, some, suc, true, ℕ,
  ◌&&◌, ◌*◌, ◌-◌, ◌==◌, ◌||◌, ◌∷◌,
}
use vault_transit_unseal_ope.Base.Exec.{Exec, pure, ◌>>=◌, ◌>>◌}
use vault_transit_unseal_ope.Base.Text.{contains}
use vault_transit_unseal_ope.Kube.{Instant, KubeError, is_not_found, pos, second, ℤ}
use vault_transit_unseal_ope.Reconciler.Init.{initialize_vault}
use vault_transit_unseal_ope.Reconciler.Setup.{
  InitError, ProcessError, Setup, client_failed, condition, fixed, initialization_failed,
  not_started, restart_failed, root_token_failed, status_failed, warn,
}
use vault_transit_unseal_ope.Reconciler.Shamir.{handle_uninitialized, unseal_with_stored_key}
use vault_transit_unseal_ope.Spec.{
  StoredKeySecretRef, TokenState, active, failed, is_stored_key_mode, waiting,
}
use vault_transit_unseal_ope.System.{
  Call, ContainerStatus, Metric, Pod, VaultStatus, World, ask, set_status, tell,
}
use vault_transit_unseal_ope.Token.World.{normal}

abbrev pub default_grace : ℕ
default_grace = 90 * second

-- `sealedRestartGrace`
unfoldable pub sealed_restart_grace : ℤ → ℕ
sealed_restart_grace (pos (suc n)) = suc n
sealed_restart_grace _ = default_grace

-- `hasVaultContainer`
unfoldable pub has_vault_container : Pod → Bool
has_vault_container pod = any (λ name. name == "vault") pod.containers

-- `*cs.Started`, where it is present
abbrev is_started : Option Bool → Bool
is_started none = false
is_started (some b) = b

vault_started : List ContainerStatus → Bool
vault_started [] = false
vault_started (s ∷ ss) =
    let rest = vault_started ss in if s.name == "vault" then is_started s.started else rest

-- `isPodReady`
unfoldable pub is_pod_ready : Pod → Bool
unfolding vault_started
is_pod_ready pod = pod.is_running && vault_started pod.statuses

-- The time since which the container named vault runs, if it does
unfoldable pub vault_running_since : List ContainerStatus → Option Instant
vault_running_since [] = none
vault_running_since (s ∷ ss) =
    let rest = vault_running_since ss in if s.name == "vault" then s.running_since else rest

abbrev pub needs_recovery : String → Bool
needs_recovery message =
    contains message "Manual recovery required"
    || contains message "root token was previously revoked"

-- A token state that the wait for an unsealed Vault does not replace
abbrev pub is_settled : TokenState → Bool
is_settled active = true
is_settled failed = true
is_settled _ = false

module _ (c : Setup) (pod : Pod) where
  after_delete : Option KubeError → Exec World (Option ProcessError)
  after_delete (some e) = if not (is_not_found e) then pure (some (restart_failed e)) else (do
    tell (Call.metric (Metric.vault_status true true))
    tell (Call.event normal "RestartedSealedPod")
    pure none)
  after_delete none = do
    tell (Call.metric (Metric.vault_status true true))
    tell (Call.event normal "RestartedSealedPod")
    pure none

  restart_now : Exec World (Option ProcessError)
  unfolding after_delete
  restart_now = do
    answer ← ask (Call.delete_pod pod.name) (λ h. c.env.delete_pod h pod.name)
    after_delete answer

  -- A container that does not run has run for no time, which is within any grace.
  since : Option Instant → Exec World (Option ProcessError)
  unfolding restart_now
  since none = pure none
  since (some started) = do
    now ← ask Call.clock c.env.clock
    if ltb (now - started) (sealed_restart_grace c.grace) then pure none else restart_now

  -- A pod that is sealed in transit mode is restarted, unless it is going already or has only just
  -- started.
  unfoldable pub restart_sealed : Exec World (Option ProcessError)
  unfolding since
  restart_sealed =
      if pod.is_terminating then pure none else since (vault_running_since pod.statuses)

  -- `updateConditions`
  unfoldable pub update_conditions : VaultStatus → Exec World (Unit {0})
  update_conditions status = do
    (if status.initialized
        then condition c "Initialized" "True" "VaultInitialized" (fixed "Vault is initialized")
        else condition c "Initialized" "False" "NotInitialized" (fixed "Vault is not initialized"))
    if not status.sealed
        then condition c "Ready" "True" "VaultReady" (fixed "Vault is unsealed and ready")
        else condition c "Ready" "False" "VaultSealed" (fixed "Vault is sealed")

  report_missing : Option Bool → Exec World (Unit {0})
  report_missing (some false) = warn "MissingSecrets"
  report_missing _ = pure tt

  verify_secrets : VaultStatus → Exec World (Unit {0})
  unfolding report_missing
  verify_secrets status =
      if status.initialized && c.parts.has_verifier
      then (do present ← c.parts.verify; report_missing present)
      else pure tt

  report_drift : Option Bool → Exec World (Unit {0})
  report_drift none = pure tt
  report_drift (some true) = do
    condition c "RecoveryKeysIntact" "False" "RecoveryKeyDrift" (
        fixed
          "in-cluster recovery-key-0 hash diverged from the value recorded at initialization; generate-root will fail")
    warn "RecoveryKeyDrift"
  report_drift (some false) =
      condition c "RecoveryKeysIntact" "True" "Match"
        (fixed "recovery-key-0 hash matches initialization record")

  check_drift : VaultStatus → Exec World (Unit {0})
  unfolding report_drift
  check_drift status =
      if status.initialized && c.spec.initialization.secret_names.store_recovery_keys
      then (do drifted ← c.parts.check_drift; report_drift drifted)
      else pure tt

  manages_token : Bool
  manages_token =
      c.parts.has_token_manager && elim c.spec.token_management [ none ↦ false | some b ↦ true ]

  mark_waiting : VaultStatus → Exec World (Unit {0})
  unfolding manages_token
  mark_waiting status =
      if (status.sealed || not status.initialized) && manages_token
      then set_status (λ s. record s {
        token_state = if not (is_settled s.token_state) then waiting else s.token_state;
      })
      else pure tt

  report_token_error : Option String → Exec World (Unit {0})
  report_token_error none = pure tt
  report_token_error (some message) = do
    set_status (λ s. record s {
      token_state = if needs_recovery message then failed else s.token_state;
      token_error = if needs_recovery message then message else s.token_error;
    })
    warn "TokenManagementFailed"

  manage_token : Exec World (Unit {0})
  unfolding manages_token report_token_error
  manage_token =
      if manages_token
      then (do
        message ← c.parts.reconcile_initial_token
        report_token_error message
        renewed ← c.parts.renew_if_needed
        (if renewed then pure tt else warn "TokenRenewalFailed")
        c.parts.rotate_if_due
        pure tt)
      else pure tt

  with_admin_token : Option String → Exec World (Unit {0})
  with_admin_token none = pure tt
  with_admin_token (some token) = c.parts.configure token

  configure_vault : Exec World (Unit {0})
  unfolding with_admin_token
  configure_vault =
      let p = c.spec.post_unseal_config in
      let admin : StoredKeySecretRef = record {
        name = c.spec.initialization.secret_names.admin_token;
        key = "token";
        namespace = c.spec.pod_namespace;
      } in
      if (p.enable_kv || p.enable_external_secrets_operator
          || p.enable_vault_config_operator_bootstrap)
        && c.parts.has_configurator
      then (do
        token ← ask (Call.get_key admin.namespace admin.name admin.key) (λ h. c.env.get_key h admin)
        with_admin_token token)
      else pure tt

  -- What follows where Vault is not both sealed and initialized
  unfoldable pub maintain : VaultStatus → Exec World (Option ProcessError)
  unfolding verify_secrets check_drift mark_waiting manage_token configure_vault
  maintain status = do
    verify_secrets status
    check_drift status
    mark_waiting status
    (if not status.sealed && status.initialized
        then (do manage_token; configure_vault)
        else pure tt)
    pure none

  unseal_or_maintain : VaultStatus → Exec World (Option ProcessError)
  unfolding update_conditions restart_sealed maintain
  unseal_or_maintain status = do
    update_conditions status
    if status.sealed && status.initialized && is_stored_key_mode c.spec
        then unseal_with_stored_key c
        else if status.sealed && status.initialized
        then restart_sealed
        else maintain status

  after_initialize : VaultStatus → Option InitError → Exec World (Option ProcessError)
  unfolding unseal_or_maintain
  after_initialize status (some e) = do
    tell (Call.metric (Metric.initialization false))
    pure (some (initialization_failed e))
  after_initialize status none = do
    tell (Call.metric (Metric.initialization true))
    (if c.parts.has_verifier then (do c.parts.verify; pure tt) else pure tt)
    unseal_or_maintain status

  after_root_token : VaultStatus → Bool → Exec World (Option ProcessError)
  unfolding unseal_or_maintain
  after_root_token status false = pure (some root_token_failed)
  after_root_token status true = unseal_or_maintain status

  on_status : Option VaultStatus → Exec World (Option ProcessError)
  unfolding after_initialize after_root_token unseal_or_maintain
  on_status none = pure (some status_failed)
  on_status (some status) = do
    tell (Call.metric (Metric.vault_status status.initialized status.sealed))
    if not status.initialized && is_stored_key_mode c.spec
        then (do handle_uninitialized c; pure none)
        else if not status.initialized
        then (do result ← initialize_vault c; after_initialize status result)
        else if c.spec.initialization.force_reinitialize && status.initialized && not status.sealed
        then (do done ← c.parts.generate_root_token pod.name; after_root_token status done)
        else unseal_or_maintain status

  with_client : Bool → Exec World (Option ProcessError)
  unfolding on_status
  with_client false = pure (some client_failed)
  with_client true = do
    status ← ask (Call.check_status pod.name) (λ h. c.env.check_status h pod.name)
    on_status status

  -- `ProcessPod`
  unfoldable pub process_pod : Exec World (Option ProcessError)
  unfolding with_client
  process_pod =
      if not (has_vault_container pod)
      then pure none
      else if not (is_pod_ready pod)
      then pure (some not_started)
      else (do
        created ← ask (Call.new_client pod.name) (λ h. c.env.new_client h pod.name)
        with_client created)
