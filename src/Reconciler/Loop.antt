-- ===== src/Reconciler/Loop.antt =====
-- pkg/reconciler/vault_reconciler.go: `Reconcile`.
pub mod Allowed
pub mod Written
use vault_transit_unseal_ope.Base.{
  Bool, List, Option, String, [], false, if◌then◌else◌, none, not, some, true, ◌&&◌, ◌==◌, ◌∷◌,
}
use vault_transit_unseal_ope.Base.Exec.{Exec, gets, pure, ◌>>=◌, ◌>>◌}
use vault_transit_unseal_ope.Kube.{pos, quotient, ℤ}
use vault_transit_unseal_ope.Reconciler.Init.{is_enabled}
use vault_transit_unseal_ope.Reconciler.Pod.{process_pod}
use vault_transit_unseal_ope.Reconciler.Setup.{
  ProcessError, ReconcileError, Setup, list_failed, transit_token_invalid, unseal_key_invalid,
  verification_failed, warn,
}
use vault_transit_unseal_ope.Reconciler.Shamir.{validate_stored_key_secret}
use vault_transit_unseal_ope.Spec.{
  StoredKeySecretRef, TokenState, effective_unseal_mode, is_stored_key_mode, mode_text, pending,
  unset,
}
use vault_transit_unseal_ope.System.{Call, Metric, Pod, World, ask, set_status, tell}

-- `Result`: when the resource is looked at again, and the error
pub record Outcome : Type 0 where
  pub requeue_after : ℤ
  pub error : Option ReconcileError

abbrev pub failure : ReconcileError → Outcome
failure e = record { requeue_after = pos 0; error = some e }

abbrev pub success : ℤ → Outcome
success d = record { requeue_after = d; error = none }

abbrev pub is_success : Outcome → Bool
is_success o = elim o.error [ none ↦ true | some e ↦ false ]

abbrev pub is_unset : TokenState → Bool
is_unset unset = true
is_unset _ = false

module _ (c : Setup) where
  report_pod : Option ProcessError → Exec World Bool
  report_pod none = pure true
  report_pod (some e) = do warn "ProcessingFailed"; pure false

  -- Every pod is processed; the result tells whether all of them went well.
  unfoldable pub process_pods : List Pod → Exec World Bool
  unfolding report_pod
  process_pods [] = pure true
  process_pods (pod ∷ pods) = do
    result ← process_pod c pod
    healthy ← report_pod result
    rest ← process_pods pods
    pure (healthy && rest)

  check_interval : ℤ
  check_interval = c.codec.parse_duration c.spec.check_interval

  -- Faster on errors
  unfoldable pub requeue_interval : Bool → ℤ
  unfolding check_interval
  requeue_interval healthy = if not healthy then quotient check_interval 2 else check_interval

  on_pods : Option (List Pod) → Exec World Outcome
  unfolding requeue_interval
  on_pods none = pure (failure list_failed)
  on_pods (some []) = pure (success check_interval)
  on_pods (some (pod ∷ pods)) = do
    healthy ← process_pods (pod ∷ pods)
    pure (success (requeue_interval healthy))

  find_vault_pods : Exec World (Option (List Pod))
  find_vault_pods = ask (Call.list_pods c.spec.pod_namespace) c.env.list_pods

  with_credential : Exec World Outcome
  unfolding on_pods find_vault_pods
  with_credential = do pods ← find_vault_pods; on_pods pods

  on_shares : Option (List String) → Exec World Outcome
  unfolding with_credential
  on_shares none = do warn "InvalidConfig"; pure (failure unseal_key_invalid)
  on_shares (some keys) = with_credential

  -- `ValidateTransitToken`: the token is there and not empty.
  on_transit_token : Option String → Exec World Outcome
  unfolding with_credential
  on_transit_token none = do warn "InvalidConfig"; pure (failure transit_token_invalid)
  on_transit_token (some token) =
      if token == ""
      then (do warn "InvalidConfig"; pure (failure transit_token_invalid))
      else with_credential

  transit_ref : StoredKeySecretRef
  transit_ref = record {
    name = c.spec.transit_secret_name;
    key = c.spec.transit_secret_key;
    namespace = c.spec.pod_namespace;
  }

  validate_credential : Exec World Outcome
  unfolding on_shares on_transit_token transit_ref
  validate_credential =
      if is_stored_key_mode c.spec
      then (do keys ← validate_stored_key_secret c; on_shares keys)
      else (do
        token ←
            ask (Call.get_key transit_ref.namespace transit_ref.name transit_ref.key)
              (λ h. c.env.get_key h transit_ref)
        on_transit_token token)

  recover_from : Option (List Pod) → Exec World (Unit {0})
  recover_from (some (pod ∷ pods)) = do
    created ← ask (Call.new_client pod.name) (λ h. c.env.new_client h pod.name)
    recovered ← (if created then c.parts.recover_secrets else pure true)
    if recovered then pure tt else warn "SecretRecoveryFailed"
  recover_from _ = pure tt

  -- Secrets are recovered only where a transit Vault can hold their backup.
  recover_missing : Bool → Exec World (Unit {0})
  unfolding recover_from find_vault_pods
  recover_missing all_present =
      if not all_present && c.parts.has_recovery && not (is_stored_key_mode c.spec)
      then (do pods ← find_vault_pods; recover_from pods)
      else pure tt

  on_verified : Option Bool → Exec World Outcome
  unfolding recover_missing validate_credential
  on_verified none = pure (failure verification_failed)
  on_verified (some all_present) = do recover_missing all_present; validate_credential

  reconcile_resource : Exec World Outcome
  unfolding on_verified
  reconcile_resource =
      if c.parts.has_verifier
      then (do verified ← c.parts.verify; on_verified verified)
      else validate_credential

  mark_pending : Exec World (Unit {0})
  mark_pending =
      if is_enabled c.spec.token_management
      then set_status (λ s. record s {
        token_state = if is_unset s.token_state then pending else s.token_state;
      })
      else pure tt

  -- The deferred calls: the status is written, whatever happened, and then the metric recorded.
  finish : Outcome → Exec World Outcome
  finish outcome = do
    now ← ask Call.clock c.env.clock
    set_status (λ s. record s { last_check_time = c.codec.format_time now })
    status ← gets (λ (w : World). w.status)
    tell (Call.update_status status)
    tell (Call.metric (Metric.reconciliation (is_success outcome)))
    pure outcome

  -- `Reconcile`
  unfoldable pub reconcile : Exec World Outcome
  unfolding reconcile_resource mark_pending finish
  reconcile = do
    set_status (λ s. record s { unseal_mode = mode_text (effective_unseal_mode c.spec) })
    mark_pending
    outcome ← reconcile_resource
    finish outcome
