-- ===== src/Reconciler/Pod/Allowed.antt =====
-- A pod is processed within what is allowed.
use vault_transit_unseal_ope.Base.{
  List, ◌∷◌, Bool, Option, String, false, if◌then◌else◌, ltb, ltb_false→le, none, refl, some, true,
  ◌-◌, ◌≡◌,
}
use vault_transit_unseal_ope.Base.Exec.{
  Keeps, Keeps-bind, Keeps-if, Keeps-if_eq, Keeps-pure, pure, ◌>>=◌, ◌>>◌,
}
use vault_transit_unseal_ope.Kube.{Instant, KubeError}
use vault_transit_unseal_ope.Reconciler.Pod.{
  with_admin_token, report_token_error, report_drift, configure_vault, check_drift, since,
  verify_secrets, restart_now, maintain, manage_token, after_delete, report_missing, mark_waiting,
  restart_sealed, sealed_restart_grace, update_conditions, vault_running_since,
}
use vault_transit_unseal_ope.Reconciler.Setup.{Setup, warn}
use vault_transit_unseal_ope.Reconciler.Trace.{
  Allowed, Answered, AreAllowed, Keeps-ask, MayDelete, Traced, system_rules,
}
use vault_transit_unseal_ope.Spec.{is_stored_key_mode}
use vault_transit_unseal_ope.System.{clock, Call, Pod, VaultStatus, ask}

module _ (c : Setup) (pod : Pod) (may : MayDelete c pod.name) where
  after_delete-Allowed : (e : Option KubeError) → Keeps (Traced (Allowed c)) (after_delete c pod e)
  unfolding after_delete
  after_delete-Allowed none = search (system_rules, tt)
  after_delete-Allowed (some e) = search (system_rules, tt)

  restart_now-Allowed : Keeps (Traced (Allowed c)) (restart_now c pod)
  unfolding restart_now
  restart_now-Allowed = Keeps-bind _ (after_delete c pod) (Keeps-ask _ _ may) after_delete-Allowed

module _ (c : Setup) (pod : Pod) (status : VaultStatus) (answered : Answered c pod status) where
  module _ (is_transit : is_stored_key_mode c.spec ≡ false) (is_sealed : status.sealed ≡ true)
      (is_initialized : status.initialized ≡ true) where
    at_time-Allowed :
        (h : List Call)
        → pod.is_terminating ≡ false
        → (started : Instant) → vault_running_since pod.statuses ≡ some started
        → Keeps (Traced (Allowed c)) (
            if ltb (c.env.clock h - started) (sealed_restart_grace c.grace)
            then pure none
            else restart_now c pod)
    at_time-Allowed h stays started e =
        Keeps-if_eq (ltb (c.env.clock h - started) (sealed_restart_grace c.grace)) (pure none)
          (restart_now c pod) (λ _. Keeps-pure none)
          λ t. restart_now-Allowed c pod (record {
            pod = pod;
            status = status;
            answered = answered;
            is_named = refl;
            is_transit = is_transit;
            is_sealed = is_sealed;
            is_initialized = is_initialized;
            is_staying = stays;
            started = started;
            clock_history = h;
            is_running = e;
            is_stuck = ltb_false→le (c.env.clock h - started) (sealed_restart_grace c.grace) t;
          })

    since-Allowed :
        pod.is_terminating ≡ false
        → (s : Option Instant) → vault_running_since pod.statuses ≡ s
        → Keeps (Traced (Allowed c)) (since c pod s)
    unfolding since ◌>>=◌ ask
    since-Allowed stays none e = Keeps-pure none
    since-Allowed stays (some started) e = record {
      at = λ w h.
          (at_time-Allowed w.calls stays started e).at (record w { calls = clock ∷ w.calls })
            (tt, h);
    }

    pub restart_sealed-Allowed : Keeps (Traced (Allowed c)) (restart_sealed c pod)
    unfolding restart_sealed
    restart_sealed-Allowed =
        Keeps-if_eq pod.is_terminating (pure none) (since c pod (vault_running_since pod.statuses))
          (λ _. Keeps-pure none) (λ t. since-Allowed t (vault_running_since pod.statuses) refl)

module _ (c : Setup) (parts : AreAllowed c) (pod : Pod) where
  pub update_conditions-Allowed :
      (status : VaultStatus) → Keeps (Traced (Allowed c)) (update_conditions c pod status)
  unfolding update_conditions
  update_conditions-Allowed status = search system_rules

  report_missing-Allowed : (b : Option Bool) → Keeps (Traced (Allowed c)) (report_missing c pod b)
  unfolding report_missing
  report_missing-Allowed none = search system_rules
  report_missing-Allowed (some true) = search system_rules
  report_missing-Allowed (some false) = search (system_rules, tt)

  verify_secrets-Allowed :
      (status : VaultStatus) → Keeps (Traced (Allowed c)) (verify_secrets c pod status)
  unfolding verify_secrets
  verify_secrets-Allowed status =
      Keeps-if _ _ _
        (Keeps-bind c.parts.verify (report_missing c pod) parts.verify report_missing-Allowed)
        (Keeps-pure tt)

  report_drift-Allowed : (b : Option Bool) → Keeps (Traced (Allowed c)) (report_drift c pod b)
  unfolding report_drift
  report_drift-Allowed none = search system_rules
  report_drift-Allowed (some true) = search (system_rules)
  report_drift-Allowed (some false) = search system_rules

  check_drift-Allowed :
      (status : VaultStatus) → Keeps (Traced (Allowed c)) (check_drift c pod status)
  unfolding check_drift
  check_drift-Allowed status =
      Keeps-if _ _ _
        (Keeps-bind c.parts.check_drift (report_drift c pod) parts.check_drift report_drift-Allowed)
        (Keeps-pure tt)

  mark_waiting-Allowed :
      (status : VaultStatus) → Keeps (Traced (Allowed c)) (mark_waiting c pod status)
  unfolding mark_waiting
  mark_waiting-Allowed status = search system_rules

  report_token_error-Allowed :
      (m : Option String) → Keeps (Traced (Allowed c)) (report_token_error c pod m)
  unfolding report_token_error
  report_token_error-Allowed none = search system_rules
  report_token_error-Allowed (some m) = search (system_rules)

  after_initial_token-Allowed : Keeps (Traced (Allowed c)) (do
    renewed ← c.parts.renew_if_needed
    (if renewed then pure tt else warn "TokenRenewalFailed")
    c.parts.rotate_if_due
    pure tt)
  after_initial_token-Allowed =
      Keeps-bind c.parts.renew_if_needed _ parts.renew_if_needed λ renewed.
        Keeps-bind (if renewed then pure tt else warn "TokenRenewalFailed") _
          (search (system_rules, tt))
          λ _. Keeps-bind c.parts.rotate_if_due _ parts.rotate_if_due (λ _. Keeps-pure tt)

  manage_token-Allowed : Keeps (Traced (Allowed c)) (manage_token c pod)
  unfolding manage_token
  manage_token-Allowed =
      Keeps-if _ _ _
        (Keeps-bind c.parts.reconcile_initial_token _ parts.reconcile_initial_token λ m.
          Keeps-bind (report_token_error c pod m) _ (report_token_error-Allowed m)
            (λ _. after_initial_token-Allowed))
        (Keeps-pure tt)

  with_admin_token-Allowed :
      (t : Option String) → Keeps (Traced (Allowed c)) (with_admin_token c pod t)
  unfolding with_admin_token
  with_admin_token-Allowed none = Keeps-pure tt
  with_admin_token-Allowed (some t) = parts.configure t

  configure_vault-Allowed : Keeps (Traced (Allowed c)) (configure_vault c pod)
  unfolding configure_vault
  configure_vault-Allowed = search (system_rules, with_admin_token-Allowed, tt)

  pub maintain-Allowed : (status : VaultStatus) → Keeps (Traced (Allowed c)) (maintain c pod status)
  unfolding maintain
  maintain-Allowed status =
      search
        (
          system_rules, verify_secrets-Allowed, check_drift-Allowed, mark_waiting-Allowed,
          manage_token-Allowed, configure_vault-Allowed,
        )
        depth 9
