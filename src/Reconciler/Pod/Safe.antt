-- ===== src/Reconciler/Pod/Safe.antt =====
-- `ProcessPod` initializes, unseals and restarts only where that is allowed.
use vault_transit_unseal_ope.Reconciler.Pod.Allowed.{
  maintain-Allowed, restart_sealed-Allowed, update_conditions-Allowed,
}
use vault_transit_unseal_ope.Base.{
  Bool, Option, arith, false, if◌then◌else◌, none, not, refl, some, true, ◌&&◌, ◌∷◌, ◌≡◌,
}
use vault_transit_unseal_ope.Base.Exec.{
  Keeps, Keeps-bind, Keeps-if, Keeps-if_eq, Keeps-pure, pure, ◌>>=◌, ◌>>◌,
}
use vault_transit_unseal_ope.Reconciler.Init.{initialize_vault}
use vault_transit_unseal_ope.Reconciler.Init.Allowed.{initialize_vault-Allowed}
use vault_transit_unseal_ope.Reconciler.Pod.{
  maintain, after_initialize, unseal_or_maintain, with_client, after_root_token, on_status,
  process_pod, restart_sealed, update_conditions,
}
use vault_transit_unseal_ope.Reconciler.Setup.{
  InitError, Setup, client_failed, root_token_failed, status_failed,
}
use vault_transit_unseal_ope.Reconciler.Shamir.{handle_uninitialized, unseal_with_stored_key}
use vault_transit_unseal_ope.Reconciler.Shamir.Allowed.{
  handle_uninitialized-Allowed, unseal_with_stored_key-Allowed,
}
use vault_transit_unseal_ope.Reconciler.Trace.{
  IsListed, Allowed, Answered, AreAllowed, Keeps-tell, Traced, system_rules,
}
use vault_transit_unseal_ope.Spec.{is_stored_key_mode}
use vault_transit_unseal_ope.System.{Call, Metric, Pod, VaultStatus, ask, check_status, tell}

module _ (c : Setup) (parts : AreAllowed c) (pod : Pod) where
  unseal_or_maintain-Allowed :
      (status : VaultStatus)
      → Answered c pod status
      → Keeps (Traced (Allowed c)) (unseal_or_maintain c pod status)
  unfolding unseal_or_maintain
  unseal_or_maintain-Allowed status answered =
      Keeps-bind (update_conditions c pod status) _ (update_conditions-Allowed c parts pod status)
        λ _.
          Keeps-if_eq (status.sealed && status.initialized && is_stored_key_mode c.spec)
            (unseal_with_stored_key c) _
            (λ t. unseal_with_stored_key-Allowed c (record {
              pod = pod;
              status = status;
              answered = answered;
              is_stored_key = ground arith;
              is_sealed = ground arith;
              is_initialized = ground arith;
            }))
            λ t.
              Keeps-if_eq (status.sealed && status.initialized) (restart_sealed c pod)
                (maintain c pod status)
                (λ u.
                  restart_sealed-Allowed c pod status answered (ground arith) (ground arith)
                    (ground arith))
                (λ _. maintain-Allowed c parts pod status)

  after_initialize-Allowed :
      (status : VaultStatus) (e : Option InitError)
      → Answered c pod status
      → Keeps (Traced (Allowed c)) (after_initialize c pod status e)
  unfolding after_initialize
  after_initialize-Allowed status (some e) answered = search (system_rules, tt)
  after_initialize-Allowed status none answered =
      Keeps-bind (tell (Call.metric (Metric.initialization true))) _ (Keeps-tell _ tt) λ _.
        Keeps-bind (if c.parts.has_verifier then (do c.parts.verify; pure tt) else pure tt) _
          (Keeps-if _ _ _ (Keeps-bind c.parts.verify _ parts.verify (λ _. Keeps-pure tt))
            (Keeps-pure tt))
          (λ _. unseal_or_maintain-Allowed status answered)

  after_root_token-Allowed :
      (status : VaultStatus) (b : Bool)
      → Answered c pod status
      → Keeps (Traced (Allowed c)) (after_root_token c pod status b)
  unfolding after_root_token
  after_root_token-Allowed status false answered = Keeps-pure (some root_token_failed)
  after_root_token-Allowed status true answered = unseal_or_maintain-Allowed status answered

  on_status-Allowed :
      (o : Option VaultStatus)
      → ((status : VaultStatus) → o ≡ some status → Answered c pod status)
      → Keeps (Traced (Allowed c)) (on_status c pod o)
  unfolding on_status
  on_status-Allowed none answered = Keeps-pure (some status_failed)
  on_status-Allowed (some status) answers =
      let answered = answers status refl in
      Keeps-bind (tell (Call.metric (Metric.vault_status status.initialized status.sealed))) _
        (Keeps-tell _ tt)
        λ _.
          Keeps-if_eq (not status.initialized && is_stored_key_mode c.spec)
            (do handle_uninitialized c; pure none) _
            (λ _.
              Keeps-bind (handle_uninitialized c) _ (handle_uninitialized-Allowed c)
                (λ _. Keeps-pure none))
            λ t.
              Keeps-if_eq (not status.initialized)
                (do result ← initialize_vault c; after_initialize c pod status result) _
                (λ u.
                  Keeps-bind (initialize_vault c) (after_initialize c pod status)
                    (initialize_vault-Allowed c parts (record {
                      pod = pod;
                      status = status;
                      answered = answered;
                      is_transit = ground arith;
                      is_new = ground arith;
                    }))
                    (λ e. after_initialize-Allowed status e answered))
                λ u.
                  Keeps-if
                    (c.spec.initialization.force_reinitialize
                      && status.initialized
                      && not status.sealed)
                    (do
                      done ← c.parts.generate_root_token pod.name
                      after_root_token c pod status done)
                    (unseal_or_maintain c pod status)
                    (Keeps-bind (c.parts.generate_root_token pod.name)
                      (after_root_token c pod status) (parts.generate_root_token pod.name)
                      (λ b. after_root_token-Allowed status b answered))
                    (unseal_or_maintain-Allowed status answered)

  checked-Allowed : IsListed c pod → Keeps (Traced (Allowed c)) (with_client c pod true)
  unfolding with_client ◌>>=◌ ask
  checked-Allowed listed = record {
    at = λ w h.
        (on_status-Allowed (c.env.check_status w.calls pod.name)
            (λ status e. record { listed = listed; history = w.calls; answer = e })).at
          (record w { calls = check_status pod.name ∷ w.calls }) (tt, h);
  }

  with_client-Allowed :
      IsListed c pod → (b : Bool) → Keeps (Traced (Allowed c)) (with_client c pod b)
  unfolding with_client
  with_client-Allowed listed false = Keeps-pure (some client_failed)
  with_client-Allowed listed true = checked-Allowed listed

  pub process_pod-Allowed : IsListed c pod → Keeps (Traced (Allowed c)) (process_pod c pod)
  unfolding process_pod
  process_pod-Allowed listed = search (system_rules, with_client-Allowed listed, tt)
