-- ===== src/Reconciler/Loop/Allowed.antt =====
-- `Reconcile` initializes, unseals and restarts only where that is allowed.
use vault_transit_unseal_ope.Base.{
  Some, inl, inr, refl, ◌≡◌, All, Bool, List, Option, String, [], if◌then◌else◌, none, some, true,
  ◌∷◌,
}
use vault_transit_unseal_ope.Base.Exec.{Keeps, Keeps-bind, Keeps-if, Keeps-pure, pure, ◌>>=◌}
use vault_transit_unseal_ope.Reconciler.Loop.{
  find_vault_pods, report_pod, finish, on_verified, mark_pending, on_pods, with_credential,
  on_shares, recover_from, validate_credential, reconcile_resource, recover_missing,
  on_transit_token, Outcome, process_pods, reconcile,
}
use vault_transit_unseal_ope.Reconciler.Pod.{process_pod}
use vault_transit_unseal_ope.Reconciler.Pod.Safe.{process_pod-Allowed}
use vault_transit_unseal_ope.Reconciler.Setup.{ProcessError, Setup, warn}
use vault_transit_unseal_ope.Reconciler.Shamir.Allowed.{validate-Allowed}
use vault_transit_unseal_ope.Reconciler.Trace.{
  IsListed, Allowed, AreAllowed, Keeps-ask, Keeps-tell, Traced, system_rules,
}
use vault_transit_unseal_ope.System.{Call, ask, Pod, World}

module _ (c : Setup) (parts : AreAllowed c) where
  report_pod-Allowed : (e : Option ProcessError) → Keeps (Traced (Allowed c)) (report_pod c e)
  unfolding report_pod
  report_pod-Allowed none = search system_rules
  report_pod-Allowed (some e) = search (system_rules, tt)

  process_pods-Allowed :
      (pods : List Pod) → All (IsListed c) pods → Keeps (Traced (Allowed c)) (process_pods c pods)
  unfolding process_pods
  process_pods-Allowed [] listed = Keeps-pure true
  process_pods-Allowed (pod ∷ pods) listed =
      Keeps-bind (process_pod c pod) _ (process_pod-Allowed c parts pod listed.0) λ r.
        Keeps-bind (report_pod c r) _ (report_pod-Allowed r) λ healthy.
          Keeps-bind (process_pods c pods) _ (process_pods-Allowed pods listed.1)
            (λ _. Keeps-pure _)

  All-IsListed :
      (h : List Call) (all pods : List Pod)
      → c.env.list_pods h ≡ some all
      → ((pod : Pod) → Some (λ p. p ≡ pod) pods → Some (λ p. p ≡ pod) all)
      → All (IsListed c) pods
  All-IsListed h all [] e within = tt
  All-IsListed h all (pod ∷ pods) e within = (
    record { history = h; pods = all; answer = e; is_member = within pod (inl refl) },
    All-IsListed h all pods e (λ p m. within p (inr m)),
  )

  on_pods-Allowed :
      (h : List Call) (pods : Option (List Pod))
      → c.env.list_pods h ≡ pods
      → Keeps (Traced (Allowed c)) (on_pods c pods)
  unfolding on_pods
  on_pods-Allowed h none e = search system_rules
  on_pods-Allowed h (some []) e = search system_rules
  on_pods-Allowed h (some (pod ∷ pods)) e =
      Keeps-bind (process_pods c (pod ∷ pods)) _
        (process_pods-Allowed (pod ∷ pods)
          (All-IsListed h (pod ∷ pods) (pod ∷ pods) e (λ p member. member)))
        (λ _. Keeps-pure _)

  with_credential-Allowed : Keeps (Traced (Allowed c)) (with_credential c)
  unfolding with_credential find_vault_pods ◌>>=◌ ask
  with_credential-Allowed = record {
    at = λ w h.
        (on_pods-Allowed w.calls (c.env.list_pods w.calls) refl).at
          (record w { calls = Call.list_pods c.spec.pod_namespace ∷ w.calls }) (tt, h);
  }

  on_shares-Allowed : (ks : Option (List String)) → Keeps (Traced (Allowed c)) (on_shares c ks)
  unfolding on_shares
  on_shares-Allowed none = search (system_rules, tt)
  on_shares-Allowed (some ks) = with_credential-Allowed

  on_transit_token-Allowed : (t : Option String) → Keeps (Traced (Allowed c)) (on_transit_token c t)
  unfolding on_transit_token
  on_transit_token-Allowed none = search (system_rules, tt)
  on_transit_token-Allowed (some t) = search (system_rules, with_credential-Allowed, tt)

  validate_credential-Allowed : Keeps (Traced (Allowed c)) (validate_credential c)
  unfolding validate_credential
  validate_credential-Allowed =
      search (system_rules, validate-Allowed, on_shares-Allowed, on_transit_token-Allowed, tt)

  recover_from-Allowed :
      (pods : Option (List Pod)) → Keeps (Traced (Allowed c)) (recover_from c pods)
  unfolding recover_from
  recover_from-Allowed none = search system_rules
  recover_from-Allowed (some []) = search system_rules
  recover_from-Allowed (some (pod ∷ pods)) = Keeps-bind _ _ (Keeps-ask _ _ tt) λ created.
      Keeps-bind (if created then c.parts.recover_secrets else pure true) _
        (Keeps-if created c.parts.recover_secrets (pure true) parts.recover_secrets
          (Keeps-pure true))
        (λ recovered.
          Keeps-if recovered (pure tt) (warn "SecretRecoveryFailed") (Keeps-pure tt)
            (Keeps-tell _ tt))

  recover_missing-Allowed : (b : Bool) → Keeps (Traced (Allowed c)) (recover_missing c b)
  unfolding recover_missing find_vault_pods
  recover_missing-Allowed b = search (system_rules, recover_from-Allowed, tt)

  on_verified-Allowed : (b : Option Bool) → Keeps (Traced (Allowed c)) (on_verified c b)
  unfolding on_verified
  on_verified-Allowed none = search system_rules
  on_verified-Allowed (some b) =
      search (system_rules, recover_missing-Allowed, validate_credential-Allowed)

  reconcile_resource-Allowed : Keeps (Traced (Allowed c)) (reconcile_resource c)
  unfolding reconcile_resource
  reconcile_resource-Allowed =
      Keeps-if c.parts.has_verifier _ (validate_credential c)
        (Keeps-bind c.parts.verify (on_verified c) parts.verify on_verified-Allowed)
        validate_credential-Allowed

  mark_pending-Allowed : Keeps (Traced (Allowed c)) (mark_pending c)
  unfolding mark_pending
  mark_pending-Allowed = search system_rules

  finish-Allowed : (o : Outcome) → Keeps (Traced (Allowed c)) (finish c o)
  unfolding finish
  finish-Allowed o = search (system_rules, tt) depth 9

  keeps-Allowed : Keeps (Traced (Allowed c)) (reconcile c)
  unfolding reconcile
  keeps-Allowed =
      search (system_rules, mark_pending-Allowed, reconcile_resource-Allowed, finish-Allowed) depth
        9

  -- Over a whole reconcile of all pods: Vault is initialized only in transit mode and only after it
  -- has answered that it is not initialized; shares are submitted, and an attempt reset, only in
  -- stored-key mode and only to an initialized and sealed Vault; and a pod is deleted only in
  -- transit mode, when its initialized Vault has answered that it is sealed, and when, as the API
  -- server listed it, it is not terminating and its container has run for the restart grace at the
  -- time that the clock showed. The verifier, the token manager and the other parts, which are
  -- given, are held to the same, and so are the calls before.
  pub reconcile-Allowed :
      (w : World) → All (Allowed c) w.calls → All (Allowed c) (reconcile c w).1.calls
  reconcile-Allowed w h = keeps-Allowed.at w h
