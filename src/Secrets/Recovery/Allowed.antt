-- ===== src/Secrets/Recovery/Allowed.antt =====
-- Everything that `RecoverSecrets` does is allowed.
use vault_transit_unseal_ope.Base.{
  ◌==◌, ◌||◌, not, Bool, List, Option, String, [], inl, inr, none, refl, some, sym, ◌∷◌, ◌≡◌,
}
use vault_transit_unseal_ope.Secrets.Placeholder.Allowed.{
  create_recovery_placeholder-Fine, recover_transit_token-Fine, update_incomplete_secret-Fine,
}
use vault_transit_unseal_ope.Secrets.Recovery.Scoped.{IsScoped, scoped_token-IsScoped}
use vault_transit_unseal_ope.Secrets.Restore.{restore_admin_token}
use vault_transit_unseal_ope.Secrets.Restore.Allowed.{restore_admin_token-Fine}
use vault_transit_unseal_ope.System.{VaultStatus}
use vault_transit_unseal_ope.Token.World.{normal, warning}
use vault_transit_unseal_ope.Transit.Backup.{
  kv_failed, no_transit_token, BackupError, recover_token_from_transit,
}
use mathlib.Core.Path.{subst}
use vault_transit_unseal_ope.Transit
use vault_transit_unseal_ope.Secrets.World.{
  creating, updating, deleting, getting, panicked, transit_token_missing, unknown_secret, not_owned,
}
use vault_transit_unseal_ope.Transit.Kv.{
  bad_client, listing, mounting, no_address, no_token, not_mounted, reading, token_absent,
  unexpected_format, writing, wrong_type, wrong_version, KvError,
}
use vault_transit_unseal_ope.Secrets.Recovery.{scopes, scoped_or, uses_backup}
use vault_transit_unseal_ope.Secrets.World.{on_transit}
use vault_transit_unseal_ope.Secrets.Recovery.{
  root_in, is_root_token, scoped_token, scope_if, assumed, manual_recovery, on_backup,
  recover_unsealed, recover_admin_token, on_admin_status, recover_secrets, recover_plan,
  recover_action, report_failure, recover_missing_secret, recover_recovery_keys, on_keys_status,
  set_vault_token, lookup_with,
}
use vault_transit_unseal_ope.Secrets.Verifier.{Report, create, restore, update}
use vault_transit_unseal_ope.Base.Exec.{Exec, Keeps, Keeps-if, Keeps-pure, Keeps-bind, Keeps-gets}
use vault_transit_unseal_ope.Base.Try
use vault_transit_unseal_ope.Base.Try.{
  Result, Try, ok, err, lift, or_error, throw, return, Keeps-lift, Keeps-try, Keeps-throw,
  Keeps-return, Keeps-or_error, ◌>>=◌, ◌>>◌,
}
use vault_transit_unseal_ope.Secrets.World.{Call, Setup, World, RecoveryError, tell}
use vault_transit_unseal_ope.Secrets.Trace.{
  AreAllowed, Fine, IsTrusted, IsFromBackup, ask-Fine, tell-Fine,
}
use vault_transit_unseal_ope.Secrets.Verifier.{Action, ActionType}

module _ (c : Setup) where
  set-Fine : (t : String) → Keeps (Fine c) (set_vault_token t)
  unfolding set_vault_token
  set-Fine t = record { at = λ w h. h }

  transit-Fine : {A : Type 0} (m : Exec Transit.World.World A) → Keeps (Fine c) (on_transit m)
  unfolding on_transit
  transit-Fine m = record { at = λ w h. h }

  module _ (token : String) (given : IsFromBackup c token) where
    lookup-Fine : (old : String) → Keeps (Fine c) (lookup_with c token old)
    unfolding lookup_with
    lookup-Fine old = Keeps-bind (set_vault_token token) _ (set-Fine token) λ _.
        Keeps-bind _ _
          (ask-Fine c (Call.lookup_self token) (λ h. c.env.lookup_self h token) (λ h. given))
          λ answer. Keeps-bind _ _ (set-Fine old) λ _. Keeps-pure (root_in answer)

    root-Fine : Keeps (Fine c) (is_root_token c token)
    unfolding is_root_token
    root-Fine =
        Keeps-if (not c.has_api_client) _ _ (Keeps-pure none)
          (Keeps-bind _ _ (Keeps-gets (λ w. w.vault_token)) lookup-Fine)

    scope-Fine : (b : Bool) → Keeps (Fine c) (scope_if c token b)
    unfolding scope_if
    scope-Fine b =
        Keeps-if b _ _
          (Keeps-bind _ _ (ask-Fine c (Call.create_scoped token) _ (λ h. given))
            λ t. Keeps-pure (scoped_or token t))
          (Keeps-pure token)

    scoped-Fine : Keeps (Fine c) (scoped_token c token)
    unfolding scoped_token
    scoped-Fine =
        Keeps-if (scopes c) _ _ (Keeps-bind _ _ root-Fine λ root. scope-Fine (assumed root))
          (Keeps-pure token)

    scoped-IsTrusted : (t : String) → IsScoped c token t → IsTrusted c t
    scoped-IsTrusted t (inl e) = inl (subst (IsFromBackup c) (sym e) given)
    scoped-IsTrusted t (inr (s, h, e)) = inr (token, given, h, e)

    given-Fine :
        (a : Action)
        → Keeps (Fine c) (lift (scoped_token c token) >>= λ t. restore_admin_token c a t)
    unfolding Try.◌>>=◌ Try.lift Try.continue
    given-Fine a = record {
      at = λ w h.
          (restore_admin_token-Fine c a (scoped_token c token w).0
              (scoped-IsTrusted (scoped_token c token w).0 (scoped_token-IsScoped c token w))).at
            _ (scoped-Fine.at w h);
    }

  manual-Fine : (a : Action) → Keeps (Fine c) (manual_recovery c a)
  unfolding manual_recovery
  manual-Fine a =
      Keeps-try _ _
        (Keeps-lift _ (tell-Fine c (Call.event warning "ManualRecoveryRequired") (λ h. tt)))
        λ _. create_recovery_placeholder-Fine c a c.instructions

  backup-Fine :
      (a : Action) (r : Result BackupError String)
      → ((t : String) → r ≡ ok t → IsFromBackup c t)
      → Keeps (Fine c) (on_backup c a r)
  unfolding on_backup
  backup-Fine a (ok t) g = Keeps-if (not (t == "")) _ _ (given-Fine t (g t refl) a) (manual-Fine a)
  backup-Fine a (err (kv_failed (listing d))) g = manual-Fine a
  backup-Fine a (err (kv_failed (mounting d))) g = manual-Fine a
  backup-Fine a (err (kv_failed (writing d))) g = manual-Fine a
  backup-Fine a (err (kv_failed (reading d))) g = manual-Fine a
  backup-Fine a (err (kv_failed (KvError.deleting d))) g = manual-Fine a
  backup-Fine a (err (kv_failed not_mounted)) g = manual-Fine a
  backup-Fine a (err (kv_failed wrong_version)) g = manual-Fine a
  backup-Fine a (err (kv_failed unexpected_format)) g = manual-Fine a
  backup-Fine a (err (kv_failed token_absent)) g = manual-Fine a
  backup-Fine a (err (kv_failed (wrong_type t))) g = manual-Fine a
  backup-Fine a (err (kv_failed no_address)) g = manual-Fine a
  backup-Fine a (err (kv_failed no_token)) g = manual-Fine a
  backup-Fine a (err (kv_failed bad_client)) g = manual-Fine a
  backup-Fine a (err (kv_failed KvError.panicked)) g = Keeps-throw RecoveryError.panicked
  backup-Fine a (err (BackupError.unresolved e)) g = manual-Fine a
  backup-Fine a (err (no_transit_token e)) g = manual-Fine a

  read-Fine :
      (a : Action)
      → Keeps
          (Fine c)
          (lift (on_transit (recover_token_from_transit c.backup)) >>= λ b. on_backup c a b)
  unfolding Try.◌>>=◌ Try.lift Try.continue on_transit
  read-Fine a = record {
    at = λ w h.
        (backup-Fine a (recover_token_from_transit c.backup w.transit).0 (λ t e. (w.transit, e))).at
          _ h;
  }

  unsealed-Fine : (a : Action) → Keeps (Fine c) (recover_unsealed c a)
  unfolding recover_unsealed
  unsealed-Fine a = Keeps-if (uses_backup c) _ _ (read-Fine a) (manual-Fine a)

  status-Fine : (a : Action) (s : Option VaultStatus) → Keeps (Fine c) (on_admin_status c a s)
  unfolding on_admin_status
  status-Fine a none = Keeps-return tt
  status-Fine a (some s) =
      Keeps-if (not s.initialized || s.sealed) _ _ (Keeps-return tt) (unsealed-Fine a)

  admin-Fine : (a : Action) → Keeps (Fine c) (recover_admin_token c a)
  unfolding recover_admin_token
  admin-Fine a =
      Keeps-try _ _ (Keeps-lift _ (ask-Fine c Call.check_status _ (λ h. tt))) (status-Fine a)

  keys_status-Fine : (a : Action) (s : Option VaultStatus) → Keeps (Fine c) (on_keys_status c a s)
  unfolding on_keys_status
  keys_status-Fine a none = Keeps-return tt
  keys_status-Fine a (some s) =
      Keeps-if (not s.initialized) _ _ (Keeps-return tt) (create_recovery_placeholder-Fine c a _)

  keys-Fine : (a : Action) → Keeps (Fine c) (recover_recovery_keys c a)
  unfolding recover_recovery_keys
  keys-Fine a =
      Keeps-try _ _ (Keeps-lift _ (ask-Fine c Call.check_status _ (λ h. tt))) (keys_status-Fine a)

  missing-Fine : (a : Action) → Keeps (Fine c) (recover_missing_secret c a)
  unfolding recover_missing_secret
  missing-Fine a =
      let names = c.spec.initialization.secret_names in
      Keeps-if (a.secret_name == c.spec.transit_secret_name) _ _ (recover_transit_token-Fine c a) (
        Keeps-if (a.secret_name == names.admin_token) _ _
          (Keeps-if names.skip_admin_token_creation _ _ (Keeps-return tt) (admin-Fine a))
          (Keeps-if (a.secret_name == names.recovery_keys) _ _ (keys-Fine a)
            (Keeps-throw RecoveryError.unknown_secret)))

  thrown-Fine :
      (reason : String) (e : RecoveryError)
      → Keeps (Fine c) (lift (tell (Call.event warning reason)) >> throw {A = Unit {0}} e)
  thrown-Fine reason e =
      Keeps-try _ _ (Keeps-lift _ (tell-Fine c (Call.event warning reason) (λ h. tt)))
        λ _. Keeps-throw e

  failure-Fine :
      (reason : String) (r : Result RecoveryError (Unit {0}))
      → Keeps (Fine c) (report_failure reason r)
  unfolding report_failure
  failure-Fine reason (ok u) = Keeps-return tt
  failure-Fine reason (err panicked) = Keeps-throw panicked
  failure-Fine reason (err transit_token_missing) = thrown-Fine reason transit_token_missing
  failure-Fine reason (err unknown_secret) = thrown-Fine reason unknown_secret
  failure-Fine reason (err not_owned) = thrown-Fine reason not_owned
  failure-Fine reason (err (creating k)) = thrown-Fine reason (creating k)
  failure-Fine reason (err (updating k)) = thrown-Fine reason (updating k)
  failure-Fine reason (err (deleting k)) = thrown-Fine reason (deleting k)
  failure-Fine reason (err (getting k)) = thrown-Fine reason (getting k)

  action-Fine : (t : ActionType) (a : Action) → Keeps (Fine c) (recover_action c t a)
  unfolding recover_action
  action-Fine create a = Keeps-bind _ _ (missing-Fine a) (failure-Fine "SecretRecoveryFailed")
  action-Fine update a = update_incomplete_secret-Fine c a
  action-Fine restore a = Keeps-bind _ _ (missing-Fine a) (failure-Fine "SecretRestoreFailed")

  plan-Fine : (plan : List Action) → Keeps (Fine c) (recover_plan c plan)
  unfolding recover_plan
  plan-Fine [] = Keeps-return tt
  plan-Fine (a ∷ rest) = Keeps-try _ _ (action-Fine a.type a) (λ _. plan-Fine rest)

  -- If the calls made before were allowed, so are all that `RecoverSecrets` makes: it deletes a Secret
  -- only right after a read in which its token did not look valid, an update leaves the token that was
  -- read in the Secret, and a Secret that it creates holds no token, a placeholder, a token that was read
  -- from the backup or a scoped token that was made from one.
  pub recover_secrets-AreAllowed :
      (r : Report) (w : World) → AreAllowed c w.calls → AreAllowed c (recover_secrets c r w).1.calls
  unfolding recover_secrets
  recover_secrets-AreAllowed r w h =
      (Keeps-if (r.all_present) _ _ (Keeps-return tt) (
          Keeps-try _ _ (plan-Fine r.recovery_plan)
            λ _. Keeps-lift _ (tell-Fine c (Call.event normal "SecretsRecovered") (λ h. tt)))).at
        w h
