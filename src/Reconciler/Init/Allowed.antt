-- ===== src/Reconciler/Init/Allowed.antt =====
-- Initialization keeps to what is allowed.
use vault_transit_unseal_ope.Base.{Bool, Option, false, none, some, suc, true, zero, ℕ}
use vault_transit_unseal_ope.Base.Exec.{Keeps, Keeps-bind, Keeps-if, Keeps-pure, pure}
use vault_transit_unseal_ope.Kube.{KubeError}
use vault_transit_unseal_ope.Reconciler.Init.{
  backup_root_token, on_response, report_backup, after_token, store_keys, initialize_once,
  after_keys, store_call, report_initialized, initialize_steps, initialize_vault, is_retried,
  store_secrets,
}
use vault_transit_unseal_ope.Reconciler.Setup.{InitError, Setup}
use vault_transit_unseal_ope.Reconciler.Trace.{
  Allowed, AreAllowed, Keeps-ask, MayInitialize, Traced, system_rules,
}
use vault_transit_unseal_ope.System.{InitResponse}

module _ (c : Setup) (parts : AreAllowed c) where
  after_keys-Allowed :
      (r : InitResponse) (e : Option KubeError) → Keeps (Traced (Allowed c)) (after_keys c r e)
  unfolding after_keys
  after_keys-Allowed r none = search (system_rules)
  after_keys-Allowed r (some e) = search (system_rules)

  store_keys-Allowed : (r : InitResponse) → Keeps (Traced (Allowed c)) (store_keys c r)
  unfolding store_keys store_call
  store_keys-Allowed r = search (system_rules, after_keys-Allowed, tt)

  report_backup-Allowed : (b : Bool) → Keeps (Traced (Allowed c)) (report_backup c b)
  unfolding report_backup
  report_backup-Allowed true = search (system_rules, tt)
  report_backup-Allowed false = search (system_rules, tt)

  backup_root_token-Allowed :
      (r : InitResponse) → Keeps (Traced (Allowed c)) (backup_root_token c r)
  unfolding backup_root_token
  backup_root_token-Allowed r =
      Keeps-if _ _ _
        (Keeps-bind (c.parts.backup_token r.root_token) (report_backup c)
          (parts.backup_token r.root_token) report_backup-Allowed)
        (Keeps-pure tt)

  after_token-Allowed :
      (r : InitResponse) (e : Option KubeError) → Keeps (Traced (Allowed c)) (after_token c r e)
  unfolding after_token
  after_token-Allowed r none = search (system_rules, backup_root_token-Allowed, store_keys-Allowed)
  after_token-Allowed r (some e) = search system_rules

  store_secrets-Allowed : (r : InitResponse) → Keeps (Traced (Allowed c)) (store_secrets c r)
  unfolding store_secrets store_call
  store_secrets-Allowed r = search (system_rules, after_token-Allowed, tt)

  report_initialized-Allowed :
      (e : Option InitError) → Keeps (Traced (Allowed c)) (report_initialized c e)
  unfolding report_initialized
  report_initialized-Allowed none = search (system_rules, tt)
  report_initialized-Allowed (some e) = search system_rules

  on_response-Allowed : (r : Option InitResponse) → Keeps (Traced (Allowed c)) (on_response c r)
  unfolding on_response
  on_response-Allowed none = search system_rules
  on_response-Allowed (some r) =
      search (system_rules, store_secrets-Allowed, report_initialized-Allowed)

module _ (c : Setup) (parts : AreAllowed c) (may : MayInitialize c) where
  initialize_once-Allowed : Keeps (Traced (Allowed c)) (initialize_once c)
  unfolding initialize_once
  initialize_once-Allowed =
      Keeps-bind _ (on_response c) (Keeps-ask _ _ may) (on_response-Allowed c parts)

  steps-Allowed :
      (n : ℕ) (last : Option InitError) → Keeps (Traced (Allowed c)) (initialize_steps c n last)
  unfolding initialize_steps
  steps-Allowed zero last = Keeps-pure last
  steps-Allowed (suc n) last = Keeps-bind (initialize_once c) _ initialize_once-Allowed λ r.
      Keeps-if (is_retried r) (initialize_steps c n r) (pure r) (steps-Allowed n r) (Keeps-pure r)

  pub initialize_vault-Allowed : Keeps (Traced (Allowed c)) (initialize_vault c)
  unfolding initialize_vault
  initialize_vault-Allowed = steps-Allowed c.retry_steps none
