-- ===== src/StoredKey/Submit/Allowed.antt =====
-- Unsealing from the stored shares keeps to what is allowed.
use vault_transit_unseal_ope.Base.{List, Option, String, [], none, some, ◌∷◌}
use vault_transit_unseal_ope.Base.Exec.{Exec, Keeps, Keeps-bind}
use vault_transit_unseal_ope.Reconciler.Setup.{Setup}
use vault_transit_unseal_ope.Reconciler.Trace.{Traced, Keeps-ask, Allowed, MaySubmit, system_rules}
use vault_transit_unseal_ope.StoredKey.Submit.{
  rejected, submit, after_submit, Progress, UnsealError, unseal, untouched,
}
use vault_transit_unseal_ope.System.{Call, SealStatus, World, ask}

module _ (c : Setup) (may : MaySubmit c) where
  rejected-Allowed : (p : Progress) → Keeps (Traced (Allowed c)) (rejected c.env p)
  unfolding rejected
  rejected-Allowed p = search (system_rules, may)

  after_submit-Allowed :
      (next : Progress → Exec World (Progress × Option UnsealError))
      → ((q : Progress) → Keeps (Traced (Allowed c)) (next q))
      → (p : Progress) (answer : Option SealStatus)
      → Keeps (Traced (Allowed c)) (after_submit c.env next p answer)
  unfolding after_submit
  after_submit-Allowed next k p none = rejected-Allowed p
  after_submit-Allowed next k p (some s) = search (system_rules, k)

  submit-Allowed :
      (ks : List String) (p : Progress) → Keeps (Traced (Allowed c)) (submit c.env ks p)
  unfolding submit
  submit-Allowed [] p = search system_rules
  submit-Allowed (k ∷ ks) p =
      Keeps-bind (ask (Call.submit_share k) (λ h. c.env.submit_share h k))
        (after_submit c.env (submit c.env ks) p) (Keeps-ask (Call.submit_share k) _ may)
        (after_submit-Allowed (submit c.env ks) (submit-Allowed ks) p)

  pub unseal-Allowed : (ks : List String) → Keeps (Traced (Allowed c)) (unseal c.env ks)
  unfolding unseal
  unseal-Allowed [] = search system_rules
  unseal-Allowed (k ∷ ks) = submit-Allowed (k ∷ ks) untouched
