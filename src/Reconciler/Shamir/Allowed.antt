-- ===== src/Reconciler/Shamir/Allowed.antt =====
-- Unsealing from the stored shares keeps to what is allowed.
use vault_transit_unseal_ope.Base.{List, Option, String, [], none, some, ◌∷◌}
use vault_transit_unseal_ope.Base.Exec.{Keeps, Keeps-bind}
use vault_transit_unseal_ope.Reconciler.Setup.{Setup}
use vault_transit_unseal_ope.Reconciler.Shamir.{
  on_raw, with_keys, on_keys, after_unseal, handle_uninitialized, unseal_with_stored_key,
  validate_stored_key_secret,
}
use vault_transit_unseal_ope.Reconciler.Trace.{Allowed, MaySubmit, Traced, system_rules}
use vault_transit_unseal_ope.StoredKey.Keys.{parse_keys}
use vault_transit_unseal_ope.StoredKey.Submit.{Progress, UnsealError, unseal}
use vault_transit_unseal_ope.StoredKey.Submit.Allowed.{unseal-Allowed}

module _ (c : Setup) where
  on_keys-Allowed : (ks : List String) → Keeps (Traced (Allowed c)) (on_keys c ks)
  unfolding on_keys
  on_keys-Allowed [] = search (system_rules)
  on_keys-Allowed (k ∷ ks) = search (system_rules)

  on_raw-Allowed : (raw : Option String) → Keeps (Traced (Allowed c)) (on_raw c raw)
  unfolding on_raw
  on_raw-Allowed none = search (system_rules)
  on_raw-Allowed (some raw) = on_keys-Allowed (parse_keys raw)

  pub validate-Allowed : Keeps (Traced (Allowed c)) (validate_stored_key_secret c)
  unfolding validate_stored_key_secret
  validate-Allowed = search (system_rules, on_raw-Allowed, tt)

  pub handle_uninitialized-Allowed : Keeps (Traced (Allowed c)) (handle_uninitialized c)
  unfolding handle_uninitialized
  handle_uninitialized-Allowed = search (system_rules)

  after_unseal-Allowed :
      (r : Progress × Option UnsealError) → Keeps (Traced (Allowed c)) (after_unseal c r)
  unfolding after_unseal
  after_unseal-Allowed (p, none) = search (system_rules, tt) depth 9
  after_unseal-Allowed (p, some e) = search (system_rules, tt) depth 9

module _ (c : Setup) (may : MaySubmit c) where
  with_keys-Allowed : (keys : Option (List String)) → Keeps (Traced (Allowed c)) (with_keys c keys)
  unfolding with_keys
  with_keys-Allowed none = search (system_rules, tt)
  with_keys-Allowed (some keys) =
      Keeps-bind (unseal c.env keys) (after_unseal c) (unseal-Allowed c may keys)
        (after_unseal-Allowed c)

  pub unseal_with_stored_key-Allowed : Keeps (Traced (Allowed c)) (unseal_with_stored_key c)
  unfolding unseal_with_stored_key
  unseal_with_stored_key-Allowed =
      Keeps-bind (validate_stored_key_secret c) (with_keys c) (validate-Allowed c) with_keys-Allowed
