-- ===== src/Reconciler/Shamir/Reported.antt =====
-- What an unsealing attempt leaves on the status.
use vault_transit_unseal_ope.StoredKey.Keys.{parse_keys}
use vault_transit_unseal_ope.Reconciler.Shamir.{
  after_unseal, on_raw, on_keys, with_keys, validate_stored_key_secret, unseal_with_stored_key,
}
use vault_transit_unseal_ope.Base.{
  refl, [], inr, ◌∷◌, List, Option, String, false, inl, none, some, ◌≡◌, ◌⊎◌,
}
use vault_transit_unseal_ope.Base.Exec.{pure, ◌>>=◌}
use vault_transit_unseal_ope.Reconciler.Conditions.Laws.{Has, set_condition-Has}
use vault_transit_unseal_ope.Reconciler.Setup.{
  Message, ProcessError, Setup, condition, unseal_error, unseal_failed, unseal_key_unavailable,
}
use vault_transit_unseal_ope.Spec.{stored_key_secret_ref, Status}
use vault_transit_unseal_ope.StoredKey.Submit.{unseal, Progress, UnsealError}
use vault_transit_unseal_ope.System.{World, ask, set_status, tell}

-- The condition of that type has this status and reason.
abbrev pub Says : String → String → String → Status → Type 0
Says type value reason s =
    (m : String) × Has type (record { status = value; reason = reason; message = m }) s.conditions

abbrev pub Reported : Option ProcessError → Status → Type 0
Reported none s = (s.sealed ≡ false) × Says "Ready" "True" "VaultReady" s
Reported (some (unseal_failed e)) s = Says "Ready" "False" "UnsealFailed" s
Reported (some unseal_key_unavailable) s =
    Says "KeySecretPresent" "False" "SecretUnreadable" s
    ⊎ Says "KeySecretPresent" "False" "NoShares" s
Reported _ s = ⊥

module _ (c : Setup) where
  condition-Says :
      (type value reason : String) (m : Message) (w : World)
      → Says type value reason (condition c type value reason m w).1.status
  unfolding condition ◌>>=◌ ask set_status
  condition-Says type value reason m w =
      (c.codec.message m, set_condition-Has type _ _ w.status.conditions)

  condition-sealed :
      (type value reason : String) (m : Message) (w : World)
      → (condition c type value reason m w).1.status.sealed ≡ w.status.sealed
  unfolding condition ◌>>=◌ ask set_status
  condition-sealed type value reason m w = refl

  after_unseal-Reported :
      (r : Progress × Option UnsealError) (w : World)
      → Reported (after_unseal c r w).0 (after_unseal c r w).1.status
  unfolding after_unseal ◌>>=◌ ask set_status tell pure
  after_unseal-Reported (p, some e) w =
      condition-Says "Ready" "False" "UnsealFailed" (unseal_error e p) _
  after_unseal-Reported (p, none) w = (
    condition-sealed "Ready" "True" "VaultReady" _ _,
    condition-Says "Ready" "True" "VaultReady" _ _,
  )

  abbrev Missing : Option (List String) → Status → Type 0
  Missing none s =
      Says "KeySecretPresent" "False" "SecretUnreadable" s
      ⊎ Says "KeySecretPresent" "False" "NoShares" s
  Missing (some ks) s = Unit {0}

  on_keys-Missing :
      (ks : List String) (w : World) → Missing (on_keys c ks w).0 (on_keys c ks w).1.status
  unfolding on_keys ◌>>=◌ pure
  on_keys-Missing [] w = inr (condition-Says "KeySecretPresent" "False" "NoShares" _ w)
  on_keys-Missing (k ∷ ks) w = tt

  on_raw-Missing :
      (raw : Option String) (w : World) → Missing (on_raw c raw w).0 (on_raw c raw w).1.status
  unfolding on_raw on_keys ◌>>=◌ pure
  on_raw-Missing none w = inl (condition-Says "KeySecretPresent" "False" "SecretUnreadable" _ w)
  on_raw-Missing (some raw) w = on_keys-Missing (parse_keys raw) w

  with_keys-Reported :
      (ks : Option (List String)) (w : World)
      → Missing ks w.status
      → Reported (with_keys c ks w).0 (with_keys c ks w).1.status
  unfolding with_keys ◌>>=◌ pure tell
  with_keys-Reported none w h = h
  with_keys-Reported (some ks) w h =
      after_unseal-Reported (unseal c.env ks w).0 (unseal c.env ks w).1

  -- After an attempt to unseal from the stored shares the status tells how it went: on success it is
  -- not sealed and the condition Ready is True; where `Unseal` failed Ready is False for that
  -- reason; and where no share could be read KeySecretPresent is False and says why.
  pub unseal_with_stored_key-Reported :
      (w : World) → Reported (unseal_with_stored_key c w).0 (unseal_with_stored_key c w).1.status
  unfolding unseal_with_stored_key validate_stored_key_secret ◌>>=◌ ask
  unseal_with_stored_key-Reported w =
      with_keys-Reported _ _
        (on_raw-Missing (c.env.get_key w.calls (stored_key_secret_ref c.spec)) _)
