-- ===== src/Token/Initial/Recover/Reported.antt =====
-- A recovery that succeeds reports the token as active.
use vault_transit_unseal_ope.Base.{String, refl}
use vault_transit_unseal_ope.Base.Text.{trim_space}
use vault_transit_unseal_ope.Spec.{TokenState}
use vault_transit_unseal_ope.Token.Initial.Ends.{
  Ends, Ends-last, Ends-status, Ends-under, Heals, Heals-attempt, IsIn,
}
use vault_transit_unseal_ope.Token.World.{Setup, set_status}
use vault_transit_unseal_ope.Base.Try.{lift}
use vault_transit_unseal_ope.Token.Initial.Recover.{
  activate, try_recover_from_transit_backup, try_recover_via_k8s_auth, recover_from_backup, heal,
  recover_via_login,
}

module _ (c : Setup) where
  activated :
      {E : Type 0} (now : String)
      → Ends (IsIn TokenState.active) (lift {E = E} (set_status (activate now)))
  activated now = Ends-status TokenState.active (activate now) (λ s. refl)

  pub try_recover_from_transit_backup-Heals :
      Heals (IsIn TokenState.active) (try_recover_from_transit_backup c)
  unfolding try_recover_from_transit_backup recover_from_backup
  try_recover_from_transit_backup-Heals = Heals-attempt _ (
      Ends-last _ _ λ _. Ends-last _ _ λ b. Ends-last _ _ λ _.
        Ends-last _ _ λ own.
          Ends-last _ _ λ info. Ends-last _ _ λ s. Ends-last _ _ λ _. Ends-last _ _ activated)

  heal-Ends : (jwt : String) → Ends (IsIn TokenState.active) (heal c jwt)
  unfolding heal
  heal-Ends jwt = Ends-last _ _ λ _. Ends-last _ _ λ session. Ends-last _ _ λ _.
      Ends-last _ _
        λ token. Ends-last _ _ λ s. Ends-last _ _ λ now. Ends-last _ _ λ _. activated now

  pub try_recover_via_k8s_auth-Heals : Heals (IsIn TokenState.active) (try_recover_via_k8s_auth c)
  unfolding try_recover_via_k8s_auth recover_via_login
  try_recover_via_k8s_auth-Heals = Heals-attempt _ (
      Ends-last _ _ λ jwt.
        Ends-last _ _ λ _. Ends-last _ _ λ own. Ends-under own _ (heal-Ends (trim_space jwt)))
