-- ===== src/Token/Initial/Create/Reported.antt =====
-- A token that was created is reported as active.
use vault_transit_unseal_ope.Base.{String, refl}
use vault_transit_unseal_ope.Base.Exec.{Keeps, Keeps-bind, Keeps-if, Keeps-pure}
use vault_transit_unseal_ope.Spec.{TokenState}
use vault_transit_unseal_ope.Token.Initial.Client.{try_backup_admin_token}
use vault_transit_unseal_ope.Token.Initial.Ends.{Ends, Ends-last, Ends-status, Ends-then, IsIn}
use vault_transit_unseal_ope.Token.World.{Setup, ask}
use vault_transit_unseal_ope.Token.Initial.Create.{create_initial_token, initial_status}

module _ (c : Setup) where
  pub backup-IsIn : (t : String) (s : TokenState) → Keeps (IsIn s) (try_backup_admin_token c t)
  unfolding try_backup_admin_token ask
  backup-IsIn t s =
      Keeps-if _ _ _ (Keeps-pure tt)
        (Keeps-bind _ _ (record { at = λ w h. h }) (λ r. Keeps-pure tt))

  pub create_initial_token-Ends : Ends (IsIn TokenState.active) (create_initial_token c)
  unfolding create_initial_token
  create_initial_token-Ends = Ends-last _ _ λ _. Ends-last _ _ λ ttl. Ends-last _ _ λ auth.
      Ends-last _ _ λ now. Ends-last _ _ λ _. Ends-last _ _ λ _.
        Ends-then _ _ (Ends-status TokenState.active (λ s. initial_status c auth now) (λ s. refl))
          (backup-IsIn auth.client_token TokenState.active)
