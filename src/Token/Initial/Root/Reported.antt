-- ===== src/Token/Initial/Root/Reported.antt =====
-- A token that was replaced is reported as active.
use vault_transit_unseal_ope.Base.{Bool, List, String, [], false, refl, true, ◌∙◌, ◌∷◌, ◌≡◌}
use vault_transit_unseal_ope.Base.Exec.{Exec, Keeps, Keeps-pure}
use vault_transit_unseal_ope.Spec.{TokenState}
use vault_transit_unseal_ope.Token.Initial.Allowed.{Keeps-from}
use vault_transit_unseal_ope.Token.Initial.Client.{
  Fallible, InitialError, get_vault_pods, keeping_token, new_client, under,
}
use vault_transit_unseal_ope.Token.Initial.Ends.{
  Ends, Ends-last, Ends-status, Ends-then, Healed, Heals, IsIn, Post,
}
use vault_transit_unseal_ope.Token.Initial.Recover.{activate}
use vault_transit_unseal_ope.Token.Initial.Recover.Reported.{
  try_recover_from_transit_backup-Heals, try_recover_via_k8s_auth-Heals,
}
use vault_transit_unseal_ope.Token.Initial.Scoped.{first_of, first_pod}
use vault_transit_unseal_ope.Token.Mint.{call_lookup_self}
use vault_transit_unseal_ope.Token.World.{Call, Pod, Setup, TokenStatus, World, ask, set_token}
use vault_transit_unseal_ope.Base.Exec
use vault_transit_unseal_ope.Base.Try.{
  Keeps-or_missing, Keeps-return, Keeps-throw, Keeps-try, Result, err, lift, ok, ◌>>=◌, continue,
}
use vault_transit_unseal_ope.Token.Initial.Root.{
  replace_invalid_token, replace_root_token, report_active, report_accessor, from_recovery_keys,
  unless, lookup_token_accessor, note_accessor,
}

ask-IsIn :
    {A : Type 0} {t : TokenState} (k : Call) (answer : List Call → A)
    → Keeps (IsIn t) (ask k answer)
unfolding ask
ask-IsIn k answer = record { at = λ w h. h }

first_of-IsIn : {t : TokenState} (pods : List Pod) → Keeps (IsIn t) (first_of pods)
unfolding first_of
first_of-IsIn [] = Keeps-throw InitialError.no_pods
first_of-IsIn (p ∷ ps) = Keeps-return p

module _ (c : Setup) where
  looked-IsIn :
      {t : TokenState} (own token : String)
      → Keeps (IsIn t) (under own (under token (call_lookup_self c)))
  unfolding under keeping_token set_token call_lookup_self ask Exec.◌>>=◌
  looked-IsIn own token = record { at = λ w h. h }

  report-Ends : Ends (IsIn TokenState.active) (report_active c)
  unfolding report_active
  report-Ends = Ends-last _ _ (λ now. Ends-status TokenState.active (activate now) (λ s. refl))

  lookup-IsIn : (token : String) (t : TokenState) → Keeps (IsIn t) (lookup_token_accessor c token)
  unfolding lookup_token_accessor first_pod get_vault_pods new_client
  lookup-IsIn token t =
      Keeps-try _ _
        (Keeps-try _ _ (Keeps-or_missing _ _ (ask-IsIn _ c.env.list_pods)) first_of-IsIn)
        λ pod. Keeps-try _ _ (Keeps-or_missing _ _ (ask-IsIn _ _)) λ own.
          Keeps-try _ _ (Keeps-from _ _ (looked-IsIn own token))
            (λ i. Keeps-from _ _ (Keeps-pure _))

  unless-Post :
      (done : Bool) (n : Fallible (Unit {0})) (w : World)
      → Healed (IsIn TokenState.active) done w
      → Ends (IsIn TokenState.active) n
      → Post (IsIn TokenState.active) (unless c done n w)
  unfolding unless
  unless-Post true n w h e = h
  unless-Post false n w h e = e.at w

  noted : (r : Result InitialError String) (s : TokenStatus) → (note_accessor c r s).state ≡ s.state
  unfolding note_accessor
  noted (ok a) s = refl
  noted (err e) s = refl

  accessor-IsIn : (token : String) (t : TokenState) → Keeps (IsIn t) (report_accessor c token)
  unfolding report_accessor
  accessor-IsIn token t = record {
    at = λ w h.
        let after = lookup_token_accessor c token w in
        noted after.0 after.1.status ∙ (lookup-IsIn token t).at w h;
  }

  from_keys-Ends : Ends (IsIn TokenState.active) (from_recovery_keys c)
  unfolding from_recovery_keys
  from_keys-Ends = Ends-last _ _ λ _. Ends-last _ _ λ keys. Ends-last _ _ λ root.
      Ends-last _ _ λ token.
        Ends-last _ _
          λ s. Ends-last _ _ λ _. Ends-then _ _ report-Ends (accessor-IsIn token TokenState.active)

  unless-Ends :
      (m : Exec World Bool) (n : Fallible (Unit {0}))
      → Heals (IsIn TokenState.active) m
      → Ends (IsIn TokenState.active) n
      → Ends (IsIn TokenState.active) (lift m >>= λ done. unless c done n)
  unfolding ◌>>=◌ lift continue
  unless-Ends m n h e = record { at = λ w. unless-Post (m w).0 n (m w).1 (h.at w) e }

  pub replace_invalid_token-Ends : Ends (IsIn TokenState.active) (replace_invalid_token c)
  unfolding replace_invalid_token
  replace_invalid_token-Ends =
      unless-Ends _ _ (try_recover_from_transit_backup-Heals c)
        (unless-Ends _ _ (try_recover_via_k8s_auth-Heals c) from_keys-Ends)

  pub replace_root_token-Ends : Ends (IsIn TokenState.active) (replace_root_token c)
  unfolding replace_root_token
  replace_root_token-Ends = Ends-last _ _ λ s. Ends-last _ _ λ _.
      Ends-last _ _ λ token. Ends-last _ _ λ _. Ends-last _ _ λ _. Ends-last _ _ λ _. report-Ends
