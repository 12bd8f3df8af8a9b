-- ===== src/Token/Renew/Due.antt =====
-- When the admin token is renewed, and under which client token.
use vault_transit_unseal_ope.Base.{
  All, Bool, Option, arith, false, if_cases, inl, inr, none, not, refl, some, true, ◌==◌, ◌≡◌, ◌⊎◌,
}
use vault_transit_unseal_ope.Base.Dict.{Dict}
use vault_transit_unseal_ope.Base.Exec.{Exec, gets, pure, ◌>>=◌}
use vault_transit_unseal_ope.Base.Text.{trim_space}
use vault_transit_unseal_ope.Kube.{
  KubeError, Secret, gtb, is_not_found, quotient, seconds, text_at, ℤ,
}
use vault_transit_unseal_ope.Token.Backoff.{get_admin_secret}
use vault_transit_unseal_ope.Token.Mint.{is_placeholder_token}
use vault_transit_unseal_ope.Token.Renew.{
  with_token, on_secret, renew_managed, on_configured, on_ttl, RenewError, flag_of, on_lookup,
  renew, threshold_fraction,
}
use vault_transit_unseal_ope.Token.Rotate.{number_seconds, value_at}
use vault_transit_unseal_ope.Token.World.{
  Call, Codec, Env, Metric, Result, Setup, TokenManagement, Value, VaultError, Vtu, World, ask, err,
  ok, renew_self, set_token, tell,
}

-- The call asks Vault for no renewal.
abbrev pub IsNoRenewal : Call → Type 0
IsNoRenewal (renew_self t n) = ⊥
IsNoRenewal _ = Unit {0}

-- What the lookup and the specification must say for a renewal
pub record IsRenewable (c : Setup) (answer : Result VaultError (Option (Dict Value))) : Type 0 where
  pub info : Dict Value
  pub ttl : ℤ
  pub configured : ℤ
  pub is_answered : answer ≡ ok (some info)
  pub has_ttl : number_seconds (value_at info "ttl") ≡ some ttl
  pub is_flagged : flag_of (value_at info "renewable") ≡ true
  pub has_configured : c.codec.parse_duration c.tm.ttl ≡ some configured
  pub is_low : gtb (seconds ttl) (quotient configured threshold_fraction) ≡ false

module _ (c : Setup) (secret : Secret) where
  on_configured-due :
      (info : Dict Value) (ttl : ℤ) (configured : Option ℤ) (w : World)
      → number_seconds (value_at info "ttl") ≡ some ttl
      → flag_of (value_at info "renewable") ≡ true
      → c.codec.parse_duration c.tm.ttl ≡ configured
      → All IsNoRenewal w.calls
      → IsRenewable c (ok (some info))
        ⊎ All IsNoRenewal (on_configured c secret ttl configured w).1.calls
  unfolding on_configured pure
  on_configured-due info ttl none w t f e h = inr h
  on_configured-due info ttl (some configured) w t f e h =
      if_cases (λ m. IsRenewable c (ok (some info)) ⊎ All IsNoRenewal (m w).1.calls)
        (gtb (seconds ttl) (quotient configured threshold_fraction)) (pure none) _ (λ _. inr h)
        λ low. inl (record {
          info = info;
          ttl = ttl;
          configured = configured;
          is_answered = refl;
          has_ttl = t;
          is_flagged = f;
          has_configured = e;
          is_low = low;
        })

  on_ttl-due :
      (info : Dict Value) (ttl : Option ℤ) (w : World)
      → number_seconds (value_at info "ttl") ≡ ttl
      → All IsNoRenewal w.calls
      → IsRenewable c (ok (some info))
        ⊎ All IsNoRenewal (on_ttl c secret (value_at info "renewable") ttl w).1.calls
  unfolding on_ttl pure ◌>>=◌ tell
  on_ttl-due info none w t h = inr h
  on_ttl-due info (some ttl) w t h =
      let w' : World = (tell (Call.metric (Metric.admin_token_ttl ttl)) w).1 in
      if_cases (λ m. IsRenewable c (ok (some info)) ⊎ All IsNoRenewal (m w').1.calls)
        (not (flag_of (value_at info "renewable"))) (pure none) _ (λ _. inr (tt, h))
        λ f.
          on_configured-due info ttl (c.codec.parse_duration c.tm.ttl) w' t (ground arith) refl
            (tt, h)

  -- A renewal is requested only when the lookup answered that the token is renewable and has at
  -- most a third of the configured TTL left; on every other answer no renewal is requested.
  pub on_lookup-due :
      (answer : Result VaultError (Option (Dict Value))) (w : World)
      → All IsNoRenewal w.calls
      → IsRenewable c answer ⊎ All IsNoRenewal (on_lookup c secret answer w).1.calls
  unfolding on_lookup pure
  on_lookup-due (err e) w h = inr h
  on_lookup-due (ok none) w h = inr h
  on_lookup-due (ok (some info)) w h =
      on_ttl-due info (number_seconds (value_at info "ttl")) w refl h

on_secret-restores :
    (c : Setup) (answer : Result KubeError Secret) (w : World)
    → (on_secret c answer w).1.client_token ≡ w.client_token
unfolding on_secret pure with_token ◌>>=◌ gets set_token
on_secret-restores c (err e) w =
    if_cases (λ m. (m w).1.client_token ≡ w.client_token) (is_not_found e) (pure none) _ (λ _. refl)
      (λ _. refl)
on_secret-restores c (ok s) w =
    let held = text_at s.data_of "token" in
    let Q : Exec World (Option RenewError) → Type 0 = λ m. (m w).1.client_token ≡ w.client_token in
    if_cases Q (held == "") (pure none) _ (λ _. refl)
      λ _.
        if_cases Q (is_placeholder_token s (trim_space held)) (pure none) _ (λ _. refl) (λ _. refl)

-- Whatever the API server and Vault answer, the Vault client has the same token after
-- `RenewIfNeeded` as before.
pub renew-restores_token :
    (env : Env) (codec : Codec) (vtu : Vtu) (b : Bool) (tm : Option TokenManagement) (w : World)
    → (renew env codec vtu b tm w).1.client_token ≡ w.client_token
unfolding renew renew_managed pure ◌>>=◌ get_admin_secret ask
renew-restores_token env codec vtu b none w = refl
renew-restores_token env codec vtu b (some tm) w =
    let c : Setup = record { env = env; codec = codec; vtu = vtu; tm = tm; has_backup = b } in
    if_cases (λ m. (m w).1.client_token ≡ w.client_token) (not tm.auto_renew) (pure none) _
      (λ _. refl) λ _. on_secret-restores c (get_admin_secret c w).0 (get_admin_secret c w).1
