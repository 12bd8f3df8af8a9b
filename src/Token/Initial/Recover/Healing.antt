-- ===== src/Token/Initial/Recover/Healing.antt =====
-- The recovery through Kubernetes auth installs and backs up only a fresh token.
use vault_transit_unseal_ope.Token.Initial.Create.Allowed.{backup-Keeps}
use vault_transit_unseal_ope.Base.Text.{trim_space}
use vault_transit_unseal_ope.Token.Mint.{
  Minted, call_create, check_created, lookup_verdict, mint_admin_token, mint_failed, mint_request,
  minted, validate, call_lookup_self,
}
use vault_transit_unseal_ope.Base.{
  none, ◌||◌, List, Option, inl, not, refl, some, ◌==◌, String, ◌≡◌,
}
use vault_transit_unseal_ope.Base.Dict.{Dict}
use vault_transit_unseal_ope.Base.Exec.{
  Triple, Triple-if, Exec, Keeps, Keeps-bind, Keeps-if, Keeps-pure,
}
use vault_transit_unseal_ope.Base.Gives.{
  Holds, Keeps-attempt_of, Any, Gives, Gives-bind, Gives-lift, weaken,
}
use vault_transit_unseal_ope.Token.Backoff.{get_admin_secret}
use vault_transit_unseal_ope.Token.Initial.Allowed.{
  Created, Gives-under, Keeps-set_status, ask-Gives, read-Gives, Fresh, IsFine,
}
use vault_transit_unseal_ope.Token.Trace.{Keeps-set_token}
use vault_transit_unseal_ope.Token.World.{
  Auth, TokenRequest, Value, VaultError, ask, set_token, Call, Setup,
}
use vault_transit_unseal_ope.Base.Exec
use vault_transit_unseal_ope.Base.Try.{Result, err, ok}
use vault_transit_unseal_ope.Token.Initial.Recover.{
  try_recover_via_k8s_auth, login, call_login, mint_healing, heal, recover_via_login, minted_token,
}
use vault_transit_unseal_ope.Token.Initial.Recover.Allowed.{ready-Gives, when-Gives, install-Gives}

module _ (c : Setup) where
  login-Gives : (jwt : String) → Gives (IsFine c) (login c jwt) Any
  unfolding login call_login ask
  login-Gives jwt = record { at = λ w h. ((tt, h), weaken _) }

  -- What a mint returns is fresh.
  abbrev IsFresh : Minted → Type 0
  IsFresh (minted t a) = Fresh c t
  IsFresh (mint_failed e a) = Unit {0}

  verdict-IsFresh :
      (auth : Auth) (h : List Call) (r : Result VaultError (Option (Dict Value)))
      → Created c auth
      → c.env.lookup_self h auth.client_token ≡ r
      → IsFresh (lookup_verdict auth r)
  verdict-IsFresh auth h (err e) made p = tt
  verdict-IsFresh auth h (ok i) made p = ((auth, made, refl), (h, i, p))

  validate-IsFresh :
      (auth : Auth)
      → Created c auth
      → Triple (IsFine c) (validate c auth) (λ m w. IsFresh m × IsFine c w)
  unfolding validate call_lookup_self ask set_token Exec.◌>>=◌
  validate-IsFresh auth made = record {
    at = λ w h. (verdict-IsFresh auth w.calls _ made refl, (tt, h));
  }

  check-IsFresh :
      (h : List Call) (q : TokenRequest) (r : Result VaultError (Option Auth))
      → c.env.create_token h q ≡ r
      → Triple (IsFine c) (check_created c r) (λ m w. IsFresh m × IsFine c w)
  unfolding check_created Exec.pure
  check-IsFresh h q (err e) p = record { at = λ w k. (tt, k) }
  check-IsFresh h q (ok none) p = record { at = λ w k. (tt, k) }
  check-IsFresh h q (ok (some auth)) p =
      Triple-if (auth.client_token == "" || auth.accessor == "") _ _
        (record { at = λ w k. (tt, k) }) (validate-IsFresh auth (h, q, p))

  mint-IsFresh :
      (source : String)
      → Triple (IsFine c) (mint_admin_token c source) (λ m w. IsFresh m × IsFine c w)
  unfolding mint_admin_token call_create ask Exec.◌>>=◌
  mint-IsFresh source = record {
    at = λ w h. (check-IsFresh w.calls (mint_request c source) _ refl).at _ (tt, h);
  }

  minted-Holds : (m : Minted) → IsFresh m → Holds (Fresh c) (minted_token c m)
  minted-Holds (minted t a) f = f
  minted-Holds (mint_failed e a) f = tt

  healing-Gives : Gives (IsFine c) (mint_healing c) (Fresh c)
  unfolding mint_healing
  healing-Gives = record {
    at = λ w h.
        let after = (mint-IsFresh "k8s-auth-selfheal").at w h in
        (after.1, minted-Holds (mint_admin_token c "k8s-auth-selfheal" w).0 after.0);
  }

  heal-Gives : (jwt : String) → Gives (IsFine c) (heal c jwt) Any
  unfolding heal get_admin_secret
  heal-Gives jwt = Gives-bind _ _ (Gives-lift _ (Keeps-set_token "")) λ _ _.
      Gives-bind _ _ (login-Gives jwt) λ session _.
        Gives-bind _ _ (Gives-lift _ (Keeps-set_token session)) λ _ _.
          Gives-bind _ _ healing-Gives λ token f.
            Gives-bind _ _ (read-Gives c (λ e. tt) _ c.env.get_secret tt) λ s _.
              Gives-bind _ _ (install-Gives c s token "k8s-auth-selfheal" (λ now. inl f)) λ now _.
                Gives-bind _ _ (Gives-lift _ (backup-Keeps c token f.0))
                  λ _ _. Gives-lift _ (Keeps-set_status _)

  recover_via_login-Gives : Gives (IsFine c) (recover_via_login c) Any
  unfolding recover_via_login
  recover_via_login-Gives = Gives-bind _ _ (ask-Gives c tt Call.read_jwt c.env.read_jwt tt) λ jwt _.
      Gives-bind _ _ (when-Gives c (not (trim_space jwt == ""))) λ _ _.
        Gives-bind _ _ (ready-Gives c) λ own _. Gives-under own _ (heal-Gives (trim_space jwt))

  pub try_recover_via_k8s_auth-Keeps : Keeps (IsFine c) (try_recover_via_k8s_auth c)
  unfolding try_recover_via_k8s_auth
  try_recover_via_k8s_auth-Keeps = Keeps-attempt_of _ Any recover_via_login-Gives
