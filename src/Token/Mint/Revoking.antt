-- ===== src/Token/Mint/Revoking.antt =====
-- Minting revokes nothing, and returns only accessors that Vault has just given out.
use vault_transit_unseal_ope.Base.{String, ◌==◌, ◌||◌, List, Option, none, some, ◌≡◌, refl}
use vault_transit_unseal_ope.Base.Dict.{Dict}
use vault_transit_unseal_ope.Base.Exec.{Triple, Triple-if, pure, ◌>>=◌}
use vault_transit_unseal_ope.Token.World.{
  Result, ok, err, VaultError, Value, TokenRequest, Auth, Call, Setup, World, ask, set_token,
}
use vault_transit_unseal_ope.Token.Mint.{
  MintError, Minted, minted, mint_failed, lookup_verdict, call_lookup_self, call_create,
  mint_request, validate, check_created, mint_admin_token,
}
use vault_transit_unseal_ope.Token.Trace.{Revokes, Traced}

-- The accessor that a mint returns, if any, satisfies `R`.
abbrev pub MintedIn : (String → Type 0) → Minted → Type 0
MintedIn R (minted t a) = R a
MintedIn R (mint_failed e none) = Unit {0}
MintedIn R (mint_failed e (some a)) = R a

-- What Vault gives out as the accessor of a new token satisfies `R`.
abbrev pub Creates : (String → Type 0) → Setup → Type 0
Creates R c =
    (h : List Call) (q : TokenRequest) (auth : Auth)
    → c.env.create_token h q ≡ ok (some auth)
    → R auth.accessor

module _ (R : String → Type 0) (c : Setup) where
  lookup_verdict-MintedIn :
      (auth : Auth) (info : Result VaultError (Option (Dict Value)))
      → R auth.accessor
      → MintedIn R (lookup_verdict auth info)
  lookup_verdict-MintedIn auth (ok i) r = r
  lookup_verdict-MintedIn auth (err e) r = r

  abbrev After : Minted → World → Type 0
  After m w = MintedIn R m × Traced (Revokes R) w

  validate-Revokes :
      (auth : Auth) → R auth.accessor → Triple (Traced (Revokes R)) (validate c auth) After
  unfolding validate call_lookup_self ask set_token ◌>>=◌
  validate-Revokes auth r = record { at = λ w h. (lookup_verdict-MintedIn auth _ r, (tt, h)) }

  check_created-Revokes :
      (r : Result VaultError (Option Auth))
      → ((auth : Auth) → r ≡ ok (some auth) → R auth.accessor)
      → Triple (Traced (Revokes R)) (check_created c r) After
  unfolding check_created pure
  check_created-Revokes (err e) f = record { at = λ w h. (tt, h) }
  check_created-Revokes (ok none) f = record { at = λ w h. (tt, h) }
  check_created-Revokes (ok (some auth)) f =
      Triple-if (auth.client_token == "" || auth.accessor == "")
        (pure (mint_failed MintError.empty_auth none)) (validate c auth)
        (record { at = λ w h. (tt, h) }) (validate-Revokes auth (f auth refl))

  pub mint_admin_token-Revokes :
      Creates R c
      → (source : String) → Triple (Traced (Revokes R)) (mint_admin_token c source) After
  unfolding mint_admin_token call_create ask ◌>>=◌
  mint_admin_token-Revokes new source = record {
    at = λ w h.
        (check_created-Revokes (c.env.create_token w.calls (mint_request c source))
            (λ auth e. new w.calls (mint_request c source) auth e)).at
          _ (tt, h);
  }
