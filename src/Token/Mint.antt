-- ===== src/Token/Mint.antt =====
-- pkg/token/manager_simple.go: which tokens are placeholders, and minting an admin token.
pub mod Revoking
pub mod Tracked
use Prim.Native.String.{len}
use text.Mathlib.Text.{starts_with}
use vault_transit_unseal_ope.Base.{
  String, Bool, true, false, ◌||◌, Option, none, some, [], ◌∷◌, ltb, if◌then◌else◌, ◌==◌,
}
use vault_transit_unseal_ope.Base.Text.{contains}
use vault_transit_unseal_ope.Base.Dict
use vault_transit_unseal_ope.Base.Dict.{Dict}
use vault_transit_unseal_ope.Base.Exec.{Exec, pure, gets, ◌>>=◌, ◌>>◌}
use vault_transit_unseal_ope.Kube.{Secret}
use vault_transit_unseal_ope.Token.World.{
  Result, ok, err, VaultError, Value, TokenRequest, Auth, Call, Setup, World, ask, set_token,
}

abbrev pub has_key : Dict String → String → Bool
has_key d k = elim (Dict.get d k) [ none ↦ false | some v ↦ true ]

-- `len` counts bytes, as Go's does.
unfoldable pub is_placeholder_token : Secret → String → Bool
is_placeholder_token secret token =
    Dict.holds secret.annotations "vault.homelab.io/recovery-required"
    || Dict.holds secret.annotations "vault.homelab.io/incomplete"
    || contains token "PLACEHOLDER"
    || starts_with token "placeholder-"
    || starts_with token "temp-"
    || starts_with token "incomplete-"
    || starts_with token "RECOVERY-REQUIRED:"
    || token == ""
    || token == "null"
    || token == "undefined"
    || ltb (len token) 10

pub data MintError : Type 0 where
  create_failed validate_failed : VaultError → MintError
  empty_auth : MintError

-- A minted token, or the error with the accessor of a token that did not validate
pub data Minted : Type 0 where
  minted : String → String → Minted
  mint_failed : MintError → Option String → Minted

abbrev pub lookup_verdict : Auth → Result VaultError (Option (Dict Value)) → Minted
lookup_verdict auth (err e) = mint_failed (MintError.validate_failed e) (some auth.accessor)
lookup_verdict auth (ok info) = minted auth.client_token auth.accessor

module _ (c : Setup) where
  unfoldable pub call_lookup_self : Exec World (Result VaultError (Option (Dict Value)))
  call_lookup_self w =
      ask (Call.lookup_self w.client_token) (λ h. c.env.lookup_self h w.client_token) w

  abbrev pub mint_request : String → TokenRequest
  mint_request source = record {
    policies = c.tm.policy_name ∷ [];
    period = c.tm.ttl;
    ttl = "";
    purpose = "admin-token";
    no_parent = true;
    renewable = true;
    source = source;
  }

  unfoldable pub call_create : TokenRequest → Exec World (Result VaultError (Option Auth))
  call_create request w =
      ask (Call.create_token w.client_token request) (λ h. c.env.create_token h request) w

  -- The new token looks itself up; the client's token is put back on every path.
  unfoldable pub validate : Auth → Exec World Minted
  unfolding call_lookup_self
  validate auth = do
    original ← gets (λ (w : World). w.client_token)
    set_token auth.client_token
    info ← call_lookup_self
    set_token original
    pure (lookup_verdict auth info)

  unfoldable pub check_created : Result VaultError (Option Auth) → Exec World Minted
  unfolding validate
  check_created (err e) = pure (mint_failed (MintError.create_failed e) none)
  check_created (ok none) = pure (mint_failed MintError.empty_auth none)
  check_created (ok (some auth)) =
      if auth.client_token == "" || auth.accessor == ""
      then pure (mint_failed MintError.empty_auth none)
      else validate auth

  unfoldable pub mint_admin_token : String → Exec World Minted
  unfolding check_created call_create
  mint_admin_token source = do answer ← call_create (mint_request source); check_created answer
