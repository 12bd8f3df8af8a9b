-- ===== src/Token/Initial/Scoped.antt =====
-- manager_simple.go: `CreateScopedTokenFromRoot`, `createInitialToken` and what they share.
pub mod Allowed
pub mod Lost
use vault_transit_unseal_ope.Spec.{given}
use vault_transit_unseal_ope.Base.{
  Bool, List, Option, String, [], false, if◌then◌else◌, none, not, some, true, ◌*◌, ◌==◌, ◌∷◌,
}
use vault_transit_unseal_ope.Base.Dict.{Dict}
use vault_transit_unseal_ope.Base.Exec.{Exec}
use vault_transit_unseal_ope.Base.Try.{
  ◌>>=◌, ◌>>◌, Result, err, lift, ok, or_error, or_missing, return, throw,
}
use vault_transit_unseal_ope.Kube.{pos, second, ℤ}
use vault_transit_unseal_ope.Token.Initial.Client.{
  Fallible, InitialError, ensure_policy, get_vault_pods, new_client, policy_name, revoke_self,
  under,
}
use vault_transit_unseal_ope.Token.Mint.{call_create, call_lookup_self}
use vault_transit_unseal_ope.Token.World.{Auth, Pod, Setup, TokenRequest, Value, VaultError, World}

-- A new token, whose secret half is the result
abbrev pub created : Result VaultError (Option Auth) → Result InitialError Auth
created (err e) = err (InitialError.token_refused e)
created (ok none) = err InitialError.nil_response
created (ok (some auth)) = ok auth

abbrev pub validated : Result VaultError (Option (Dict Value)) → Result InitialError (Dict Value)
validated (err e) = err (InitialError.validation_failed e)
validated (ok none) = err InitialError.empty_validation
validated (ok (some info)) = ok info

-- The TTL that the spec gives, or a day
abbrev pub ttl_or_day : String → Option ℤ → ℤ
ttl_or_day given none = pos (86400 * second)
ttl_or_day given (some d) = if not (given == "") then d else pos (86400 * second)

unfoldable pub from : {A E : Type 0} → (A → Result InitialError E) → Exec World A → Fallible E
from f m w = (f (m w).0, (m w).1)

unfoldable pub first_of : List Pod → Fallible Pod
first_of [] = throw InitialError.no_pods
first_of (p ∷ ps) = return p

module _ (c : Setup) where
  -- The first pod, which both clients are for
  unfoldable pub first_pod : Fallible Pod
  unfolding first_of
  first_pod = do pods ← or_missing InitialError.list_failed (get_vault_pods c); first_of pods

  abbrev pub scoped_request : TokenRequest
  scoped_request = record {
    policies = policy_name c ∷ [];
    period = c.codec.format_duration (ttl_or_day c.tm.ttl (c.codec.parse_duration c.tm.ttl));
    ttl = "";
    purpose = "admin-token-recovery";
    no_parent = true;
    renewable = true;
    source = "root-token-recovery";
  }

  -- A client of its own looks the new token up.
  validate_scoped : Pod → String → Fallible (Dict Value)
  validate_scoped pod token = do
    own ← or_missing InitialError.client_failed (new_client c pod)
    from validated (under own (under token (call_lookup_self c)))

  revoke_root : Bool → Exec World (Unit {0})
  revoke_root false w = (tt, w)
  revoke_root true w = (tt, (revoke_self c w).1)

  -- What is done under the root token
  with_root : Pod → Bool → Fallible String
  unfolding validate_scoped revoke_root
  with_root pod revoke_after_use = do
    or_error InitialError.policy_failed (ensure_policy c)
    auth ← from created (call_create c scoped_request)
    validate_scoped pod auth.client_token
    lift (revoke_root revoke_after_use)
    return auth.client_token

  -- `CreateScopedTokenFromRoot`; token management that is not in the spec counts as not enabled.
  unfoldable pub create_scoped_token : String → Bool → Fallible String
  unfolding with_root
  create_scoped_token root_token revoke_after_use =
      if not c.tm.enabled then return root_token else (do
        pod ← first_pod
        own ← or_missing InitialError.client_failed (new_client c pod)
        under own (under root_token (with_root pod revoke_after_use)))
