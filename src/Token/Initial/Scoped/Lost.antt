-- ===== src/Token/Initial/Scoped/Lost.antt =====
-- A run of `CreateScopedTokenFromRoot` on which all goes well.
use vault_transit_unseal_ope.Base.{List, String, [], none, some, true, ◌∷◌, ◌≡◌}
use vault_transit_unseal_ope.Base.Dict.{Dict}
use vault_transit_unseal_ope.Base.Exec.{Exec}
use vault_transit_unseal_ope.Token.Initial.Client.{
  ensure_policy, get_vault_pods, keeping_token, new_client, policy_name, revoke_self, under,
}
use vault_transit_unseal_ope.Token.Mint.{call_create, call_lookup_self}
use vault_transit_unseal_ope.Token.World.{
  Auth, Call, Pod, Setup, TokenRequest, Value, World, ask, set_token,
}
use vault_transit_unseal_ope.Base.Exec
use vault_transit_unseal_ope.Base.Try.{lift, ok, or_error, or_missing, return, ◌>>=◌, continue}
use vault_transit_unseal_ope.Token.Initial.Scoped.{
  create_scoped_token, first_pod, from, validate_scoped, with_root, revoke_root, first_of,
  scoped_request,
}

-- Vault and the API server answer each step of the exchange.
pub record Answers (c : Setup) (p : Pod) (own : String) (auth : Auth) (info : Dict Value)
    : Type 0 where
  pub is_enabled : c.tm.enabled ≡ true
  pub lists : (h : List Call) → c.env.list_pods h ≡ some (p ∷ [])
  pub connects : (h : List Call) (n : String) → c.env.new_client h n ≡ some own
  pub puts : (h : List Call) (n : String) → c.env.put_policy h n ≡ none
  pub creates : (h : List Call) (q : TokenRequest) → c.env.create_token h q ≡ ok (some auth)
  pub accepts : (h : List Call) → c.env.lookup_self h auth.client_token ≡ ok (some info)
  pub revokes : (h : List Call) (t : String) → c.env.revoke_self h t ≡ none

module _ (c : Setup) (p : Pod) (own : String) (auth : Auth) (info : Dict Value) where
  abbrev pub exchange : String → List Call → List Call
  exchange root h =
      Call.revoke_self root
      ∷ Call.lookup_self auth.client_token
      ∷ Call.new_client p.name
      ∷ Call.create_token root (scoped_request c)
      ∷ Call.put_policy root (policy_name c)
      ∷ Call.new_client p.name
      ∷ Call.list_pods
      ∷ h

  pub create_scoped_token-revokes :
      Answers c p own auth info
      → (root : String) (w : World)
      → create_scoped_token c root true w
        ≡ (ok auth.client_token, record w { calls = exchange root w.calls })
  unfolding create_scoped_token first_pod first_of get_vault_pods new_client with_root ensure_policy
      call_create validate_scoped call_lookup_self revoke_root revoke_self under keeping_token
      set_token ask ◌>>=◌ continue or_missing or_error from lift return Exec.◌>>=◌ Exec.pure
  create_scoped_token-revokes a root w =
      simp (a.is_enabled, a.lists, a.connects, a.puts, a.creates, a.accepts)
