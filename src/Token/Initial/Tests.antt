-- ===== src/Token/Initial/Tests.antt =====
-- Runs of the initial token's manager in the cluster of Token/Cluster.antt.
use vault_transit_unseal_ope.Token.Tracked.{token_of}
use vault_transit_unseal_ope.Base.Exec.{Exec}
use vault_transit_unseal_ope.Base.{
  ◌++◌, Bool, List, String, any, arith, false, true, ◌&&◌, All, [], if◌then◌else◌, refl, ◌==◌, ◌∷◌,
  ◌≡◌,
}
use vault_transit_unseal_ope.Base.Dict.{Dict}
use vault_transit_unseal_ope.Base.Try.{Try, err}
use vault_transit_unseal_ope.Kube.{conflict, pos}
use vault_transit_unseal_ope.Token.Initial.Allowed.{Allowed}
use vault_transit_unseal_ope.Token.Initial.Client.{InitialError}
use vault_transit_unseal_ope.Token.Initial.Reconcile.{reconcile_initial_token}
use vault_transit_unseal_ope.Token.Initial.Reconcile.Allowed.{reconcile_initial_token-Allowed}
use vault_transit_unseal_ope.Token.Initial.Reconcile.Reported.{
  IsReported, reconcile_initial_token-Reported,
}
use vault_transit_unseal_ope.Token.Initial.Root.{replace_root_token}
use vault_transit_unseal_ope.Token.Initial.Root.Lost.{
  IsRevocable, until_end, replace_root_token-lost,
}
use vault_transit_unseal_ope.Token.Initial.Scoped.Lost.{Answers}
use vault_transit_unseal_ope.Token.World.{VaultError, Call, Setup, Value, int64, response, text}
use vault_transit_unseal_ope.Base.Exec
use vault_transit_unseal_ope.Base.Try
use vault_transit_unseal_ope.Token.Initial.Client.{under, keeping_token}
use vault_transit_unseal_ope.Token.Initial.Scoped.{from}
use vault_transit_unseal_ope.Token.Initial.Reconcile.{check_token_status, marked_for_replacement}
use vault_transit_unseal_ope.Token.Backoff.{get_admin_secret}
use vault_transit_unseal_ope.Token.Mint.{is_placeholder_token, call_lookup_self}
use vault_transit_unseal_ope.Base.Text.{contains, trim_space}
use vault_transit_unseal_ope.Token.World.{ask, set_token, set_status}
use vault_transit_unseal_ope.Base.Dict
use vault_transit_unseal_ope.Token.Cluster.{toy, start, pod, obliging, secret, new_auth}

-- Vault refuses the admin token that is there; the manager heals itself.
abbrev refusing : Setup
refusing = record toy {
  env = record obliging {
    lookup_self =
        λ h t. if t == "hvs.current-token" then err (response 403 []) else obliging.lookup_self h t;
  };
}

reconcile_initial_token-Allowed_example :
    All (Allowed refusing) (reconcile_initial_token refusing start.world).1.calls
reconcile_initial_token-Allowed_example = reconcile_initial_token-Allowed refusing start.world tt

reconcile_initial_token-Reported_example :
    IsReported toy (reconcile_initial_token toy start.world).1
unfolding reconcile_initial_token Try.◌>>=◌ check_token_status Try.lift get_admin_secret ask
    Dict.get Dict.put is_placeholder_token Dict.holds Dict.empty contains trim_space from under
    Exec.◌>>=◌ call_lookup_self set_token set_status marked_for_replacement keeping_token
    Try.continue
reconcile_initial_token-Reported_example =
    reconcile_initial_token-Reported toy start.world refl refl

abbrev is_revocation : Call → Bool
is_revocation (Call.revoke_self t) = true
is_revocation k = false

abbrev is_revoked : List Call → Bool
is_revoked h = any is_revocation h

-- Bootstrap is complete, the API server takes no write of the admin Secret, and Vault refuses the
-- token of the Secret once a token has revoked itself.
abbrev read_only : Setup
read_only = record toy {
  env = record obliging {
    update_secret = λ h s. err conflict;
    lookup_self = λ h t.
        if t == "hvs.current-token" && is_revoked h
        then err (response 403 [])
        else obliging.lookup_self h t;
  };
  vtu = record toy.vtu {
    annotations = Dict.put Dict.empty "vault.homelab.io/bootstrap-complete" "true";
  };
}

is_revoked-append :
    (t : String) (later h : List Call) → is_revoked (later ++ (Call.revoke_self t ∷ h)) ≡ true
is_revoked-append t [] h = refl
is_revoked-append t (k ∷ later) h = ground (arith, is_revoked-append t later h)

revocable : IsRevocable read_only "hvs.current-token"
revocable = record {
  refuses = λ h later e. (response 403 [], rw (is_revoked-append "hvs.current-token" later h) refl);
}

abbrev info : Dict Value
info = Dict.put (Dict.put Dict.empty "accessor" (text "acc-now")) "creation_time" (int64 (pos 0))

answering : Answers read_only pod "" new_auth info
answering = record {
  is_enabled = refl;
  lists = λ h. refl;
  connects = λ h n. refl;
  puts = λ h n. refl;
  creates = λ h q. refl;
  accepts = λ h. refl;
  revokes = λ h t. refl;
}

replace_root_token-lost_example :
    let (r, w) = replace_root_token read_only start.world in
    (r ≡ err (InitialError.update_failed conflict))
    × (w ≡ record start.world { calls = until_end read_only pod "" new_auth info secret [] })
    × ((x : VaultError) × (read_only.env.lookup_self w.calls (token_of secret) ≡ err x))
unfolding Dict.get Dict.put
replace_root_token-lost_example =
    replace_root_token-lost read_only pod "" new_auth info answering secret conflict start.world
      refl refl (λ h. refl) refl (λ h t. refl) revocable
