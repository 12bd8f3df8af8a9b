-- ===== src/Token/Initial/Client.antt =====
-- manager_simple.go: pods, Vault clients for them, and the policy. A client for a pod is an object of
-- its own; its token is the client token while it is in use. The wrapper's `GetAPIClient` is never
-- nil, so that branch is left out.
use vault_transit_unseal_ope.Base.{
  Bool, List, Option, String, [], false, if◌then◌else◌, nat_eq, none, not, some, ◌&&◌, ◌==◌, ◌||◌,
  ◌∷◌,
}
use vault_transit_unseal_ope.Base.Dict.{Dict}
use vault_transit_unseal_ope.Base.Exec.{Exec, pure, ◌>>=◌, ◌>>◌}
use vault_transit_unseal_ope.Base.Text.{contains_lowered}
use vault_transit_unseal_ope.Base.Try.{Try}
use vault_transit_unseal_ope.Kube.{KubeError}
use vault_transit_unseal_ope.Token.Rotate.{text_of, value_at}
use vault_transit_unseal_ope.Token.World.{
  Call, Pod, Setup, Value, VaultError, World, ask, response, set_token, transport,
}

pub data InitialError : Type 0 where
  secret_unreadable keys_unreadable deployment_unreadable : KubeError → InitialError
  update_failed create_failed : KubeError → InitialError
  policy_failed lookup_failed token_refused validation_failed : VaultError → InitialError
  bad_ttl not_owned list_failed no_pods client_failed empty_validation : InitialError
  keys_not_stored root_revoked root_missing nothing_stored empty_token : InitialError
  no_accessor : InitialError
  -- A nil response is dereferenced.
  nil_response : InitialError

-- An action of the manager, with its error
abbrev pub Fallible : Type 0 → Type 0
Fallible A = Try World InitialError A

is_ready : List (String × String) → Bool
is_ready [] = false
is_ready ((type, status) ∷ l) = (type == "Ready" && status == "True") || is_ready l

-- The first Ready pod
unfoldable pub first_ready : List Pod → Option Pod
unfolding is_ready
first_ready [] = none
first_ready (p ∷ ps) = if p.is_running && is_ready p.conditions then some p else first_ready ps

-- The client has its token back at the end.
unfoldable pub keeping_token : {A : Type 0} → Exec World A → Exec World A
keeping_token m w = ((m w).0, record (m w).1 { client_token = w.client_token })

-- `m` under the client token `t`, which is not the client's afterwards
unfoldable pub under : {A : Type 0} → String → Exec World A → Exec World A
unfolding keeping_token
under t m = keeping_token (do set_token t; m)

-- The accessor in the answer of a lookup, where there is one
abbrev pub accessor_in : Option (Dict Value) → String
accessor_in none = ""
accessor_in (some info) = text_of (value_at info "accessor")

module _ (c : Setup) where
  -- `getVaultPods`
  unfoldable pub get_vault_pods : Exec World (Option (List Pod))
  get_vault_pods = ask Call.list_pods c.env.list_pods

  -- `NewClientForPod`
  unfoldable pub new_client : Pod → Exec World (Option String)
  new_client pod = ask (Call.new_client pod.name) (λ h. c.env.new_client h pod.name)

  ready_in : Option (List Pod) → Option Pod
  unfolding first_ready
  ready_in none = none
  ready_in (some pods) = first_ready pods

  -- `findReadyVaultPod`, where both an error and no pod end the caller
  unfoldable pub find_ready_vault_pod : Exec World (Option Pod)
  unfolding ready_in get_vault_pods
  find_ready_vault_pod =
      if not c.vtu.has_selector then pure none else (do pods ← get_vault_pods; pure (ready_in pods))

  abbrev pub policy_name : String
  policy_name = if not (c.tm.policy_name == "") then c.tm.policy_name else "vault-admin"

  -- `ensurePolicy`; the text of the policy is the same at every call.
  unfoldable pub ensure_policy : Exec World (Option VaultError)
  ensure_policy w =
      ask (Call.put_policy w.client_token policy_name) (λ h. c.env.put_policy h policy_name) w

  -- `Auth().Token().RevokeSelf`, of the client's token
  unfoldable pub revoke_self : Exec World (Option VaultError)
  revoke_self w = ask (Call.revoke_self w.client_token) (λ h. c.env.revoke_self h w.client_token) w

  -- `tryBackupAdminToken`
  unfoldable pub try_backup_admin_token : String → Exec World (Unit {0})
  try_backup_admin_token token =
      if not (c.has_backup && c.vtu.recovery_enabled && c.vtu.backup_to_transit)
      then pure tt
      else (do ask (Call.backup token) c.env.backup_fails; pure tt)

has_auth_status : VaultError → Bool
has_auth_status (response status texts) =
    nat_eq status 400 || nat_eq status 401 || nat_eq status 403
has_auth_status transport = false

-- `isAuthError`
unfoldable pub is_auth_error : Setup → VaultError → Bool
unfolding has_auth_status
is_auth_error c e =
    let message = c.codec.error_text e in
    has_auth_status e
    || contains_lowered message "permission denied"
    || contains_lowered message "invalid token"
