-- ===== src/Token/Initial/Create.antt =====
-- manager_simple.go: `createInitialToken`, `buildLifecycleAnnotations` and `checkDependencies`.
pub mod Allowed
pub mod Reported
use vault_transit_unseal_ope.Base.Dict
use vault_transit_unseal_ope.Base.{
  Bool, List, Option, String, [], false, if◌then◌else◌, none, some, true, ◌∷◌,
}
use vault_transit_unseal_ope.Base.Dict.{Dict}
use vault_transit_unseal_ope.Base.Exec
use vault_transit_unseal_ope.Base.Exec.{Exec}
use vault_transit_unseal_ope.Kube.{
  Instant, KubeError, Secret, add_time, gtb, is_not_found, pos, seconds, ℤ,
}
use vault_transit_unseal_ope.Spec.{TokenState}
use vault_transit_unseal_ope.Token.Initial.Client.{
  Fallible, InitialError, ensure_policy, try_backup_admin_token,
}
use vault_transit_unseal_ope.Token.Initial.Scoped.{from}
use vault_transit_unseal_ope.Token.Mint.{call_create}
use vault_transit_unseal_ope.Token.World.{
  Auth, Call, Dependency, Setup, TokenRequest, TokenStatus, VaultError, World, ask, set_status,
}
use vault_transit_unseal_ope.Base.Try.{
  Result, err, found, lift, ok, or_error, return, unfailed, ◌>>=◌, ◌>>◌,
}

-- The annotations of the admin token's spec, under the lifecycle's. `m` is the map so far.
abbrev pub note : String → String → Dict String → Dict String
note k v m = Dict.put m k v

abbrev pub note_if : Bool → String → String → Dict String → Dict String
note_if b k v m = if b then note k v m else m

module _ (c : Setup) where
  -- The part that a new lease adds
  abbrev expiry : Auth → Instant → Option String
  expiry auth now =
      if gtb auth.lease_duration (pos 0)
      then some (c.codec.format_time (add_time now (seconds auth.lease_duration)))
      else none

  abbrev note_expiry : Option String → Dict String → Dict String
  note_expiry none m = m
  note_expiry (some t) m = note "vault.homelab.io/token-expires" t m

  -- Annotations of a token's life that three of the writers share
  unfoldable pub note_management : Dict String → Dict String
  note_management m =
      note_if c.tm.auto_rotate "vault.homelab.io/rotation-period" c.tm.rotation_period (
        note_if c.tm.auto_rotate "vault.homelab.io/auto-rotate" "true" (
          note_if c.tm.auto_renew "vault.homelab.io/auto-renew" "true" (
            note "vault.homelab.io/token-policies" c.tm.policy_name
              (note "vault.homelab.io/token-ttl" c.tm.ttl m))))

  -- `buildLifecycleAnnotations`
  unfoldable pub build_lifecycle_annotations : Auth → Instant → Dict String
  unfolding note_management
  build_lifecycle_annotations auth now =
      note "vault.homelab.io/initial-creation" "vault-transit-unseal-operator" (
        note "vault.homelab.io/lifecycle-manager" "kyverno" (
          note_expiry (expiry auth now) (
            note_management (
              note "vault.homelab.io/token-accessor" auth.accessor (
                note "vault.homelab.io/token-created" (c.codec.format_time now)
                  c.vtu.admin_token_annotations)))))

  -- Periodic under auto-renewal, else with a TTL
  initial_request : ℤ → TokenRequest
  initial_request ttl = record {
    policies = c.tm.policy_name ∷ [];
    period = if c.tm.auto_renew then c.codec.format_duration ttl else "";
    ttl = if c.tm.auto_renew then "" else c.codec.format_duration ttl;
    purpose = "admin-token";
    no_parent = true;
    renewable = c.tm.auto_renew;
    source = "";
  }

  -- The status takes a refusal up.
  on_answer : Result VaultError (Option Auth) → Fallible Auth
  on_answer (err e) w = (
    err (InitialError.token_refused e),
    record w {
      status = record w.status { state = TokenState.failed; error = c.codec.error_text e };
    },
  )
  on_answer (ok none) w = (err InitialError.nil_response, w)
  on_answer (ok (some auth)) w = (ok auth, w)

  unfoldable pub initial_secret : Auth → Instant → Secret
  unfolding build_lifecycle_annotations
  initial_secret auth now = record {
    data_of = Dict.put Dict.empty "token" auth.client_token;
    annotations = build_lifecycle_annotations auth now;
    resource_version = 0;
  }

  initial_status : Auth → Instant → TokenStatus
  initial_status auth now = record {
    state = TokenState.active;
    created_at = c.codec.format_time now;
    last_renewed_at = c.codec.format_time now;
    expires_at = elim (expiry auth now) [ none ↦ "" | some t ↦ t ];
    accessor = auth.accessor;
    error = "";
    is_initialized = true;
  }

  abbrev owned : Bool → Option InitialError
  owned b = if b then none else some InitialError.not_owned

  set_owner : Fallible (Unit {0})
  set_owner w = (
    unfailed (λ e. e) (owned (c.env.set_owner w.calls)),
    record w { calls = Call.set_owner ∷ w.calls },
  )

  unfoldable pub create_secret : Secret → Exec World (Option KubeError)
  create_secret s = ask (Call.create_secret s) (λ h. c.env.create_secret h s)

  request_initial : ℤ → Fallible Auth
  unfolding initial_request on_answer
  request_initial ttl = do answer ← lift (call_create c (initial_request ttl)); on_answer answer

  -- `createInitialToken`
  unfoldable pub create_initial_token : Fallible (Unit {0})
  unfolding request_initial initial_status set_owner
  create_initial_token = do
    or_error InitialError.policy_failed (ensure_policy c)
    ttl ← from (found InitialError.bad_ttl) (Exec.pure (c.codec.parse_duration c.tm.ttl))
    auth ← request_initial ttl
    now ← lift (ask Call.clock c.env.clock)
    set_owner
    or_error InitialError.create_failed (create_secret (initial_secret auth now))
    lift (set_status (λ s. initial_status auth now))
    lift (try_backup_admin_token c auth.client_token)

  -- One round of `checkDependencies`: none to go on with the next one
  abbrev ready_verdict : Dependency → Result KubeError ℤ → Option (Result InitialError Bool)
  ready_verdict d (err e) =
      if is_not_found e then some (ok false) else some (err (InitialError.deployment_unreadable e))
  ready_verdict d (ok replicas) =
      if gtb d.min_ready_replicas replicas then some (ok false) else none

  next_round : Option (Result InitialError Bool) → Fallible Bool → Fallible Bool
  next_round none rest w = rest w
  next_round (some r) rest w = (r, w)

  check_deployments : List Dependency → Fallible Bool
  unfolding next_round
  check_deployments [] = return true
  check_deployments (d ∷ ds) = do
    answer ← lift (ask (Call.get_deployment d.namespace d.name) c.env.get_deployment)
    next_round (ready_verdict d answer) (check_deployments ds)

  -- `checkDependencies`
  unfoldable pub check_dependencies : Fallible Bool
  unfolding check_deployments
  check_dependencies = check_deployments c.tm.deployments
