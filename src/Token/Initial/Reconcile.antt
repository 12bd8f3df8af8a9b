-- ===== src/Token/Initial/Reconcile.antt =====
-- manager_simple.go: `checkTokenStatus` and `ReconcileInitialToken`. The Vault client is not nil, as the
-- reconciler never passes a nil one.
pub mod Allowed
pub mod Reported
use vault_transit_unseal_ope.Base.{
  Bool, Option, false, if◌then◌else◌, none, not, some, true, ◌&&◌, ◌==◌, ◌||◌,
}
use vault_transit_unseal_ope.Base.Dict.{Dict}
use vault_transit_unseal_ope.Base.Exec.{Exec}
use vault_transit_unseal_ope.Base.Text.{trim_space}
use vault_transit_unseal_ope.Kube.{KubeError, Secret, is_not_found, pos, text_at, ℤ}
use vault_transit_unseal_ope.Spec.{TokenState}
use vault_transit_unseal_ope.Token.Backoff.{get_admin_secret}
use vault_transit_unseal_ope.Token.Initial.Client.{Fallible, InitialError, is_auth_error, under}
use vault_transit_unseal_ope.Token.Initial.Create.{check_dependencies, create_initial_token}
use vault_transit_unseal_ope.Token.Initial.Root.{replace_invalid_token, replace_root_token}
use vault_transit_unseal_ope.Token.Initial.Scoped.{from}
use vault_transit_unseal_ope.Token.Mint.{call_lookup_self, is_placeholder_token}
use vault_transit_unseal_ope.Token.World.{
  Call, Setup, Strategy, TokenStatus, Value, VaultError, World, delayed, external, immediate,
  set_status, tell,
}
use vault_transit_unseal_ope.Base.Exec
use vault_transit_unseal_ope.Base.Try.{Result, err, lift, ok, return, throw, ◌>>=◌, ◌>>◌}

-- The results of `checkTokenStatus`
pub record TokenCheck : Type 0 where
  pub exists : Bool
  pub needs_replacement : Bool
  pub is_invalid : Bool

abbrev pub absent : TokenCheck
absent = record { exists = false; needs_replacement = false; is_invalid = false }

unfoldable pub marked_for_replacement : Secret → Bool
marked_for_replacement s =
    text_at s.annotations "vault.homelab.io/root-token" == "true"
    || text_at s.annotations "vault.homelab.io/needs-replacement" == "true"

abbrev pub there : Secret → Bool → TokenCheck
there s refused = record {
  exists = true;
  needs_replacement = marked_for_replacement s;
  is_invalid = refused;
}

module _ (c : Setup) where
  -- A refusal of the token makes it invalid; any other failure of the lookup is transient.
  looked_up : Secret → Result VaultError (Option (Dict Value)) → Result InitialError TokenCheck
  looked_up s (ok info) = ok (there s false)
  looked_up s (err e) =
      if is_auth_error c e then ok (there s true) else err (InitialError.lookup_failed e)

  check_held : Secret → Fallible TokenCheck
  unfolding looked_up
  check_held s =
      let token = text_at s.data_of "token" in
      if token == ""
      then return (there s true)
      else if is_placeholder_token s (trim_space token)
      then return (there s true)
      else from (looked_up s) (under (trim_space token) (call_lookup_self c))

  check_read : Result KubeError Secret → Fallible TokenCheck
  unfolding check_held
  check_read (ok s) = check_held s
  check_read (err e) =
      if is_not_found e then return absent else throw (InitialError.secret_unreadable e)

  -- `checkTokenStatus`
  unfoldable pub check_token_status : Fallible TokenCheck
  unfolding check_read
  check_token_status = do answer ← lift (get_admin_secret c); check_read answer

  set_state : TokenState → Fallible (Unit {0})
  set_state t = lift (set_status (λ s. record s { state = t }))

  is_active : TokenState → Bool
  is_active TokenState.active = true
  is_active _ = false

  is_waiting : TokenState → Bool
  is_waiting TokenState.waiting = true
  is_waiting _ = false

  mark_active : TokenStatus → TokenStatus
  unfolding is_active
  mark_active s =
      if not (is_active s.state)
      then record s { state = TokenState.active; is_initialized = true }
      else s

  abbrev delay : ℤ
  delay = elim (c.codec.parse_duration c.tm.creation_delay) [ none ↦ pos 0 | some d ↦ d ]

  wait_out : TokenState → Exec World (Unit {0})
  unfolding is_waiting
  wait_out state = if is_waiting state then tell (Call.sleep delay) else Exec.pure tt

  when_ready : Bool → Fallible (Unit {0})
  unfolding set_state wait_out
  when_ready false = set_state TokenState.waiting
  when_ready true = do
    state ← lift (Exec.gets (λ (w : World). w.status.state))
    lift (wait_out state)
    create_initial_token c

  -- Under the delayed strategy the dependencies come first.
  create_by_strategy : Strategy → Fallible (Unit {0})
  unfolding when_ready
  create_by_strategy delayed = do ready ← check_dependencies c; when_ready ready
  create_by_strategy immediate = create_initial_token c
  create_by_strategy external = create_initial_token c

  on_check : TokenCheck → Fallible (Unit {0})
  unfolding mark_active create_by_strategy
  on_check t =
      if t.exists && not t.needs_replacement && not t.is_invalid
      then lift (set_status mark_active)
      else if t.is_invalid
      then replace_invalid_token c
      else if t.needs_replacement
      then replace_root_token c
      else create_by_strategy c.tm.strategy

  on_strategy : Strategy → Fallible (Unit {0})
  unfolding set_state on_check
  on_strategy external = set_state TokenState.pending
  on_strategy delayed = do t ← check_token_status; on_check t
  on_strategy immediate = do t ← check_token_status; on_check t

  -- `ReconcileInitialToken`
  unfoldable pub reconcile_initial_token : Fallible (Unit {0})
  unfolding on_strategy
  reconcile_initial_token = if not c.tm.enabled then return tt else on_strategy c.tm.strategy
