-- ===== src/Token/Rotate.antt =====
-- pkg/token/rotate.go: when a rotation is due, and the whole of `RotateIfDue`.
pub mod Revoking
pub mod Tracked
pub mod Bounds
pub mod Gate
pub mod Safety
pub mod Restore
use vault_transit_unseal_ope.Base.{
  String, Bool, true, false, ◌&&◌, ◌||◌, not, Option, none, some, List, any, length, ltb, leb,
  if◌then◌else◌, ◌==◌,
}
use vault_transit_unseal_ope.Base.Text.{trim_space}
use vault_transit_unseal_ope.Base.Dict
use vault_transit_unseal_ope.Base.Dict.{Dict}
use vault_transit_unseal_ope.Base.Exec.{Exec, pure, gets, ◌>>=◌, ◌>>◌}
use vault_transit_unseal_ope.Kube.{
  KubeError, is_not_found, Secret, Instant, ℤ, younger_than, from_unix, text_at,
}
use vault_transit_unseal_ope.Token.World.{
  Result, ok, err, LedgerEntry, VaultError, Value, json_number, float64, int64, int, text, nil,
  warning, Metric, Call, Env, Codec, Strategy, external, TokenManagement, Vtu, Setup, World, ask,
  tell, set_token,
}
use vault_transit_unseal_ope.Token.Ledger.{rotate_now_annotation, ledger_full, read_ledger}
use vault_transit_unseal_ope.Token.Backoff.{get_admin_secret, backoff_until}
use vault_transit_unseal_ope.Token.Mint.{is_placeholder_token, call_lookup_self}
use vault_transit_unseal_ope.Token.Pass.{
  Pass, View, RotateError, secret_unreadable, bad_creation_time, bad_rotation_period,
  bad_grace_period, ledger_unreadable, is_unresolved, skipped, publish_ledger,
}
use vault_transit_unseal_ope.Token.Fence.{resolve_unresolved}
use vault_transit_unseal_ope.Token.Revoke.{revoke_due}
use vault_transit_unseal_ope.Token.Swap.{mint_and_swap}

unfoldable pub or_default : String → String → String
or_default v def = if trim_space v == "" then def else v

unfoldable pub number_seconds : Value → Option ℤ
number_seconds (json_number n) = n
number_seconds (float64 n) = some n
number_seconds (int64 n) = some n
number_seconds (int n) = some n
number_seconds _ = none

abbrev is_external : Strategy → Bool
is_external external = true
is_external _ = false

-- `info.Data[k]`
abbrev pub value_at : Dict Value → String → Value
value_at d k = elim (Dict.get d k) [ none ↦ nil | some v ↦ v ]

-- `v, _ := info.Data[k].(string)`
abbrev pub text_of : Value → String
text_of (text s) = s
text_of _ = ""

abbrev pub is_forced : String → Bool
is_forced rotate_now = rotate_now == "true" || rotate_now == "immediate"

module _ (c : Setup) (v : View) where
  -- An expected state is an event only when a rotation was forced.
  quiet : Bool → Exec Pass (Option RotateError)
  quiet forced = if forced then (do skipped; pure none) else pure none

  gate_grace : String → Option ℤ → Exec Pass (Option RotateError)
  gate_grace rotate_now none = pure (some bad_grace_period)
  gate_grace rotate_now (some grace) = mint_and_swap c v (rotate_now == "immediate") grace

  gate_backoff : Bool → String → Exec Pass (Option RotateError)
  unfolding gate_grace quiet
  gate_backoff forced rotate_now = do
    until ← gets (λ (p : Pass). backoff_until c p.world p.secret)
    if ltb v.now until
        then quiet forced
        else gate_grace rotate_now
            (c.codec.parse_duration (or_default c.tm.rotation_grace_period "1h"))

  -- A stuck ledger is a fault: an event either way.
  gate_ledger : Bool → String → Exec Pass (Option RotateError)
  unfolding gate_backoff
  gate_ledger forced rotate_now = do
    ledger ← gets (λ (p : Pass). p.ledger)
    if any (λ e. is_unresolved e.state) ledger
        then (do skipped; pure none)
        else if leb ledger_full (length ledger)
        then (do skipped; pure none)
        else gate_backoff forced rotate_now

  gate_owner : Bool → String → Exec Pass (Option RotateError)
  unfolding gate_ledger
  gate_owner forced rotate_now =
      if not c.tm.enabled
      then quiet forced
      else if is_external c.tm.strategy
      then quiet forced
      else gate_ledger forced rotate_now

  -- `p.rotateIfDue`
  unfoldable pub rotate_if_due : Instant → ℤ → Exec Pass (Option RotateError)
  unfolding gate_owner
  rotate_if_due created period = do
    rotate_now ←
        gets (λ (p : Pass). trim_space (text_at p.secret.annotations rotate_now_annotation))
    (if not (rotate_now == "") && not (is_forced rotate_now) then skipped else pure tt)
    if not (is_forced rotate_now) && (not c.tm.auto_rotate || younger_than v.now created period)
        then pure none
        else gate_owner (is_forced rotate_now) rotate_now

  after_resolve : Instant → ℤ → Bool → Exec Pass (Option RotateError)
  after_resolve created period stop =
      if stop then pure none else (do revoke_due c v; rotate_if_due created period)

  -- The three steps of a pass, and the deferred export of the ledger
  unfoldable pub run_pass : Instant → ℤ → Exec Pass (Option RotateError)
  unfolding after_resolve rotate_if_due
  run_pass created period = do
    stop ← resolve_unresolved c v
    result ← after_resolve created period stop
    publish_ledger c v
    pure result

module _ (c : Setup) where
  with_ledger : View → Secret → List LedgerEntry → Instant → ℤ → Exec World (Option RotateError)
  unfolding run_pass
  with_ledger v secret ledger created period w =
      let done =
        run_pass c v created period (record { world = w; secret = secret; ledger = ledger }) in
      (done.0, done.1.world)

  on_ledger :
      Secret
      → String
      → String
      → Instant
      → Instant
      → ℤ
      → Option (List LedgerEntry)
      → Exec World (Option RotateError)
  unfolding with_ledger
  on_ledger secret token accessor now created period none = do
    tell (Call.event warning "TokenRotationFailed")
    tell (Call.metric (Metric.admin_token_rotation false))
    pure (some ledger_unreadable)
  on_ledger secret token accessor now created period (some ledger) =
      with_ledger (record { token = token; accessor = accessor; now = now }) secret ledger created
        period

  on_period : Secret → String → String → Instant → Option ℤ → Exec World (Option RotateError)
  unfolding on_ledger
  on_period secret token accessor created none = pure (some bad_rotation_period)
  on_period secret token accessor created (some period) = do
    now ← ask Call.clock c.env.clock
    tell (Call.metric (Metric.admin_token_observation created now period c.tm.auto_rotate))
    on_ledger secret token accessor now created period (read_ledger c secret)

  on_created : Secret → String → String → Option ℤ → Exec World (Option RotateError)
  unfolding on_period
  on_created secret token accessor none = pure (some bad_creation_time)
  on_created secret token accessor (some created) =
      on_period secret token accessor (from_unix created)
        (c.codec.parse_duration (or_default c.tm.rotation_period "720h"))

  -- Vault did not answer, or not with data: no revoke decision can be made.
  on_lookup :
      Secret → String → Result VaultError (Option (Dict Value)) → Exec World (Option RotateError)
  unfolding on_created
  on_lookup secret token (err e) = pure none
  on_lookup secret token (ok none) = pure none
  on_lookup secret token (ok (some info)) =
      let accessor = text_of (value_at info "accessor") in
      if accessor == ""
      then pure none
      else on_created secret token accessor (number_seconds (value_at info "creation_time"))

  -- The admin token is the client's only for the pass.
  with_token : Secret → String → Exec World (Option RotateError)
  unfolding on_lookup call_lookup_self
  with_token secret token = do
    original ← gets (λ (w : World). w.client_token)
    set_token token
    info ← call_lookup_self c
    result ← on_lookup secret token info
    set_token original
    pure result

  on_secret : Result KubeError Secret → Exec World (Option RotateError)
  unfolding with_token
  on_secret (err e) = if is_not_found e then pure none else pure (some (secret_unreadable e))
  on_secret (ok secret) =
      let token = trim_space (text_at secret.data_of "token") in
      if token == "" || is_placeholder_token secret token
      then pure none
      else with_token secret token

  rotate_managed : Exec World (Option RotateError)
  unfolding on_secret
  rotate_managed = do answer ← get_admin_secret c; on_secret answer

-- `RotateIfDue`
unfoldable pub rotate :
    Env → Codec → Vtu → Bool → Option TokenManagement → Exec World (Option RotateError)
unfolding rotate_managed
rotate env codec vtu has_backup none = pure none
rotate env codec vtu has_backup (some tm) =
    rotate_managed
      (record { env = env; codec = codec; vtu = vtu; tm = tm; has_backup = has_backup })
