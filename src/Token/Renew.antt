-- ===== src/Token/Renew.antt =====
-- pkg/token/renew.go: the renewal of the admin token.
pub mod Due
pub mod Recorded
use vault_transit_unseal_ope.Base.{
  ℕ, String, Bool, false, not, Option, none, some, if◌then◌else◌, ◌==◌,
}
use vault_transit_unseal_ope.Base.Text.{trim_space}
use vault_transit_unseal_ope.Base.Dict
use vault_transit_unseal_ope.Base.Dict.{Dict}
use vault_transit_unseal_ope.Base.Exec.{Exec, pure, gets, ◌>>=◌, ◌>>◌}
use vault_transit_unseal_ope.Kube.{
  KubeError, is_not_found, Secret, Instant, ℤ, pos, add_time, seconds, quotient, second, gtb,
  text_at,
}
use vault_transit_unseal_ope.Token.World.{
  Result, ok, err, VaultError, Value, flag, Metric, Call, Env, Codec, TokenManagement, Vtu, Setup,
  World, ask, tell, set_token,
}
use vault_transit_unseal_ope.Token.Backoff.{get_admin_secret, update}
use vault_transit_unseal_ope.Token.Mint.{is_placeholder_token, call_lookup_self}
use vault_transit_unseal_ope.Token.Rotate.{number_seconds, value_at}

pub data RenewError : Type 0 where
  secret_unreadable update_failed : KubeError → RenewError
  bad_ttl bad_configured_ttl empty_response : RenewError
  renew_failed : VaultError → RenewError
  bad_lease : ℤ → RenewError

abbrev pub threshold_fraction : ℕ
threshold_fraction = 3

-- `renewable, _ := info.Data["renewable"].(bool)`
abbrev pub flag_of : Value → Bool
flag_of (flag b) = b
flag_of _ = false

abbrev pub last_error_key : String
last_error_key = "vault.homelab.io/last-renewal-error"

abbrev pub annotate : String → String → Secret → Secret
annotate k v s = record s { annotations = Dict.put s.annotations k v }

module _ (c : Setup) where
  call_renew_self : ℤ → Exec World (Result VaultError (Option ℤ))
  call_renew_self n w = ask (Call.renew_self w.client_token n) (λ h. c.env.renew_self h n) w

  after_update : Result KubeError Secret → Exec World (Option RenewError)
  after_update (ok s) = pure none
  after_update (err e) = pure (some (update_failed e))

  -- A renewal that went through is recorded, with the new end of the token's life.
  record_success : Secret → Instant → ℤ → Exec World (Option RenewError)
  unfolding after_update
  record_success attempted now lease = do
    now' ← ask Call.clock c.env.clock
    let ended =
        annotate "vault.homelab.io/token-expires"
          (c.codec.format_time (add_time now' (seconds lease)))
          (annotate "vault.homelab.io/last-renewal-success" (c.codec.format_time now) attempted)
    answer ← update c (record ended { annotations = Dict.remove ended.annotations last_error_key })
    after_update answer

  after_renew : Secret → Instant → Result VaultError (Option ℤ) → Exec World (Option RenewError)
  unfolding record_success
  after_renew attempted now (err e) = do
    update c (annotate last_error_key (c.codec.error_text e) attempted)
    pure (some (renew_failed e))
  after_renew attempted now (ok none) = pure (some empty_response)
  after_renew attempted now (ok (some lease)) =
      if gtb (seconds lease) (pos 0) then record_success attempted now lease else (do
        update c
            (annotate last_error_key "renew-self returned non-positive LeaseDuration" attempted)
        pure (some (bad_lease lease)))

  -- `RenewSelf(int(configuredTTL.Seconds()))` and what follows
  unfoldable pub renew_token : Secret → ℤ → Exec World (Option RenewError)
  unfolding call_renew_self after_renew
  renew_token secret configured = do
    answer ← call_renew_self (quotient configured second)
    now ← ask Call.clock c.env.clock
    after_renew (annotate "vault.homelab.io/last-renewal-attempt" (c.codec.format_time now) secret)
        now answer

  on_configured : Secret → ℤ → Option ℤ → Exec World (Option RenewError)
  on_configured secret ttl none = pure (some bad_configured_ttl)
  on_configured secret ttl (some configured) =
      if gtb (seconds ttl) (quotient configured threshold_fraction)
      then pure none
      else renew_token secret configured

  on_ttl : Secret → Value → Option ℤ → Exec World (Option RenewError)
  unfolding on_configured
  on_ttl secret renewable none = pure (some bad_ttl)
  on_ttl secret renewable (some ttl) = do
    tell (Call.metric (Metric.admin_token_ttl ttl))
    if not (flag_of renewable)
        then pure none
        else on_configured secret ttl (c.codec.parse_duration c.tm.ttl)

  -- What the lookup of the token says decides.
  unfoldable pub on_lookup :
      Secret → Result VaultError (Option (Dict Value)) → Exec World (Option RenewError)
  unfolding on_ttl
  on_lookup secret (err e) = pure none
  on_lookup secret (ok none) = pure none
  on_lookup secret (ok (some info)) =
      on_ttl secret (value_at info "renewable") (number_seconds (value_at info "ttl"))

  with_token : Secret → String → Exec World (Option RenewError)
  unfolding on_lookup
  with_token secret token = do
    original ← gets (λ (w : World). w.client_token)
    set_token token
    info ← call_lookup_self c
    result ← on_lookup secret info
    set_token original
    pure result

  on_secret : Result KubeError Secret → Exec World (Option RenewError)
  unfolding with_token
  on_secret (err e) = if is_not_found e then pure none else pure (some (secret_unreadable e))
  on_secret (ok secret) =
      let held = text_at secret.data_of "token" in
      if held == ""
      then pure none
      else if is_placeholder_token secret (trim_space held)
      then pure none
      else with_token secret (trim_space held)

  renew_managed : Exec World (Option RenewError)
  unfolding on_secret
  renew_managed =
      if not c.tm.auto_renew then pure none else (do answer ← get_admin_secret c; on_secret answer)

-- `RenewIfNeeded`
unfoldable pub renew :
    Env → Codec → Vtu → Bool → Option TokenManagement → Exec World (Option RenewError)
unfolding renew_managed
renew env codec vtu has_backup none = pure none
renew env codec vtu has_backup (some tm) =
    renew_managed (record { env = env; codec = codec; vtu = vtu; tm = tm; has_backup = has_backup })
