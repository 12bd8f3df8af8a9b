-- ===== src/Token/Initial/Recover.antt =====
-- manager_simple.go: the two recoveries of an admin token that is no longer valid, from the backup in
-- the transit Vault and through Kubernetes auth. Either is given up at its first failure, without an
-- error; `()` in the result type stands for that.
pub mod Allowed
pub mod Reported
pub mod Healing
use vault_transit_unseal_ope.Base.Dict
use vault_transit_unseal_ope.Base.{
  Bool, List, Option, String, false, if◌then◌else◌, none, not, some, ◌&&◌, ◌==◌, ◌||◌,
}
use vault_transit_unseal_ope.Base.Dict.{Dict}
use vault_transit_unseal_ope.Base.Exec.{Exec}
use vault_transit_unseal_ope.Base.Text.{trim_space}
use vault_transit_unseal_ope.Kube.{Secret}
use vault_transit_unseal_ope.Spec.{TokenState}
use vault_transit_unseal_ope.Token.Backoff.{get_admin_secret, update}
use vault_transit_unseal_ope.Token.Initial.Client.{
  accessor_in, find_ready_vault_pod, new_client, try_backup_admin_token, under,
}
use vault_transit_unseal_ope.Token.Initial.Create.{note}
use vault_transit_unseal_ope.Token.Ledger.{ledger_has_accessor, read_ledger}
use vault_transit_unseal_ope.Token.Mint.{
  Minted, call_lookup_self, mint_admin_token, mint_failed, minted,
}
use vault_transit_unseal_ope.Token.World.{
  Call, LedgerEntry, Setup, TokenStatus, VaultError, World, ask, set_status, set_token, tell,
  warning,
}
use vault_transit_unseal_ope.Base.Try.{
  Result, Try, attempt, err, lift, ok, or_fail, or_missing, return, throw, ◌>>=◌, ◌>>◌,
}

-- An action that may be given up
abbrev pub Attempt : Type 0 → Type 0
Attempt A = Try World (Unit {0}) A

abbrev when_true : Bool → Attempt (Unit {0})
when_true b w = ((if b then ok tt else err tt), w)

abbrev pub installed : Secret → String → Secret
installed secret token = record secret { data_of = Dict.put secret.data_of "token" token }

-- The marks of an unusable token go, those of a recovered one come.
abbrev pub healed : Secret → String → String → String → Secret
healed secret token now origin = record (installed secret token) {
  annotations = note "vault.homelab.io/scoped-token" "true" (
      note "vault.homelab.io/recovered-from" origin (
        note "vault.homelab.io/replaced-at" now (
          Dict.remove
            (Dict.remove (Dict.remove secret.annotations "vault.homelab.io/recovery-required")
              "vault.homelab.io/incomplete")
            "vault.homelab.io/needs-replacement")));
}

-- The accessor is known and not one that the ledger retires.
abbrev pub is_unretired : Option (List LedgerEntry) → String → Bool
is_unretired none accessor = false
is_unretired (some ledger) accessor = not (accessor == "" || ledger_has_accessor ledger accessor)

abbrev pub activate : String → TokenStatus → TokenStatus
activate now s = record s { state = TokenState.active; last_renewed_at = now }

module _ (c : Setup) where
  -- A client for a Ready pod: the token that it starts with
  pub ready_client : Attempt String
  ready_client = do pod ← or_missing tt (find_ready_vault_pod c); or_missing tt (new_client c pod)

  backup_is_on : Bool
  backup_is_on = c.has_backup && c.vtu.recovery_enabled && c.vtu.backup_to_transit

  -- An accessor that cannot be checked, or that is being retired, is an event.
  check_retired : Secret → String → Attempt (Unit {0})
  check_retired secret accessor =
      if is_unretired (read_ledger c secret) accessor
      then return tt
      else (do lift (tell (Call.event warning "TokenRecoverySkipped")); throw tt)

  -- Write the token that was recovered, and report it in the status.
  pub install_healed : Secret → String → String → Attempt String
  install_healed secret token origin = do
    now ← lift (ask Call.clock c.env.clock)
    or_fail (λ e. tt) (update c (healed secret token (c.codec.format_time now) origin))
    return (c.codec.format_time now)

  recover_from_backup : Attempt (Unit {0})
  unfolding backup_is_on ready_client check_retired install_healed
  recover_from_backup = do
    when_true backup_is_on
    backed ← or_missing tt (ask Call.recover_backup c.env.recover_backup)
    when_true (not (trim_space backed == ""))
    own ← ready_client
    info ← or_fail (λ e. tt) (under own (under (trim_space backed) (call_lookup_self c)))
    secret ← or_fail (λ e. tt) (get_admin_secret c)
    check_retired secret (accessor_in info)
    now ← install_healed secret (trim_space backed) "transit-backup"
    lift (set_status (activate now))

  -- `tryRecoverFromTransitBackup`
  unfoldable pub try_recover_from_transit_backup : Exec World Bool
  unfolding recover_from_backup
  try_recover_from_transit_backup = attempt recover_from_backup

  -- The client token of a login, which is not empty
  abbrev logged_in : Result VaultError (Option String) → Result (Unit {0}) String
  logged_in (err e) = err tt
  logged_in (ok none) = err tt
  logged_in (ok (some t)) = if t == "" then err tt else ok t

  abbrev minted_token : Minted → Result (Unit {0}) String
  minted_token (minted token accessor) = ok token
  minted_token (mint_failed e a) = err tt

  call_login : String → Exec World (Result VaultError (Option String))
  call_login jwt w = ask (Call.login w.client_token jwt) (λ h. c.env.login h jwt) w

  login : String → Attempt String
  unfolding call_login
  login jwt w = let (r, w') = call_login jwt w in (logged_in r, w')

  mint_healing : Attempt String
  mint_healing w = let (r, w') = mint_admin_token c "k8s-auth-selfheal" w in (minted_token r, w')

  -- What is done with a client of its own, whose token is cleared first
  heal : String → Attempt (Unit {0})
  unfolding login mint_healing install_healed
  heal jwt = do
    lift (set_token "")
    session ← login jwt
    lift (set_token session)
    token ← mint_healing
    secret ← or_fail (λ e. tt) (get_admin_secret c)
    now ← install_healed secret token "k8s-auth-selfheal"
    lift (try_backup_admin_token c token)
    lift (set_status (activate now))

  recover_via_login : Attempt (Unit {0})
  unfolding ready_client heal
  recover_via_login = do
    jwt ← or_missing tt (ask Call.read_jwt c.env.read_jwt)
    when_true (not (trim_space jwt == ""))
    own ← ready_client
    under own (heal (trim_space jwt))

  -- `tryRecoverViaK8sAuth`
  unfoldable pub try_recover_via_k8s_auth : Exec World Bool
  unfolding recover_via_login
  try_recover_via_k8s_auth = attempt recover_via_login
