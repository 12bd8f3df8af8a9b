-- ===== src/Token/Initial/Reconcile/Allowed.antt =====
-- `ReconcileInitialToken` as a whole keeps to what is allowed.
use vault_transit_unseal_ope.Base.Text.{trim_space}
use vault_transit_unseal_ope.Base.{◌==◌, String, All, Bool, arith, false, not, true, ◌≡◌}
use vault_transit_unseal_ope.Base.Exec.{Exec, Keeps, Keeps-gets, Keeps-if, Keeps-if_eq, Keeps-pure}
use vault_transit_unseal_ope.Base.Gives.{Any, Keeps-of}
use vault_transit_unseal_ope.Kube.{text_at, KubeError, Secret}
use vault_transit_unseal_ope.Spec.{TokenState}
use vault_transit_unseal_ope.Token.Backoff.{get_admin_secret}
use vault_transit_unseal_ope.Token.Initial.Allowed.{Allowed, IsFine, Keeps-from, Keeps-set_status}
use vault_transit_unseal_ope.Token.Initial.Client.{keeping_token, under}
use vault_transit_unseal_ope.Token.Initial.Create.{create_initial_token}
use vault_transit_unseal_ope.Token.Initial.Create.Allowed.{
  check_dependencies-Gives, create_initial_token-Gives,
}
use vault_transit_unseal_ope.Token.Initial.Root.Allowed.{
  replace_invalid_token-Gives, replace_root_token-Gives,
}
use vault_transit_unseal_ope.Token.Mint.{is_placeholder_token, call_lookup_self}
use vault_transit_unseal_ope.Token.Trace.{Keeps-ask, Keeps-tell}
use vault_transit_unseal_ope.Token.World.{
  Call, Setup, Strategy, World, ask, delayed, external, immediate, set_token,
}
use vault_transit_unseal_ope.Base.Exec
use vault_transit_unseal_ope.Base.Try.{
  return, Keeps-lift, Keeps-return, Keeps-throw, Keeps-try, Result, err, ok,
}
use vault_transit_unseal_ope.Token.Initial.Reconcile.{
  there, TokenCheck, check_token_status, reconcile_initial_token, check_held, check_read, looked_up,
  set_state, mark_active, wait_out, when_ready, create_by_strategy, on_check, on_strategy, delay,
}

module _ (c : Setup) where
  lookup-Keeps : (t : String) → Keeps (IsFine c) (under t (call_lookup_self c))
  unfolding under keeping_token set_token call_lookup_self ask Exec.◌>>=◌
  lookup-Keeps t = record { at = λ w h. (tt, h) }

  held-Keeps : (s : Secret) → Keeps (IsFine c) (check_held c s)
  unfolding check_held
  held-Keeps s =
      let token = text_at s.data_of "token" in
      Keeps-if (token == "") (return (there s true)) _ (Keeps-return (there s true)) (
        Keeps-if (is_placeholder_token s (trim_space token)) (return (there s true)) _
          (Keeps-return (there s true))
          (Keeps-from (looked_up c s) (under (trim_space token) (call_lookup_self c))
            (lookup-Keeps (trim_space token))))

  read-Keeps : (r : Result KubeError Secret) → Keeps (IsFine c) (check_read c r)
  unfolding check_read
  read-Keeps (ok s) = held-Keeps s
  read-Keeps (err e) = Keeps-if _ _ _ (Keeps-return _) (Keeps-throw _)

  pub check_token_status-Keeps : Keeps (IsFine c) (check_token_status c)
  unfolding check_token_status get_admin_secret
  check_token_status-Keeps =
      Keeps-try _ _ (Keeps-lift _ (Keeps-ask _ c.env.get_secret tt)) read-Keeps

  state-Keeps : (t : TokenState) → Keeps (IsFine c) (set_state c t)
  unfolding set_state
  state-Keeps t = Keeps-lift _ (Keeps-set_status _)

  wait-Keeps : (t : TokenState) → Keeps (IsFine c) (wait_out c t)
  unfolding wait_out
  wait-Keeps t = Keeps-if _ _ _ (Keeps-tell (Call.sleep (delay c)) tt) (Keeps-pure tt)

  create-Keeps : Keeps (IsFine c) (create_initial_token c)
  create-Keeps = Keeps-of _ Any (create_initial_token-Gives c)

  ready-Keeps : (b : Bool) → Keeps (IsFine c) (when_ready c b)
  unfolding when_ready
  ready-Keeps false = state-Keeps TokenState.waiting
  ready-Keeps true =
      Keeps-try _ _ (Keeps-lift _ (Keeps-gets _))
        λ t. Keeps-try _ _ (Keeps-lift _ (wait-Keeps t)) (λ _. create-Keeps)

  strategy-Keeps : (s : Strategy) → Keeps (IsFine c) (create_by_strategy c s)
  unfolding create_by_strategy
  strategy-Keeps delayed = Keeps-try _ _ (Keeps-of _ Any (check_dependencies-Gives c)) ready-Keeps
  strategy-Keeps immediate = create-Keeps
  strategy-Keeps external = create-Keeps

  on_check-Keeps : c.tm.enabled ≡ true → (t : TokenCheck) → Keeps (IsFine c) (on_check c t)
  unfolding on_check
  on_check-Keeps on t = Keeps-if _ _ _ (Keeps-lift _ (Keeps-set_status (mark_active c))) (
      Keeps-if _ _ _ (Keeps-of _ Any (replace_invalid_token-Gives c on)) (
        Keeps-if _ _ _ (Keeps-of _ Any (replace_root_token-Gives c on))
          (strategy-Keeps c.tm.strategy)))

  on_strategy-Keeps : c.tm.enabled ≡ true → (s : Strategy) → Keeps (IsFine c) (on_strategy c s)
  unfolding on_strategy
  on_strategy-Keeps on external = state-Keeps TokenState.pending
  on_strategy-Keeps on delayed = Keeps-try _ _ check_token_status-Keeps (on_check-Keeps on)
  on_strategy-Keeps on immediate = Keeps-try _ _ check_token_status-Keeps (on_check-Keeps on)

  -- Whatever the API server, Vault and the backup answer, `ReconcileInitialToken` writes to the admin
  -- Secret only a token that Vault gave out and accepts, or the backup's, if Vault accepts it and the
  -- ledger in the same write does not retire its accessor; it creates the Secret with, and backs up,
  -- only a token that Vault gave out; and it revokes only a token that was in the admin Secret, after
  -- bootstrap is marked complete and Vault has given out and accepted a successor. The calls before
  -- it are held to the same.
  pub reconcile_initial_token-Allowed :
      (w : World) → All (Allowed c) w.calls → All (Allowed c) (reconcile_initial_token c w).1.calls
  unfolding reconcile_initial_token
  reconcile_initial_token-Allowed w h =
      (Keeps-if_eq (not c.tm.enabled) _ _ (λ _. Keeps-return tt)
          (λ on. on_strategy-Keeps (ground (arith, on)) c.tm.strategy)).at
        w h
