-- ===== src/Token/Initial/Reconcile/Reported.antt =====
-- What the status says after `ReconcileInitialToken` has succeeded.
use vault_transit_unseal_ope.Base.{
  if_cases, Bool, arith, false, inl, inr, not, refl, true, ◌≡◌, ◌⊎◌,
}
use vault_transit_unseal_ope.Spec.{TokenState}
use vault_transit_unseal_ope.Token.Initial.Client.{Fallible, InitialError}
use vault_transit_unseal_ope.Token.Initial.Create.Reported.{create_initial_token-Ends}
use vault_transit_unseal_ope.Token.Initial.Ends.{
  Ends, Ends-if, Ends-last, Ends-status, Ends-weaken, IsIn, Post,
}
use vault_transit_unseal_ope.Token.Initial.Root.Reported.{
  replace_invalid_token-Ends, replace_root_token-Ends,
}
use vault_transit_unseal_ope.Token.World.{
  Setup, Strategy, TokenStatus, World, delayed, external, immediate,
}
use vault_transit_unseal_ope.Base.Try.{Result, err, ok}
use vault_transit_unseal_ope.Token.Initial.Reconcile.{
  TokenCheck, reconcile_initial_token, set_state, mark_active, when_ready, create_by_strategy,
  on_check, on_strategy, is_active,
}

of_post :
    (Q : World → Type 0) (r : Result InitialError (Unit {0})) (w : World)
    → r ≡ ok tt
    → Post Q (r, w)
    → Q w
of_post Q (ok u) w e h = h
of_post Q (err x) w e h = cc

module _ (c : Setup) where
  state-Ends : (t : TokenState) → Ends (IsIn t) (set_state c t)
  unfolding set_state
  state-Ends t = Ends-status t (λ s. record s { state = t }) (λ s. refl)

  active_of : (t : TokenState) → is_active c t ≡ true → t ≡ TokenState.active
  unfolding is_active
  active_of TokenState.active h = refl
  active_of _ h = cc

  marked : (s : TokenStatus) → (mark_active c s).state ≡ TokenState.active
  unfolding mark_active
  marked s =
      if_cases (λ (r : TokenStatus). r.state ≡ TokenState.active) (not (is_active c s.state)) _ s
        (λ _. refl) (λ a. active_of s.state (ground (arith, a)))

  -- What the status may say, under which strategy
  abbrev pub IsReported : World → Type 0
  IsReported w =
      IsIn TokenState.active w
      ⊎ (c.tm.strategy ≡ Strategy.external) × IsIn TokenState.pending w
      ⊎ (c.tm.strategy ≡ Strategy.delayed) × IsIn TokenState.waiting w

  active-Ends : {m : Fallible (Unit {0})} → Ends (IsIn TokenState.active) m → Ends IsReported m
  active-Ends {m} e = Ends-weaken m e (λ w a. inl a)

  ready-Ends : (b : Bool) → c.tm.strategy ≡ Strategy.delayed → Ends IsReported (when_ready c b)
  unfolding when_ready
  ready-Ends false d = Ends-weaken _ (state-Ends TokenState.waiting) (λ w a. inr (inr (d, a)))
  ready-Ends true d =
      Ends-last _ _ λ s. Ends-last _ _ λ _. active-Ends (create_initial_token-Ends c)

  strategy-Ends : (s : Strategy) → c.tm.strategy ≡ s → Ends IsReported (create_by_strategy c s)
  unfolding create_by_strategy
  strategy-Ends delayed e = Ends-last _ _ (λ r. ready-Ends r e)
  strategy-Ends immediate e = active-Ends (create_initial_token-Ends c)
  strategy-Ends external e = active-Ends (create_initial_token-Ends c)

  on_check-Ends : (t : TokenCheck) → Ends IsReported (on_check c t)
  unfolding on_check
  on_check-Ends t =
      Ends-if _ _ _ (active-Ends (Ends-status TokenState.active (mark_active c) marked)) (
        Ends-if _ _ _ (active-Ends (replace_invalid_token-Ends c)) (
          Ends-if _ _ _ (active-Ends (replace_root_token-Ends c))
            (strategy-Ends c.tm.strategy refl)))

  on_strategy-Ends : (s : Strategy) → c.tm.strategy ≡ s → Ends IsReported (on_strategy c s)
  unfolding on_strategy
  on_strategy-Ends external e =
      Ends-weaken _ (state-Ends TokenState.pending) (λ w a. inr (inl (e, a)))
  on_strategy-Ends delayed e = Ends-last _ _ on_check-Ends
  on_strategy-Ends immediate e = Ends-last _ _ on_check-Ends

  -- When `ReconcileInitialToken` succeeds with token management enabled, the status is active; or it
  -- is pending, under the external strategy; or it is waiting, under the delayed one.
  pub reconcile_initial_token-Reported :
      (w : World)
      → c.tm.enabled ≡ true
      → (reconcile_initial_token c w).0 ≡ ok tt
      → IsReported (reconcile_initial_token c w).1
  unfolding reconcile_initial_token
  reconcile_initial_token-Reported w on done =
      if_cases (λ (m : Fallible (Unit {0})). (m w).0 ≡ ok tt → IsReported (m w).1)
        (not c.tm.enabled) _ _ (λ off. ground (arith, on, off))
        (λ _ d. of_post IsReported _ _ d ((on_strategy-Ends c.tm.strategy refl).at w)) done
