-- ===== src/Token/Initial/Scoped/Allowed.antt =====
-- `CreateScopedTokenFromRoot` returns a fresh token, and revokes the root token only as allowed.
use vault_transit_unseal_ope.Base.{
  Bool, List, String, [], arith, false, not, refl, some, sym, true, ◌∷◌, ◌≡◌,
}
use vault_transit_unseal_ope.Base.Exec.{Exec, Keeps}
use vault_transit_unseal_ope.Base.Gives.{
  Any, Gives, Gives-bind, Gives-if, Gives-lift, Gives-return, Gives-throw, weaken,
}
use vault_transit_unseal_ope.Token.Initial.Allowed.{
  policy-Gives, Accepted, Fresh, Gives-both, Gives-map, HasToken, IsFine, Keeps-ask_token,
  Keeps-from, Keeps-under_token, MayRevoke, ask-Gives, create-Gives, validate-Gives,
}
use vault_transit_unseal_ope.Token.Mint.{call_create}
use vault_transit_unseal_ope.Token.World.{Call, Pod, Setup, TokenRequest, ask, set_token}
use vault_transit_unseal_ope.Base.Try.{Keeps-or_missing, Keeps-try, or_error, or_missing}
use vault_transit_unseal_ope.Base.Exec
use vault_transit_unseal_ope.Token.Initial.Client.{
  Fallible, InitialError, ensure_policy, get_vault_pods, keeping_token, under, revoke_self,
  new_client,
}
use vault_transit_unseal_ope.Token.Initial.Scoped.{
  create_scoped_token, created, first_pod, from, validate_scoped, with_root, revoke_root, first_of,
}
use mathlib.Core.Path.{subst}

first_of-Gives : (c : Setup) (pods : List Pod) → Gives (IsFine c) (first_of pods) Any
unfolding first_of
first_of-Gives c [] = Gives-throw InitialError.no_pods
first_of-Gives c (p ∷ ps) = Gives-return p tt

module _ (c : Setup) where
  pub first_pod-Gives : Gives (IsFine c) (first_pod c) Any
  unfolding first_pod get_vault_pods
  first_pod-Gives =
      Gives-bind _ _ (ask-Gives c InitialError.list_failed Call.list_pods c.env.list_pods tt)
        (λ pods _. first_of-Gives c pods)

  pub new_client-Gives :
      {E : Type 0} (e : E) (pod : Pod) → Gives (IsFine c) (or_missing e (new_client c pod)) Any
  unfolding or_missing new_client ask
  new_client-Gives e pod = record { at = λ w t. ((tt, t), weaken _) }

  validate_scoped-Gives :
      (pod : Pod) (token : String)
      → Gives (IsFine c) (validate_scoped c pod token) (λ info. Accepted c token)
  unfolding validate_scoped
  validate_scoped-Gives pod token =
      Gives-bind _ _ (new_client-Gives InitialError.client_failed pod)
        (λ own _. Gives-map _ (validate-Gives c own token) (λ info a. (a.0, some info, a.1)))

  validate_scoped-HasToken :
      (t token : String) (pod : Pod) → Keeps (HasToken t) (validate_scoped c pod token)
  unfolding validate_scoped new_client
  validate_scoped-HasToken t token pod =
      search (Keeps-try, Keeps-or_missing, Keeps-ask_token, Keeps-from, Keeps-under_token)

  policy-HasToken :
      (t : String) → Keeps (HasToken t) (or_error InitialError.policy_failed (ensure_policy c))
  unfolding or_error ensure_policy ask
  policy-HasToken t = record { at = λ w h. h }

  create-HasToken :
      (t : String) (q : TokenRequest) → Keeps (HasToken t) (from created (call_create c q))
  unfolding from call_create ask
  create-HasToken t q = record { at = λ w h. h }

  revoke_root-Keeps :
      (revoke : Bool) (root : String)
      → (revoke ≡ true → MayRevoke c root)
      → Keeps (λ w. IsFine c w × HasToken root w) (revoke_root c revoke)
  unfolding revoke_root revoke_self ask
  revoke_root-Keeps false root may = record { at = λ w h. h }
  revoke_root-Keeps true root may = record {
    at = λ w h. ((subst (MayRevoke c) (sym h.1) (may refl), h.0), h.1);
  }

  -- The root token may be revoked once a fresh token is there.
  abbrev pub MayWhenFresh : Bool → String → Type 0
  MayWhenFresh revoke root = (t : String) → Fresh c t → revoke ≡ true → MayRevoke c root

  with_root-Gives :
      (pod : Pod) (revoke : Bool) (root : String)
      → MayWhenFresh revoke root
      → Gives (λ w. IsFine c w × HasToken root w) (with_root c pod revoke) (Fresh c)
  unfolding with_root
  with_root-Gives pod revoke root may =
      Gives-bind _ _ (Gives-both _ (policy-Gives c) (policy-HasToken root)) λ _ _.
        Gives-bind _ _ (Gives-both _ (create-Gives c _) (create-HasToken root _)) λ auth made.
          Gives-bind _ _
            (Gives-both _ (validate_scoped-Gives pod auth.client_token)
              (validate_scoped-HasToken root auth.client_token pod))
            λ _ accepted.
              let fresh : Fresh c auth.client_token = ((auth, made, refl), accepted) in
              Gives-bind _ _
                (Gives-lift _ (revoke_root-Keeps revoke root (may auth.client_token fresh)))
                (λ _ _. Gives-return auth.client_token fresh)

  under_root :
      (own root : String) (m : Fallible String)
      → Gives (λ w. IsFine c w × HasToken root w) m (Fresh c)
      → Gives (IsFine c) (under own (under root m)) (Fresh c)
  unfolding under keeping_token set_token Exec.◌>>=◌
  under_root own root m g = record {
    at = λ w h.
        let after = g.at (record w { client_token = root }) (h, refl) in (after.0.0, after.1);
  }

  pub create_scoped_token-Gives :
      (root : String) (revoke : Bool)
      → c.tm.enabled ≡ true
      → MayWhenFresh revoke root
      → Gives (IsFine c) (create_scoped_token c root revoke) (Fresh c)
  unfolding create_scoped_token
  create_scoped_token-Gives root revoke on may =
      Gives-if (not c.tm.enabled) _ _ (λ off. ground (arith, on, off))
        λ _. Gives-bind _ _ first_pod-Gives λ pod _.
          Gives-bind _ _ (new_client-Gives InitialError.client_failed pod)
            λ own _. under_root own root _ (with_root-Gives pod revoke root may)
