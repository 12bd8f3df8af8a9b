-- ===== src/Secrets/Restore/Allowed.antt =====
-- The restore of the admin token is allowed, if the token to be restored is trusted.
use mathlib.Core.Path.{subst}
use vault_transit_unseal_ope.Base.{
  ◌==◌, ◌∙◌, if_cases, Bool, Bool-cases, Option, String, inl, inr, none, refl, some, sym, ◌∷◌, ◌≡◌,
}
use vault_transit_unseal_ope.Token.World.{normal}
use vault_transit_unseal_ope.Base.Dict
use vault_transit_unseal_ope.Base.Dict.{Dict}
use vault_transit_unseal_ope.Base.Exec
use vault_transit_unseal_ope.Base.Exec.{Exec, Keeps, Keeps-if}
use vault_transit_unseal_ope.Base.Try
use vault_transit_unseal_ope.Base.Try.{
  Result, Try, ok, err, lift, attempt, or_error, throw, return, Keeps-lift, Keeps-try, Keeps-throw,
  Keeps-return, Keeps-or_error, ◌>>=◌, ◌>>◌,
}
use vault_transit_unseal_ope.Secrets.World.{
  Call, Setup, World, RecoveryError, ask, tell, drop_secret, Recovering,
}
use vault_transit_unseal_ope.Secrets.Restore.{
  is_marked, without_incomplete, without_placeholder, cleaned, install, restore_admin_token,
  on_existing, cleanup_mixed_state_secret, share_annotations, share, restored, token_text,
  looks_valid, has_placeholder, needs_cleaning,
}
use vault_transit_unseal_ope.Secrets.Trace.{
  AreAllowed, Fine, IsTrusted, WasRead, ask-Fine, tell-Fine,
}
use vault_transit_unseal_ope.Secrets.Verifier.{Action}
use vault_transit_unseal_ope.Kube.{KubeError, Secret, text_at, text_at-put, text_at-remove}

-- Cleaning leaves the token.
cleaned-token_text : (s : Secret) → token_text (cleaned s) ≡ token_text s
unfolding cleaned
cleaned-token_text s =
    let t = without_placeholder s in
    let u = without_incomplete t in
    if_cases (λ (r : Secret). token_text r ≡ token_text u)
      (is_marked "vault.homelab.io/recovery-required" u) _ u (λ _. refl) (λ _. refl)
    ∙ if_cases (λ (r : Secret). token_text r ≡ token_text t)
        (is_marked "vault.homelab.io/incomplete" t) _ t (λ _. refl) (λ _. refl)
    ∙ if_cases (λ (r : Secret). token_text r ≡ token_text s) (has_placeholder s) _ s
        (λ _. text_at-remove s.data_of "placeholder" "token") (λ _. refl)

module _ (c : Setup) (a : Action) where
  shared-Fine : (time : String) (o : Option (Dict String)) → Keeps (Fine c) (share c a time o)
  unfolding share
  shared-Fine time none = record { at = λ w h. h }
  shared-Fine time (some m) = record { at = λ w h. h }

  share-Fine : (time : String) → Keeps (Fine c) (share_annotations c a time)
  unfolding share_annotations
  share-Fine time = record { at = λ w h. (shared-Fine time w.admin_token_annotations).at w h }

  restored-IsTrusted :
      (token : String) (marks : Dict String) (b : Bool)
      → IsTrusted c token
      → IsTrusted c (text_at (restored c a token marks b).data_of "token")
  restored-IsTrusted token marks b t =
      subst (IsTrusted c) (sym (text_at-put Dict.empty "token" "token" token)) t

  module _ (token : String) (trusted : IsTrusted c token) where
    install-Fine : Keeps (Fine c) (install c a token)
    unfolding install
    install-Fine = Keeps-try _ _ (Keeps-lift _ (ask-Fine c Call.clock _ (λ h. tt))) λ time.
        Keeps-try _ _ (Keeps-lift _ (share-Fine time)) λ marks.
          Keeps-try _ _
            (Keeps-if _ _ _ (Keeps-throw _) (
              Keeps-or_error _ _ (
                ask-Fine c (Call.create_secret _) _ (λ h.
                  inr
                    (restored-IsTrusted token marks (c.backup.namespace == a.namespace) trusted)))))
            λ _. Keeps-lift _ (tell-Fine c (Call.event normal "TokenRecovered") (λ h. tt))

    -- After the read of a Secret
    cleanup-Fine :
        (s : Secret) (w : World)
        → AreAllowed c w.calls
        → WasRead c a.namespace a.secret_name s w.calls
        → AreAllowed c (cleanup_mixed_state_secret c a s w).1.calls
    unfolding cleanup_mixed_state_secret Try.or_error ask Try.return Exec.pure
    cleanup-Fine s w h r =
        if_cases (λ (m : Recovering (Unit {0})). AreAllowed c (m w).1.calls) (needs_cleaning s) _ _
          (λ _. ((s, r, cleaned-token_text s), h)) (λ _. h)

    dropped-Fine :
        (o : Option KubeError) (w : World)
        → AreAllowed c w.calls
        → AreAllowed c
            (Try.continue
              (λ _. lift (tell Call.sleep) >> install c a token)
              (Try.unfailed RecoveryError.deleting o)
              w).1.calls
    unfolding Try.continue Exec.pure
    dropped-Fine (some e) w h = h
    dropped-Fine none w h =
        (Keeps-try _ _ (Keeps-lift _ (tell-Fine c Call.sleep (λ h. tt))) (λ _. install-Fine)).at w h

    existing-Fine :
        (r : Result KubeError Secret) (w : World)
        → c.env.get_secret w.calls a.namespace a.secret_name ≡ r
        → AreAllowed c w.calls
        → AreAllowed c
            (on_existing c a token r
              (record w { calls = Call.get_secret a.namespace a.secret_name ∷ w.calls })).1.calls
    unfolding on_existing Try.◌>>=◌ Try.continue Try.lift Try.attempt Try.return Exec.pure
        Try.or_error ask
    existing-Fine (err e) w r h = install-Fine.at _ (tt, h)
    existing-Fine (ok s) w r h =
        let read : World = record w {
          calls = Call.get_secret a.namespace a.secret_name ∷ w.calls;
        } in
        let (o, rid) = drop_secret c a.namespace a.secret_name read in
        elim (Bool-cases (looks_valid (token_text s))) [
          | inl v ↦ rw v (cleanup-Fine s read (tt, h) (inl (refl, r)))
          | inr v ↦ rw v (dropped-Fine o rid ((s, w.calls, refl, r, v), (tt, h)))
        ]

    pub restore_admin_token-Fine : Keeps (Fine c) (restore_admin_token c a token)
    unfolding restore_admin_token Try.◌>>=◌ Try.continue Try.lift ask
    restore_admin_token-Fine = record {
      at = λ w h. existing-Fine (c.env.get_secret w.calls a.namespace a.secret_name) w refl h;
    }
