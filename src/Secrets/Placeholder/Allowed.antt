-- ===== src/Secrets/Placeholder/Allowed.antt =====
-- The placeholders and the marks of incomplete Secrets are allowed.
use mathlib.Core.Path.{subst}
use vault_transit_unseal_ope.Base.{
  Option, none, some, ◌∙◌, ◌∷◌, ◌≡◌, if_cases, String, inl, inr, refl, sym, ◌==◌,
}
use vault_transit_unseal_ope.Base.Exec.{Exec, Keeps}
use vault_transit_unseal_ope.Token.World.{warning}
use vault_transit_unseal_ope.Base.Dict
use vault_transit_unseal_ope.Base.Dict.{Dict}
use vault_transit_unseal_ope.Base.Exec
use vault_transit_unseal_ope.Base.Try
use vault_transit_unseal_ope.Base.Try.{
  Result, Try, ok, err, lift, or_error, throw, return, Keeps-lift, Keeps-try, Keeps-throw,
  Keeps-or_error, ◌>>=◌, ◌>>◌,
}
use vault_transit_unseal_ope.Base.Gives.{Holds}
use vault_transit_unseal_ope.Secrets.World.{
  Call, Setup, World, NewSecret, RecoveryError, ask, tell, now, write_secret,
}
use vault_transit_unseal_ope.Secrets.Placeholder.{
  mark_incomplete, create_placeholder, create_owned, with_owner, placeholder, placeholder_token,
  placeholder_data, create_recovery_placeholder, recover_transit_token, update_incomplete_secret,
  incomplete_marks,
}
use vault_transit_unseal_ope.Secrets.Trace.{AreAllowed, Fine, IsInert, ask-Fine}
use vault_transit_unseal_ope.Secrets.Verifier.{Action}
use vault_transit_unseal_ope.Kube.{KubeError, Secret, text_at, text_at-put}

module _ (c : Setup) where
  pub now-Fine : Keeps (Fine c) (now c)
  now-Fine = ask-Fine c Call.clock _ (λ h. tt)

  create_owned-Fine :
      (r : Result RecoveryError NewSecret)
      → Holds (λ (s : NewSecret). IsInert (text_at s.data_of "token")) r
      → Keeps (Fine c) (create_owned c r)
  unfolding create_owned
  create_owned-Fine (err e) i = Keeps-throw e
  create_owned-Fine (ok s) i = Keeps-or_error _ _ (ask-Fine c (Call.create_secret s) _ (λ h. inl i))

  with_owner-Holds :
      (s : NewSecret)
      → IsInert (text_at s.data_of "token")
      → Holds (λ (s : NewSecret). IsInert (text_at s.data_of "token")) (with_owner c s)
  with_owner-Holds s i =
      if_cases (Holds (λ (s : NewSecret). IsInert (text_at s.data_of "token")))
        (c.backup.namespace == s.namespace) _ _
        (λ _.
          if_cases (Holds (λ (s : NewSecret). IsInert (text_at s.data_of "token"))) c.can_own _ _
            (λ _. i) (λ _. tt))
        (λ _. i)

  create_placeholder-Fine :
      (a : Action) (texts : Dict String) (reason : String)
      → IsInert (text_at texts "token")
      → Keeps (Fine c) (create_placeholder c a texts reason)
  unfolding create_placeholder
  create_placeholder-Fine a texts reason i = Keeps-try _ _ (Keeps-lift _ now-Fine) λ time.
      create_owned-Fine (with_owner c (placeholder c a texts reason time))
        (with_owner-Holds (placeholder c a texts reason time) i)

  transit-IsInert :
      (key : String)
      → IsInert (text_at (Dict.put Dict.empty key "PLACEHOLDER-REQUIRES-MANUAL-RECOVERY") "token")
  unfolding Dict.get Dict.empty
  transit-IsInert key =
      subst IsInert
        (sym (text_at-put Dict.empty key "token" "PLACEHOLDER-REQUIRES-MANUAL-RECOVERY"))
        (if_cases IsInert (key == "token") "PLACEHOLDER-REQUIRES-MANUAL-RECOVERY" ""
          (λ _. inr (inr refl)) (λ _. inl refl))

  pub recover_transit_token-Fine : (a : Action) → Keeps (Fine c) (recover_transit_token c a)
  unfolding recover_transit_token
  recover_transit_token-Fine a =
      Keeps-try _ _ (create_placeholder-Fine a _ _ (transit-IsInert c.spec.transit_secret_key))
        λ _. Keeps-throw _

  placeholder_data-IsInert :
      (a : Action) (reason : String) → IsInert (text_at (placeholder_data c a reason) "token")
  unfolding Dict.get Dict.empty
  placeholder_data-IsInert a reason =
      if_cases (λ (m : Dict String). IsInert (text_at m "token"))
        (a.secret_name == c.spec.initialization.secret_names.admin_token) _ _
        (λ _. inr (
          inl (
            text_at-put _ "recovery-instructions.txt" "token" reason
            ∙ text_at-put _ "token" "token" placeholder_token)))
        (λ _. inl (
          text_at-put Dict.empty "placeholder" "token"
            "RECOVERY-REQUIRED: See recovery-instructions.txt"))

  pub create_recovery_placeholder-Fine :
      (a : Action) (reason : String) → Keeps (Fine c) (create_recovery_placeholder c a reason)
  unfolding create_recovery_placeholder
  create_recovery_placeholder-Fine a reason =
      create_placeholder-Fine a _ _ (placeholder_data-IsInert a reason)

  told-Fine :
      (o : Option KubeError) (w : World)
      → AreAllowed c w.calls
      → AreAllowed c
          (Try.continue
            (λ _. lift (tell (Call.event warning "IncompleteSecret")))
            (Try.unfailed RecoveryError.updating o)
            w).1.calls
  unfolding Try.continue Exec.pure Try.lift tell
  told-Fine (some e) w h = h
  told-Fine none w h = (tt, h)

  -- After the read
  marked-Fine :
      (a : Action) (r : Result KubeError Secret) (w : World)
      → c.env.get_secret w.calls a.namespace a.secret_name ≡ r
      → AreAllowed c w.calls
      → AreAllowed c
          (Try.continue
            (mark_incomplete c a)
            (Try.wrapped RecoveryError.getting r)
            (record w { calls = Call.get_secret a.namespace a.secret_name ∷ w.calls })).1.calls
  unfolding mark_incomplete Try.◌>>=◌ Try.continue ask Try.lift Try.or_error Exec.pure
  marked-Fine a (err e) w r h = (tt, h)
  marked-Fine a (ok s) w r h =
      let read : World = record w { calls = Call.get_secret a.namespace a.secret_name ∷ w.calls } in
      let (time, later) = now c read in
      let (o, updated) =
        write_secret c a.namespace a.secret_name
          (record s { annotations = incomplete_marks (c.describe a) time s.annotations }) later in
      told-Fine o updated ((s, inr (inl (refl, r)), refl), (tt, (tt, h)))

  pub update_incomplete_secret-Fine : (a : Action) → Keeps (Fine c) (update_incomplete_secret c a)
  unfolding update_incomplete_secret Try.◌>>=◌ Try.or_fail ask
  update_incomplete_secret-Fine a = record {
    at = λ w h. marked-Fine a (c.env.get_secret w.calls a.namespace a.secret_name) w refl h;
  }
