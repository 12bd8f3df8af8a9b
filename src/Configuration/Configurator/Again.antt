-- ===== src/Configuration/Configurator/Again.antt =====
-- What a second configuration does.
use mathlib.Core.Path.{subst}
use vault_transit_unseal_ope.Base.{
  if_cases, Bool-cases, ap, arith, inl, inr, sym, ◌∙◌, Bool, String, false, not, refl, true, ◌&&◌,
  ◌≡◌,
}
use vault_transit_unseal_ope.Base.Exec
use vault_transit_unseal_ope.Base.Try
use vault_transit_unseal_ope.Base.Exec.{Exec, Keeps, Keeps-if}
use vault_transit_unseal_ope.Base.Try.{
  Result, Try, ok, err, lift, try_rules, Keeps-try, Keeps-lift, Keeps-attempt, Keeps-return,
  Keeps-throw, Keeps-or_fail, Keeps-or_error, Keeps-or_missing, bind_ok, bind_on_ok, ◌>>=◌, ◌>>◌,
}
use vault_transit_unseal_ope.Configuration.World.{
  Setup, World, Call, ConfigureError, Configuring, ConfigurationStatus, ask, set_status,
}
use vault_transit_unseal_ope.Configuration.Configurator.{
  configure, configure_part, configure_kv, configure_external_secrets_operator,
  bootstrap_vault_config_operator, mark_kv, mark_external_secrets, mark_bootstrap, kv_part,
  external_secrets_part, bootstrap_part,
}
use vault_transit_unseal_ope.Configuration.Configurator.Kept.{
  Has, ask-Has, set-Has, external_secrets-Has, bootstrap-Has,
}

abbrev Settled : Bool → (ConfigurationStatus → Bool) → World → Type 0
Settled enabled is_done w = (enabled && not (is_done w.status)) ≡ false

module _ (c : Setup) (enabled : Bool) (is_done : ConfigurationStatus → Bool)
    (work : Configuring (Unit {0}))
    (mark : String → ConfigurationStatus → ConfigurationStatus) where
  -- A settled part does nothing.
  part-idle :
      (w : World)
      → Settled enabled is_done w
      → configure_part c enabled is_done work mark w ≡ (ok tt, w)
  unfolding configure_part Try.return Exec.pure
  part-idle w h = rw h refl

  -- The work, and then the mark
  abbrev worked : Configuring (Unit {0})
  worked = work >> (lift (ask Call.clock c.env.clock) >>= λ time. lift (set_status (mark time)))

  worked-marks :
      (w : World)
      → (worked w).0 ≡ ok tt
      → (t : String) × (s : ConfigurationStatus) × ((worked w).1.status ≡ mark t s)
  unfolding Try.lift set_status ask
  worked-marks w h =
      let (u, first, rest) = bind_ok work _ w h in
      let w' = (work w).1 in
      (
        c.env.clock w'.calls,
        w'.status,
        ap (λ r. r.1.status) rest ∙ unfold Try.◌>>=◌ Try.continue in refl,
      )

  worked-Has :
      (P : ConfigurationStatus → Type 0)
      → Keeps (Has P) work
      → ((t : String) (s : ConfigurationStatus) → P s → P (mark t s))
      → Keeps (Has P) worked
  worked-Has P on_work on_mark = Keeps-try _ _ on_work λ _.
      Keeps-try _ _ (Keeps-lift _ (ask-Has c P _ _))
        λ time. Keeps-lift _ (set-Has P (mark time) (on_mark time))

  -- A part that succeeds is settled.
  part-settles :
      (w : World)
      → ((t : String) (s : ConfigurationStatus) → is_done (mark t s) ≡ true)
      → (configure_part c enabled is_done work mark w).0 ≡ ok tt
      → Settled enabled is_done (configure_part c enabled is_done work mark w).1
  unfolding configure_part
  part-settles w marks h = elim (Bool-cases (enabled && not (is_done w.status))) [
    | inl t ↦
        (let e : configure_part c enabled is_done work mark w ≡ worked w = rw t refl in
          let (time, s, marked) = worked-marks w (ap (λ r. r.0) (sym e) ∙ h) in
          let after : is_done (configure_part c enabled is_done work mark w).1.status ≡ true =
            ap (λ r. is_done r.1.status) e ∙ ap is_done marked ∙ marks time s in
          ground (arith, after))
    | inr f ↦ subst (λ r. Settled enabled is_done r.1) (sym (part-idle w f)) f
  ]

  -- A part leaves what its work and its mark leave.
  part-Has :
      (P : ConfigurationStatus → Type 0)
      → Keeps (Has P) work
      → ((t : String) (s : ConfigurationStatus) → P s → P (mark t s))
      → Keeps (Has P) (configure_part c enabled is_done work mark)
  unfolding configure_part Try.return Exec.pure
  part-Has P on_work on_mark = record {
    at = λ w h.
        if_cases (λ (r : Result ConfigureError (Unit {0}) × World). P r.1.status)
          (enabled && not (is_done w.status)) (worked w) (Try.return tt w)
          (λ _. (worked-Has P on_work on_mark).at w h) (λ _. h);
  }

module _ (c : Setup) where
  abbrev KvSettled : World → Type 0
  KvSettled = Settled c.post_unseal.enable_kv (λ s. s.kv_configured)

  abbrev ExternalSecretsSettled : World → Type 0
  ExternalSecretsSettled =
      Settled c.post_unseal.enable_external_secrets_operator
        (λ s. s.external_secrets_operator_configured)

  abbrev BootstrapSettled : World → Type 0
  BootstrapSettled =
      Settled c.post_unseal.enable_vault_config_operator_bootstrap
        (λ s. s.vault_config_operator_bootstrapped)

  -- Once each enabled part is done, nothing happens.
  settled-idle :
      (w : World)
      → KvSettled w
      → ExternalSecretsSettled w
      → BootstrapSettled w
      → configure c w ≡ (ok tt, w)
  unfolding configure
  settled-idle w k e b =
      let kv =
        part-idle c c.post_unseal.enable_kv (λ s. s.kv_configured) (configure_kv c) mark_kv w k in
      let es =
        part-idle c c.post_unseal.enable_external_secrets_operator
          (λ s. s.external_secrets_operator_configured) (configure_external_secrets_operator c)
          mark_external_secrets w e in
      bind_on_ok (kv_part c) _ w tt (ap (λ r. r.0) kv)
      ∙ ap (λ r. (external_secrets_part c >> bootstrap_part c) r.1) kv
      ∙ bind_on_ok (external_secrets_part c) _ w tt (ap (λ r. r.0) es)
      ∙ ap (λ r. bootstrap_part c r.1) es
      ∙ part-idle c c.post_unseal.enable_vault_config_operator_bootstrap
          (λ s. s.vault_config_operator_bootstrapped) (bootstrap_vault_config_operator c)
          mark_bootstrap w b

  configured-settled :
      (w : World)
      → (configure c w).0 ≡ ok tt
      → let w' = (configure c w).1 in KvSettled w' × ExternalSecretsSettled w' × BootstrapSettled w'
  unfolding configure
  configured-settled w h =
      let (u, kv, rest) = bind_ok (kv_part c) _ w h in
      let w1 = (kv_part c w).1 in
      let (u', es, last) = bind_ok (external_secrets_part c) _ w1 (ap (λ r. r.0) (sym rest) ∙ h) in
      let w2 = (external_secrets_part c w1).1 in
      let whole = rest ∙ last in
      let k1 =
        part-settles c _ (λ s. s.kv_configured) (configure_kv c) mark_kv w (λ t s. refl) kv in
      let e2 =
        part-settles c _ (λ s. s.external_secrets_operator_configured)
          (configure_external_secrets_operator c) mark_external_secrets w1 (λ t s. refl) es in
      let KvDone : ConfigurationStatus → Type 0 =
        λ s. (c.post_unseal.enable_kv && not s.kv_configured) ≡ false in
      let EsDone : ConfigurationStatus → Type 0 = λ s.
        (c.post_unseal.enable_external_secrets_operator
          && not s.external_secrets_operator_configured)
        ≡ false in
      let k2 =
        (part-Has c c.post_unseal.enable_external_secrets_operator
            (λ s. s.external_secrets_operator_configured) (configure_external_secrets_operator c)
            mark_external_secrets KvDone (external_secrets-Has c KvDone) (λ t s p. p)).at
          w1 k1 in
      let boot : (P : ConfigurationStatus → Type 0)
          → ((t : String) (s : ConfigurationStatus) → P s → P (mark_bootstrap t s))
          → P w2.status
          → P (bootstrap_part c w2).1.status =
        λ P m p.
          (part-Has c c.post_unseal.enable_vault_config_operator_bootstrap
              (λ s. s.vault_config_operator_bootstrapped) (bootstrap_vault_config_operator c)
              mark_bootstrap P (bootstrap-Has c P) m).at
            w2 p in
      let b3 =
        part-settles c _ (λ s. s.vault_config_operator_bootstrapped)
          (bootstrap_vault_config_operator c) mark_bootstrap w2 (λ t s. refl)
          (ap (λ r. r.0) (sym whole) ∙ h) in
      subst
        (λ (r : Result ConfigureError (Unit {0}) × World).
          KvSettled r.1 × ExternalSecretsSettled r.1 × BootstrapSettled r.1)
        (sym whole) (boot KvDone (λ t s p. p) k2, boot EsDone (λ t s p. p) e2, b3)

  -- A configuration that succeeded is not done again: `Configure` right after it succeeds too, makes no
  -- call and leaves the status as it is.
  pub configure-configure :
      (w : World)
      → (configure c w).0 ≡ ok tt
      → configure c (configure c w).1 ≡ (ok tt, (configure c w).1)
  configure-configure w h =
      let (k, e, b) = configured-settled w h in settled-idle (configure c w).1 k e b
