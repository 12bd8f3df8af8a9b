-- ===== src/Secrets/Recovery/Restored.antt =====
-- What is backed up in the transit Vault is restored when the Secret of the admin token is lost.
use vault_transit_unseal_ope.Secrets.Recovery.Scoped.{IsScoped, scoped_token-IsScoped}
use vault_transit_unseal_ope.Transit.Backup.RoundTrip.{
  recover_token_from_transit-backup_token_to_transit,
}
use vault_transit_unseal_ope.Transit.Kv.Calm.{IsDurable}
use vault_transit_unseal_ope.Base.{
  ap, ◌∙◌, some, true, refl, List, String, false, none, not, ◌&&◌, ◌==◌, ◌∷◌, ◌≡◌,
}
use vault_transit_unseal_ope.Token.World.{normal}
use vault_transit_unseal_ope.Base.Dict
use vault_transit_unseal_ope.Base.Dict.{Dict}
use vault_transit_unseal_ope.Base.Try
use vault_transit_unseal_ope.Base.Try.{Try, Result, ok, err, bind_on_ok}
use vault_transit_unseal_ope.Secrets.World.{on_transit, tell, Call, Setup, World, NewSecret, ask}
use vault_transit_unseal_ope.Kube.{KubeError, text_at, text_at-put}
use vault_transit_unseal_ope.Secrets.Restore.{
  restore_admin_token, install, on_existing, restored, share_annotations,
}
use vault_transit_unseal_ope.Secrets.Recovery.{
  recover_admin_token, on_admin_status, recover_unsealed, on_backup, scoped_token, uses_backup,
}
use vault_transit_unseal_ope.Secrets.Verifier.{Action}
use vault_transit_unseal_ope.Transit.Backup.{backup_token_to_transit, recover_token_from_transit}

-- The Secret of the action is gone and can be written again.
pub record IsLost (c : Setup) (a : Action) : Type 0 where
  pub reason : KubeError
  pub gone : (h : List Call) → c.env.get_secret h a.namespace a.secret_name ≡ err reason
  pub created : (h : List Call) (s : NewSecret) → c.env.create_secret h s ≡ none
  pub owned : (c.backup.namespace == a.namespace && not c.can_own) ≡ false

module _ (c : Setup) (a : Action) (lost : IsLost c a) where
  -- The last write is a new Secret with the token.
  abbrev pub IsRestored : String → World → Type 0
  IsRestored t w =
      (s : NewSecret) × (h : List Call) × (w.calls
        ≡ Call.event normal "TokenRecovered" ∷ Call.create_secret s ∷ h)
      × (s.namespace ≡ a.namespace)
      × (s.name ≡ a.secret_name)
      × (text_at s.data_of "token" ≡ t)

  install-restores :
      (t : String) (w : World) → ((install c a t w).0 ≡ ok tt) × IsRestored t (install c a t w).1
  unfolding install Try.◌>>=◌ Try.continue Try.lift ask Try.or_error share_annotations tell
  install-restores t w =
      let shared =
        share_annotations c a (c.format_time (c.env.clock w.calls))
          (record w { calls = Call.clock ∷ w.calls }) in
      let s = restored c a t shared.0 (c.backup.namespace == a.namespace) in
      rw (lost.owned, lost.created shared.1.calls s)
        (refl, (s, shared.1.calls, refl, refl, refl, text_at-put Dict.empty "token" "token" t))

  restore-restores :
      (t : String) (w : World)
      → ((restore_admin_token c a t w).0 ≡ ok tt) × IsRestored t (restore_admin_token c a t w).1
  unfolding restore_admin_token on_existing Try.◌>>=◌ Try.continue Try.lift ask
  restore-restores t w = rw (lost.gone w.calls) (install-restores t _)

  -- The backup has given the token.
  given-restores :
      (token : String) (w : World)
      → (token == "") ≡ false
      → let t = (scoped_token c token w).0 in
        ((on_backup c a (ok token) w).0 ≡ ok tt) × IsRestored t (on_backup c a (ok token) w).1
  unfolding on_backup Try.◌>>=◌ Try.continue Try.lift
  given-restores token w e =
      rw e (restore-restores (scoped_token c token w).0 (scoped_token c token w).1)

  unsealed-restores :
      (token : String) (w : World)
      → (token == "") ≡ false
      → uses_backup c ≡ true
      → (recover_token_from_transit c.backup w.transit).0 ≡ ok token
      → let t = (scoped_token c token (on_transit (recover_token_from_transit c.backup) w).1).0 in
        ((recover_unsealed c a w).0 ≡ ok tt) × IsRestored t (recover_unsealed c a w).1
  unfolding recover_unsealed Try.◌>>=◌ Try.continue Try.lift on_transit
  unsealed-restores token w e u r = rw (u, r) (given-restores token _ e)

  status-restores :
      (token : String) (w : World)
      → (token == "") ≡ false
      → uses_backup c ≡ true
      → c.env.check_status w.calls ≡ some (record { initialized = true; sealed = false })
      → (recover_token_from_transit c.backup w.transit).0 ≡ ok token
      → let w' =
          (on_transit
            (recover_token_from_transit c.backup)
            (ask Call.check_status c.env.check_status w).1).1 in
        ((recover_admin_token c a w).0 ≡ ok tt)
        × IsRestored (scoped_token c token w').0 (recover_admin_token c a w).1
  unfolding recover_admin_token on_admin_status Try.◌>>=◌ Try.continue Try.lift ask
  status-restores token w e u st r = rw st (unsealed-restores token _ e u r)

  -- A token that was backed up is restored: if the transit Vault is durable, the backup of a token that
  -- is not empty was reported as written, and recovery from the backup is on, then, whatever happened
  -- to the cluster's API server and Vault since, once the Secret of the admin token is gone and can be
  -- written again and Vault is unsealed, `recoverAdminToken` succeeds, and its last write creates that
  -- Secret with the backed up token or, where tokens are managed, with a scoped token made from it.
  pub recover_admin_token-restores :
      (token : String) (start w : World)
      → IsDurable c.backup.env
      → (backup_token_to_transit c.backup token start.transit).0 ≡ ok tt
      → w.transit ≡ (backup_token_to_transit c.backup token start.transit).1
      → (token == "") ≡ false
      → uses_backup c ≡ true
      → c.env.check_status w.calls ≡ some (record { initialized = true; sealed = false })
      → ((recover_admin_token c a w).0 ≡ ok tt)
        × (t : String) × IsScoped c token t
        × IsRestored t (recover_admin_token c a w).1
  recover_admin_token-restores token start w durable backed kept e u st =
      let read : (recover_token_from_transit c.backup w.transit).0 ≡ ok token =
        ap (λ v. (recover_token_from_transit c.backup v).0) kept
        ∙ recover_token_from_transit-backup_token_to_transit c.backup token durable start.transit
            backed in
      let w' =
        (on_transit (recover_token_from_transit c.backup)
          (ask Call.check_status c.env.check_status w).1).1 in
      let (done, restores) = status-restores token w e u st read in
      (done, (scoped_token c token w').0, scoped_token-IsScoped c token w', restores)
