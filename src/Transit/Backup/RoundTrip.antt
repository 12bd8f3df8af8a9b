-- ===== src/Transit/Backup/RoundTrip.antt =====
-- What is backed up is recovered.
use vault_transit_unseal_ope.Token.World.{VaultError}
use vault_transit_unseal_ope.Base.{
  List, Option, ap, if◌then◌else◌, none, sym, ◌==◌, ◌∙◌, String, refl, some, ◌≡◌,
}
use vault_transit_unseal_ope.Transit.Kv.{
  ensure_kv_enabled, writing, get_data_path, read_token, write_token,
}
use vault_transit_unseal_ope.Transit.Kv.Calm.{left_by, ensure-Calm, IsDurable, stored}
use vault_transit_unseal_ope.Transit.World.{Call, World, ask}
use vault_transit_unseal_ope.Transit.Backup.{
  start, ensure_logged, connect, backup_path, Setup, backup_token_to_transit,
  recover_token_from_transit, BackupError, kv_failed,
}
use text.Mathlib.TextEquality.{eq_iff}
use mathlib.Core.Path.{subst}
use vault_transit_unseal_ope.Base.Try.{
  Try, bind_ok, bind_on_ok, unfailed, wrapped_ok, or_error, or_fail, Result, ok, err,
}

module _ (c : Setup) where
  start_ok :
      {A : Type 0} (r : Result BackupError (Unit {0})) (m : Try World BackupError A) (w : World)
      {a : A}
      → (start c r m w).0 ≡ ok a
      → (r ≡ ok tt) × (start c r m w ≡ m w)
  unfolding start
  start_ok (ok u) m w h = (refl, refl)
  start_ok (err e) m w h = cc

  pub start_on_ok :
      {A : Type 0} (r : Result BackupError (Unit {0})) (m : Try World BackupError A) (w : World)
      → r ≡ ok tt
      → start c r m w ≡ m w
  unfolding start
  start_on_ok (ok u) m w h = refl
  start_on_ok (err e) m w h = cc

module _ (c : Setup) (token : String) (durable : IsDurable c.env) where
  abbrev Kept : World → Type 0
  Kept w = stored c.env (get_data_path (backup_path c)) w.calls ≡ some token

  read-kept : (w : World) → Kept w → (read_token c.env (backup_path c) w).0 ≡ ok token
  unfolding read_token ask
  read-kept w h = rw (durable.gives w.calls (get_data_path (backup_path c)) token h) refl

  accepted-Kept :
      (h : List Call) (o : Option VaultError)
      → unfailed writing o ≡ ok tt
      → (if get_data_path (backup_path c) == get_data_path (backup_path c)
          then left_by token o
          else stored c.env (get_data_path (backup_path c)) h)
        ≡ some token
  accepted-Kept h none e =
      rw ((eq_iff (get_data_path (backup_path c)) (get_data_path (backup_path c))).1 refl) refl
  accepted-Kept h (some o) e = cc

  pub write-Kept :
      (w : World)
      → (write_token c.env (backup_path c) token w).0 ≡ ok tt
      → Kept (write_token c.env (backup_path c) token w).1
  unfolding write_token ask or_error
  write-Kept w h =
      accepted-Kept w.calls (c.env.write w.calls (get_data_path (backup_path c)) token) h

  pub recovered :
      (w : World) → Kept w → connect c ≡ ok tt → (recover_token_from_transit c w).0 ≡ ok token
  unfolding recover_token_from_transit or_fail ensure_logged
  recovered w h k =
      let calm = (ensure-Calm c.env durable (get_data_path (backup_path c)) (some token)).at w h in
      let later = (ensure_kv_enabled c.env w).1 in
      ap (λ r. r.0) (start_on_ok c (connect c) _ w k ∙ bind_on_ok _ _ w tt (rw calm.1 refl))
      ∙ rw (read-kept later calm.0) refl

  pub written :
      (w : World)
      → (backup_token_to_transit c token w).0 ≡ ok tt
      → (connect c ≡ ok tt) × Kept (backup_token_to_transit c token w).1
  unfolding backup_token_to_transit or_fail
  written w h =
      let (k, begun) = start_ok c (connect c) _ w h in
      let (u, mounted, rest) = bind_ok _ _ w (sym (ap (λ r. r.0) begun) ∙ h) in
      let later = (ensure_kv_enabled c.env w).1 in
      let done =
        wrapped_ok kv_failed (write_token c.env (backup_path c) token later).0
          (sym (ap (λ r. r.0) (begun ∙ rest)) ∙ h) in
      (k, subst (λ r. Kept r.1) (sym (begun ∙ rest)) (write-Kept later done))

  -- If the transit Vault gives back what is known to be at a path and answers a tune read with options,
  -- then a token that the reconciler's backup reports as written is the one that the recovery reads
  -- next, whatever the history of calls before.
  pub recover_token_from_transit-backup_token_to_transit :
      (w : World)
      → (backup_token_to_transit c token w).0 ≡ ok tt
      → (recover_token_from_transit c (backup_token_to_transit c token w).1).0 ≡ ok token
  recover_token_from_transit-backup_token_to_transit w h =
      let (k, kept) = written w h in recovered (backup_token_to_transit c token w).1 kept k
