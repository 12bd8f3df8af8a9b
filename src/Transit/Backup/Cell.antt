-- ===== src/Transit/Backup/Cell.antt =====
-- The backup as a cell for one token, which is all that its callers need of it.
use mathlib.Core.Path.{subst}
use vault_transit_unseal_ope.Base.{
  sym, List, Option, String, ap, if◌then◌else◌, inl, inr, none, refl, some, ◌==◌, ◌∙◌, ◌≡◌, ◌⊎◌,
}
use vault_transit_unseal_ope.Base.Exec.{Exec}
use vault_transit_unseal_ope.Transit.Backup.{
  ensure_logged, connect, backup_path, Setup, backup_token_to_transit, recover_token_from_transit,
  BackupError, kv_failed,
}
use vault_transit_unseal_ope.Transit.Backup.RoundTrip.{written, recovered, start_on_ok}
use vault_transit_unseal_ope.Transit.Kv.Calm.{ensure-Calm, IsDurable, stored, left_by}
use vault_transit_unseal_ope.Transit.Kv.{
  ensure_kv_enabled, write_token, read_token, get_data_path, writing,
}
use vault_transit_unseal_ope.Transit.World.{World, Call, ask}
use vault_transit_unseal_ope.Token.World.{VaultError}
use vault_transit_unseal_ope.Base.Exec
use vault_transit_unseal_ope.Base.Try.{
  Result, Try, ok, err, bind_on_ok, continue, wrapped, unfailed, or_fail, or_error, ◌>>=◌, ◌>>◌,
}
use text.Mathlib.TextEquality.{eq_iff}

-- `keep` and `recall` implement a cell that holds a token or nothing that is known.
pub record IsCell {W E : Type 0} (keep : String → Try W E (Unit {0})) (recall : Try W E String)
    (cell : W → Option String) : Type 0 where
  pub kept : (t : String) (w : W) → (keep t w).0 ≡ ok tt → cell (keep t w).1 ≡ some t
  pub refused :
      (t : String) (w : W) (e : E)
      → (keep t w).0 ≡ err e
      → (cell (keep t w).1 ≡ cell w) ⊎ (cell (keep t w).1 ≡ none)
  pub recalled : (t : String) (w : W) → cell w ≡ some t → (recall w).0 ≡ ok t
  pub unchanged : (w : W) → cell (recall w).1 ≡ cell w

module _ (c : Setup) (durable : IsDurable c.env) (connected : connect c ≡ ok tt) where
  abbrev pub known_token : World → Option String
  known_token w = stored c.env (get_data_path (backup_path c)) w.calls

  Settles : Option String → World → Type 0
  Settles cell w = (known_token w ≡ cell) ⊎ (known_token w ≡ none)

  refused-left :
      (t : String) (h : List Call) (o : Option VaultError) (e : BackupError)
      → wrapped kv_failed (unfailed writing o) ≡ err e
      → (if get_data_path (backup_path c) == get_data_path (backup_path c)
          then left_by t o
          else stored c.env (get_data_path (backup_path c)) h)
        ≡ none
  refused-left t h none e r = cc
  refused-left t h (some o) e r =
      rw ((eq_iff (get_data_path (backup_path c)) (get_data_path (backup_path c))).1 refl) refl

  write-refused :
      (t : String) (w : World) (e : BackupError)
      → (or_fail kv_failed (write_token c.env (backup_path c) t) w).0 ≡ err e
      → known_token (or_fail kv_failed (write_token c.env (backup_path c) t) w).1 ≡ none
  unfolding or_fail write_token or_error ask
  write-refused t w e r =
      refused-left t w.calls (c.env.write w.calls (get_data_path (backup_path c)) t) e r

  chain-refused :
      (t : String) (r : Result BackupError (Unit {0})) (w : World) (cell : Option String)
      (e : BackupError)
      → known_token w ≡ cell
      → (continue (λ u. or_fail kv_failed (write_token c.env (backup_path c) t)) r w).0 ≡ err e
      → (known_token (continue (λ u. or_fail kv_failed (write_token c.env (backup_path c) t)) r w).1
          ≡ cell)
        ⊎ (known_token
              (continue (λ u. or_fail kv_failed (write_token c.env (backup_path c) t)) r w).1
            ≡ none)
  unfolding continue Exec.pure
  chain-refused t (err x) w cell e s h = inl s
  chain-refused t (ok u) w cell e s h = inr (write-refused t w e h)

  backup-refused :
      (t : String) (w : World) (e : BackupError)
      → (backup_token_to_transit c t w).0 ≡ err e
      → (known_token (backup_token_to_transit c t w).1 ≡ known_token w)
        ⊎ (known_token (backup_token_to_transit c t w).1 ≡ none)
  unfolding backup_token_to_transit ◌>>=◌ or_fail
  backup-refused t w e h =
      let write = or_fail kv_failed (write_token c.env (backup_path c) t) in
      let begun =
        start_on_ok c (connect c) (or_fail kv_failed (ensure_kv_enabled c.env) >> write) w
          connected in
      let calm =
        (ensure-Calm c.env durable (get_data_path (backup_path c)) (known_token w)).at w refl in
      let (mounted, later) = or_fail kv_failed (ensure_kv_enabled c.env) w in
      subst
        (λ (r : Result BackupError (Unit {0}) × World).
          (known_token r.1 ≡ known_token w) ⊎ (known_token r.1 ≡ none))
        (sym begun)
        (chain-refused t mounted later (known_token w) e calm.0 (sym (ap (λ r. r.0) begun) ∙ h))

  recover-unchanged : (w : World) → known_token (recover_token_from_transit c w).1 ≡ known_token w
  unfolding recover_token_from_transit or_fail ensure_logged read_token ask
  recover-unchanged w =
      let calm =
        (ensure-Calm c.env durable (get_data_path (backup_path c)) (known_token w)).at w refl in
      ap (λ r. known_token r.1)
        (start_on_ok c (connect c) _ w connected ∙ bind_on_ok _ _ w tt (rw calm.1 refl))
      ∙ calm.0

  -- The backup in a durable transit Vault that can be connected to implements a cell for a token. A
  -- backup that succeeds fills the cell with its token; one that fails leaves the cell as it was, or
  -- with nothing that is known. The recovery returns the token in the cell, if one is known, and leaves
  -- the cell as it is.
  pub backup_token_to_transit-IsCell :
      IsCell (backup_token_to_transit c) (recover_token_from_transit c) known_token
  backup_token_to_transit-IsCell = record {
    kept = λ t w h. (written c t durable w h).1;
    refused = backup-refused;
    recalled = λ t w h. recovered c t durable w h connected;
    unchanged = recover-unchanged;
  }
