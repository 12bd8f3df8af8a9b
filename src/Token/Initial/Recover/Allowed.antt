-- ===== src/Token/Initial/Recover/Allowed.antt =====
-- The recoveries install only a backup that Vault accepts and the ledger does not retire, or a fresh
-- token.
use vault_transit_unseal_ope.Base.Text.{trim_space}
use vault_transit_unseal_ope.Token.Mint.{call_lookup_self}
use vault_transit_unseal_ope.Base.Dict
use vault_transit_unseal_ope.Base.{
  ap, none, List, Option, inl, inr, not, refl, some, sym, ◌==◌, Bool, String, arith, true, ◌∙◌, ◌≡◌,
  ◌⊎◌,
}
use vault_transit_unseal_ope.Base.Dict.{Dict}
use vault_transit_unseal_ope.Base.Exec.{
  Triple, Triple-if, Exec, Keeps, Keeps-bind, Keeps-if, Keeps-pure,
}
use vault_transit_unseal_ope.Base.Gives.{
  Holds, Keeps-attempt_of, Any, Gives, Gives-Any, Gives-bind, Gives-if, Gives-lift, Gives-return,
  Gives-throw, weaken,
}
use vault_transit_unseal_ope.Kube.{Secret, text_at-put}
use vault_transit_unseal_ope.Token.Backoff.{get_admin_secret, update}
use vault_transit_unseal_ope.Token.Initial.Allowed.{
  Allowed, Keeps-set_status, ask-Gives, read-Gives, Backed, Fresh, IsFine,
}
use vault_transit_unseal_ope.Token.Initial.Client.{
  accessor_in, keeping_token, under, find_ready_vault_pod, get_vault_pods,
}
use vault_transit_unseal_ope.Token.Initial.Scoped.Allowed.{new_client-Gives}
use vault_transit_unseal_ope.Token.Ledger.{ledger_annotation, read_ledger}
use vault_transit_unseal_ope.Token.Trace.{Keeps-ask, Keeps-tell}
use vault_transit_unseal_ope.Token.Tracked.{token_of}
use vault_transit_unseal_ope.Token.World.{
  LedgerEntry, Value, VaultError, ask, set_token, Call, Setup, warning,
}
use vault_transit_unseal_ope.Base.Exec
use mathlib.Core.Path.{subst}
use vault_transit_unseal_ope.Token.Ledger.{parse_ledger}
use vault_transit_unseal_ope.Base.Try.{
  Result, err, ok, or_fail, wrapped, Keeps-or_fail, Keeps-or_missing,
}
use vault_transit_unseal_ope.Token.Initial.Recover.{
  try_recover_from_transit_backup, healed, is_unretired, ready_client, check_retired,
  install_healed, recover_from_backup, backup_is_on, when_true,
}

healed-token :
    (s : Secret) (token now origin : String) → token_of (healed s token now origin) ≡ token
healed-token s token now origin = text_at-put s.data_of "token" "token" token ∙ ground arith

healed-get :
    (s : Secret) (token now origin : String)
    → Dict.get (healed s token now origin).annotations ledger_annotation
      ≡ Dict.get s.annotations ledger_annotation
healed-get s token now origin = simp (Dict.get-put, Dict.get-remove)

-- The ledger is kept as it is.
healed-ledger :
    (c : Setup) (s : Secret) (token now origin : String)
    → read_ledger c (healed s token now origin) ≡ read_ledger c s
unfolding read_ledger
healed-ledger c s token now origin =
    let read : Option String → Option (List LedgerEntry) =
      λ o. parse_ledger c (trim_space (elim o [ none ↦ "" | some v ↦ v ])) in
    ap read (healed-get s token now origin)

by_token :
    (c : Setup) (s : Secret) (token : String)
    → token_of s ≡ token
    → Fresh c token ⊎ Backed c s
    → Allowed c (Call.update_secret s)
by_token c s token e (inl f) = inl (subst (Fresh c) (sym e) f)
by_token c s token e (inr backed) = inr backed

module _ (c : Setup) where
  pub ready-Gives : Gives (IsFine c) (ready_client c) Any
  unfolding ready_client find_ready_vault_pod get_vault_pods
  ready-Gives =
      Gives-bind _ _
        (Gives-Any _ (
          Keeps-or_missing _ _ (
            Keeps-if _ _ _ (Keeps-pure _)
              (Keeps-bind _ _ (Keeps-ask Call.list_pods c.env.list_pods tt) (λ ps. Keeps-pure _)))))
        (λ pod _. new_client-Gives c tt pod)

  pub when-Gives : (b : Bool) → Gives (IsFine c) (when_true b) Any
  when-Gives b = record { at = λ w h. (h, weaken _) }

  check_retired-Gives :
      (s : Secret) (a : String)
      → Gives (IsFine c) (check_retired c s a) (λ u. is_unretired (read_ledger c s) a ≡ true)
  unfolding check_retired
  check_retired-Gives s a =
      Gives-if (is_unretired (read_ledger c s) a) _ _ (λ t. Gives-return tt t)
        λ _.
          Gives-bind _ _ (Gives-lift _ (Keeps-tell (Call.event warning "TokenRecoverySkipped") tt))
            (λ _ _. Gives-throw tt)

  pub install-Gives :
      (s : Secret) (token origin : String)
      → ((now : String) → Fresh c token ⊎ Backed c (healed s token now origin))
      → Gives (IsFine c) (install_healed c s token origin) Any
  unfolding install_healed update
  install-Gives s token origin may =
      Gives-bind _ _ (Gives-lift _ (Keeps-ask Call.clock c.env.clock tt)) λ now _.
        Gives-bind _ _
          (Gives-Any _ (
            Keeps-or_fail _ _ (
              Keeps-bind _ _
                (Keeps-ask (Call.update_secret (healed s token (c.codec.format_time now) origin)) _
                  (by_token c _ token (healed-token s token (c.codec.format_time now) origin)
                    (may (c.codec.format_time now))))
                (λ r. Keeps-pure _))))
          (λ _ _. Gives-return _ tt)

  lookup_from :
      (t : String) (r : Result VaultError (Option (Dict Value))) (h : List Call)
      → c.env.lookup_self h t ≡ r
      → Holds (λ i. (h : List Call) × (c.env.lookup_self h t ≡ ok i)) (wrapped (λ e. tt) r)
  lookup_from t (ok i) h p = (h, p)
  lookup_from t (err e) h p = tt

  lookup-Gives :
      (own t : String)
      → Gives
          (IsFine c)
          (or_fail (λ e. tt) (under own (under t (call_lookup_self c))))
          (λ i. (h : List Call) × (c.env.lookup_self h t ≡ ok i))
  unfolding or_fail call_lookup_self ask under keeping_token set_token Exec.◌>>=◌
  lookup-Gives own t = record { at = λ w k. ((tt, k), lookup_from t _ w.calls refl) }

  -- What was recovered, once it was found unretired
  healed-Backed :
      (s : Secret) (h k : List Call) (backup now origin : String) (info : Option (Dict Value))
      → c.env.recover_backup h ≡ some backup
      → c.env.lookup_self k (trim_space backup) ≡ ok info
      → is_unretired (read_ledger c s) (accessor_in info) ≡ true
      → Backed c (healed s (trim_space backup) now origin)
  healed-Backed s h k backup now origin info b a u = record {
    answered = h;
    backup = backup;
    is_backup = b;
    is_token = sym (healed-token s (trim_space backup) now origin);
    asked = k;
    info = info;
    is_accepted = rw (healed-token s (trim_space backup) now origin) a;
    unretired = rw (healed-ledger c s (trim_space backup) now origin) u;
  }

  recover-Gives : Gives (IsFine c) (recover_from_backup c) Any
  unfolding recover_from_backup get_admin_secret
  recover-Gives = Gives-bind _ _ (when-Gives (backup_is_on c)) λ _ _.
      Gives-bind _ _ (ask-Gives c tt Call.recover_backup c.env.recover_backup tt) λ backup b.
        Gives-bind _ _ (when-Gives (not (trim_space backup == ""))) λ _ _.
          Gives-bind _ _ ready-Gives λ own _.
            Gives-bind _ _ (lookup-Gives own (trim_space backup)) λ info a.
              Gives-bind _ _ (read-Gives c (λ e. tt) _ c.env.get_secret tt) λ s _.
                Gives-bind _ _ (check_retired-Gives s (accessor_in info)) λ _ u.
                  Gives-bind _ _
                    (install-Gives s (trim_space backup) "transit-backup"
                      (λ now. inr (healed-Backed s b.0 a.0 backup now _ info b.1 a.1 u)))
                    (λ now _. Gives-lift _ (Keeps-set_status _))

  pub try_recover_from_transit_backup-Keeps : Keeps (IsFine c) (try_recover_from_transit_backup c)
  unfolding try_recover_from_transit_backup
  try_recover_from_transit_backup-Keeps = Keeps-attempt_of _ Any recover-Gives
