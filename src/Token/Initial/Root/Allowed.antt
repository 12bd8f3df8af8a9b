-- ===== src/Token/Initial/Root/Allowed.antt =====
-- The scoped tokens that replace an invalid token or a root token are fresh, and a root token is revoked
-- only as allowed.
use vault_transit_unseal_ope.Base.{
  Bool, List, String, arith, false, inl, not, refl, sym, true, ◌==◌, ◌∙◌, ◌≡◌,
}
use vault_transit_unseal_ope.Base.Exec.{Keeps, Keeps-bind, Keeps-pure}
use vault_transit_unseal_ope.Base.Gives.{
  Any, Gives, Gives-Any, Gives-bind, Gives-if, Gives-lift, Gives-return, Gives-throw,
}
use vault_transit_unseal_ope.Base.Text.{trim_space}
use vault_transit_unseal_ope.Kube.{Secret, text_at, text_at-put}
use vault_transit_unseal_ope.Token.Backoff.{get_admin_secret, update}
use vault_transit_unseal_ope.Token.Initial.Allowed.{
  Fresh, IsFine, Keeps-from, Keeps-set_status, read-Gives, validate-Gives,
}
use vault_transit_unseal_ope.Token.Initial.Client.{Fallible, InitialError}
use vault_transit_unseal_ope.Token.Initial.Create.Allowed.{backup-Keeps}
use vault_transit_unseal_ope.Token.Initial.Recover.Allowed.{try_recover_from_transit_backup-Keeps}
use vault_transit_unseal_ope.Token.Initial.Recover.Healing.{try_recover_via_k8s_auth-Keeps}
use vault_transit_unseal_ope.Token.Initial.Scoped.Allowed.{
  create_scoped_token-Gives, first_pod-Gives, new_client-Gives,
}
use vault_transit_unseal_ope.Token.Trace.{Keeps-ask}
use vault_transit_unseal_ope.Token.Tracked.{token_of}
use vault_transit_unseal_ope.Token.World.{Call, Setup}
use mathlib.Core.Path.{subst}
use vault_transit_unseal_ope.Base.Try.{Keeps-or_error, Keeps-or_fail, or_fail}
use vault_transit_unseal_ope.Token.Initial.Root.{
  bootstrap_complete, replace_invalid_token, replace_root_token, scoped_secret, write_scoped,
  report_active, format_now, get_keys_secret, require, lookup_token_accessor, report_accessor,
  from_recovery_keys, unless, update_keys, mark_if, root_marks, unusable_marks,
  mark_root_token_revoked, without_root,
}

scoped-token :
    (c : Setup) (marks : List String) (s : Secret) (token r n : String)
    → token_of (scoped_secret c marks s token r n) ≡ token
unfolding scoped_secret
scoped-token c marks s token r n = text_at-put s.data_of "token" "token" token ∙ ground arith

module _ (c : Setup) where
  format-Gives : Gives (IsFine c) (format_now c) Any
  unfolding format_now
  format-Gives =
      Gives-bind _ _ (Gives-lift _ (Keeps-ask Call.clock c.env.clock tt)) (λ n _. Gives-return _ tt)

  write-Gives :
      (marks : List String) (s : Secret) (token : String)
      → Fresh c token
      → Gives (IsFine c) (write_scoped c marks s token) Any
  unfolding write_scoped update
  write-Gives marks s token f = Gives-bind _ _ format-Gives λ r _.
      Gives-bind _ _ format-Gives λ n _.
        Gives-bind _ _
          (Gives-Any _ (
            Keeps-or_fail _ _ (
              Keeps-bind _ _
                (Keeps-ask (Call.update_secret (scoped_secret c marks s token r n)) _
                  (inl (subst (Fresh c) (sym (scoped-token c marks s token r n)) f)))
                (λ a. Keeps-pure _))))
          (λ _ _. Gives-return tt tt)

  report-Gives : Gives (IsFine c) (report_active c) Any
  unfolding report_active
  report-Gives = Gives-bind _ _ format-Gives (λ now _. Gives-lift _ (Keeps-set_status _))

  keys-Gives : Gives (IsFine c) (or_fail InitialError.keys_unreadable (get_keys_secret c)) Any
  unfolding get_keys_secret
  keys-Gives = Gives-Any _ (Keeps-or_fail _ _ (Keeps-ask _ c.env.get_keys tt))

  require-Gives : (b : Bool) (e : InitialError) → Gives (IsFine c) (require c b e) Any
  unfolding require
  require-Gives b e = Gives-if b _ _ (λ _. Gives-return tt tt) (λ _. Gives-throw e)

  lookup-Gives : (token : String) → Gives (IsFine c) (lookup_token_accessor c token) Any
  unfolding lookup_token_accessor
  lookup-Gives token = Gives-bind _ _ (first_pod-Gives c) λ pod _.
      Gives-bind _ _ (new_client-Gives c InitialError.client_failed pod) λ own _.
        Gives-bind _ _ (validate-Gives c own token)
          λ info _. Gives-Any _ (Keeps-from _ _ (Keeps-pure _))

  accessor-Keeps : (token : String) → Keeps (IsFine c) (report_accessor c token)
  unfolding report_accessor
  accessor-Keeps token = record { at = λ w h. ((lookup-Gives token).at w h).0 }

  from_keys-Gives : c.tm.enabled ≡ true → Gives (IsFine c) (from_recovery_keys c) Any
  unfolding from_recovery_keys get_admin_secret
  from_keys-Gives on =
      Gives-bind _ _ (require-Gives c.vtu.store_recovery_keys InitialError.keys_not_stored) λ _ _.
        Gives-bind _ _ keys-Gives λ keys _.
          Gives-bind _ _ (Gives-Any _ (Keeps-from _ _ (Keeps-pure _))) λ root _.
            Gives-bind _ _ (create_scoped_token-Gives c (trim_space root) false on (λ t f e. cc))
              λ token f.
                Gives-bind _ _ (read-Gives c InitialError.secret_unreadable _ c.env.get_secret tt)
                  λ s _.
                    Gives-bind _ _ (write-Gives unusable_marks s token f) λ _ _.
                      Gives-bind _ _ report-Gives (λ _ _. Gives-lift _ (accessor-Keeps token))

  unless-Gives :
      (done : Bool) (m : Fallible (Unit {0}))
      → Gives (IsFine c) m Any
      → Gives (IsFine c) (unless c done m) Any
  unfolding unless
  unless-Gives true m g = record { at = λ w h. (h, tt) }
  unless-Gives false m g = record { at = λ w h. g.at w h }

  pub replace_invalid_token-Gives :
      c.tm.enabled ≡ true → Gives (IsFine c) (replace_invalid_token c) Any
  unfolding replace_invalid_token
  replace_invalid_token-Gives on =
      Gives-bind _ _ (Gives-lift _ (try_recover_from_transit_backup-Keeps c)) λ done _.
        unless-Gives done _ (
          Gives-bind _ _ (Gives-lift _ (try_recover_via_k8s_auth-Keeps c))
            (λ healed _. unless-Gives healed _ (from_keys-Gives on)))

  marked-Gives : Gives (IsFine c) (mark_root_token_revoked c) Any
  unfolding mark_root_token_revoked update_keys
  marked-Gives =
      Gives-if (not c.vtu.store_recovery_keys) _ _ (λ _. Gives-return tt tt)
        λ _. Gives-bind _ _ keys-Gives λ keys _. Gives-bind _ _ format-Gives λ now _.
          Gives-Any _
            (Keeps-or_error _ _ (Keeps-ask (Call.update_keys (without_root c keys now)) _ tt))

  mark_if-Keeps : (b : Bool) → Keeps (IsFine c) (mark_if c b)
  unfolding mark_if
  mark_if-Keeps false = record { at = λ w h. h }
  mark_if-Keeps true = record { at = λ w h. (marked-Gives.at w h).0 }

  pub replace_root_token-Gives : c.tm.enabled ≡ true → Gives (IsFine c) (replace_root_token c) Any
  unfolding replace_root_token get_admin_secret
  replace_root_token-Gives on =
      Gives-bind _ _ (read-Gives c InitialError.secret_unreadable _ c.env.get_secret tt) λ s was.
        Gives-bind _ _
          (require-Gives (not (text_at s.data_of "token" == "")) InitialError.empty_token)
          λ _ _.
            Gives-bind _ _
              (create_scoped_token-Gives c (token_of s) (bootstrap_complete c) on (λ t f complete.
                record {
                  is_complete = complete;
                  read = was.0;
                  holder = s;
                  was_read = was.1;
                  is_root = refl;
                  successor = t;
                  is_fresh = f;
                }))
              λ token f. Gives-bind _ _ (write-Gives root_marks s token f) λ _ _.
                Gives-bind _ _ (Gives-lift _ (backup-Keeps c token f.0)) λ _ _.
                  Gives-bind _ _ (Gives-lift _ (mark_if-Keeps (bootstrap_complete c)))
                    (λ _ _. report-Gives)
