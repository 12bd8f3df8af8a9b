-- ===== src/Secrets/Restore/Mistaken.antt =====
-- The operator's own placeholder for the admin token, met by the restore and by the verifier.
use mathlib.Core.Path.{subst}
use vault_transit_unseal_ope.Base.Exec.{Exec}
use vault_transit_unseal_ope.Base.{
  ap, sym, ◌∷◌, Bool, Bool-cases, String, if◌then◌else◌, inl, inr, refl, ◌==◌, ◌||◌, ◌∙◌, arith,
  false, true, ◌≡◌,
}
use vault_transit_unseal_ope.Base.Dict
use vault_transit_unseal_ope.Base.Dict.{Dict}
use vault_transit_unseal_ope.Base.Exec
use vault_transit_unseal_ope.Base.Try
use vault_transit_unseal_ope.Base.Try.{Try, Result, ok, err}
use vault_transit_unseal_ope.Secrets.World.{Call, Setup, World, ask}
use vault_transit_unseal_ope.Secrets.Placeholder.{placeholder_token}
use vault_transit_unseal_ope.Secrets.Restore.{
  is_marked, without_incomplete, without_placeholder, without_required, cleaned, needs_cleaning,
  restore_admin_token, token_text, cleanup_mixed_state_secret, on_existing,
}
use vault_transit_unseal_ope.Secrets.Verifier.{Action, is_usable_token}
use vault_transit_unseal_ope.Kube.{Secret, text_at, text_at-remove}

-- The admin token's placeholder, marked as `createRecoveryPlaceholder` marks it
pub record IsPlaceholder (s : Secret) : Type 0 where
  pub token : token_text s ≡ placeholder_token
  pub required : Dict.holds s.annotations "vault.homelab.io/recovery-required" ≡ true
  pub complete : Dict.holds s.annotations "vault.homelab.io/incomplete" ≡ false
  pub no_root : text_at s.annotations "vault.homelab.io/root-token" ≡ ""

abbrev pub unmarked : Secret → Secret
unmarked s = record s {
  annotations = Dict.remove s.annotations "vault.homelab.io/recovery-required";
}

or_true : (b b' : Bool) → (b || b' || true) ≡ true
or_true b b' = ground arith

holds-remove :
    (m : Dict String) (k j : String)
    → Dict.holds (Dict.remove m k) j ≡ (if k == j then false else Dict.holds m j)
unfolding Dict.holds
holds-remove m k j = ground (arith, Dict.get-remove m k j)

module _ (s : Secret) (p : IsPlaceholder s) where
  unusable : is_usable_token s (token_text s) ≡ false
  unfolding is_usable_token
  unusable = ground (arith, p.required)

  dirty : needs_cleaning s ≡ true
  unfolding needs_cleaning
  dirty =
      rw (p.token, p.required)
        (or_true (Dict.holds s.data_of "placeholder")
          (Dict.holds s.annotations "vault.homelab.io/incomplete"))

  marked_as : (k : String) → is_marked k s ≡ Dict.holds s.annotations k
  marked_as k = rw p.token refl

  kept : without_incomplete s ≡ s
  kept = ground (arith, marked_as "vault.homelab.io/incomplete", p.complete)

  unmark : without_required (without_incomplete s) ≡ unmarked s
  unmark =
      ap without_required kept
      ∙ ap (λ b. if b then unmarked s else s)
          (marked_as "vault.homelab.io/recovery-required" ∙ p.required)

  unmarked-usable : is_usable_token (unmarked s) placeholder_token ≡ true
  unfolding is_usable_token
  unmarked-usable =
      rw
        (
          holds-remove s.annotations "vault.homelab.io/recovery-required"
              "vault.homelab.io/recovery-required",
          holds-remove s.annotations "vault.homelab.io/recovery-required"
              "vault.homelab.io/incomplete",
          text_at-remove s.annotations "vault.homelab.io/recovery-required"
              "vault.homelab.io/root-token",
          p.complete,
          p.no_root,
        )
        refl

  finished :
      is_usable_token
        (without_required (without_incomplete s))
        (token_text (without_required (without_incomplete s)))
      ≡ true
  finished =
      subst (λ r. is_usable_token r (token_text r) ≡ true) (sym unmark)
        (subst (λ t. is_usable_token (unmarked s) t ≡ true) (sym p.token) unmarked-usable)

bare : Secret → Secret
bare s = record s { data_of = Dict.remove s.data_of "placeholder" }

bare-IsPlaceholder : (s : Secret) → IsPlaceholder s → IsPlaceholder (bare s)
unfolding bare
bare-IsPlaceholder s p = record {
  token = text_at-remove s.data_of "placeholder" "token" ∙ p.token;
  required = p.required;
  complete = p.complete;
  no_root = p.no_root;
}

usable :
    (s : Secret) → IsPlaceholder s → is_usable_token (cleaned s) (token_text (cleaned s)) ≡ true
unfolding cleaned bare
usable s p = elim (Bool-cases (Dict.holds s.data_of "placeholder")) [
  | inl h ↦
      (let e : without_placeholder s ≡ bare s = rw (p.token, h) refl in
        subst
          (λ t.
            is_usable_token (without_required (without_incomplete t))
              (token_text (without_required (without_incomplete t)))
            ≡ true)
          (sym e) (finished (bare s) (bare-IsPlaceholder s p)))
  | inr h ↦
      (let e : without_placeholder s ≡ s = rw (p.token, h) refl in
        subst
          (λ t.
            is_usable_token (without_required (without_incomplete t))
              (token_text (without_required (without_incomplete t)))
            ≡ true)
          (sym e) (finished s p))
]

-- When the Secret of the admin token is the placeholder that `createRecoveryPlaceholder` leaves, the
-- verifier finds its token unusable; yet `restoreAdminToken`, given any token, succeeds without writing
-- that token: it only updates the Secret, and the verifier finds the updated Secret usable.
pub restore_admin_token-mistakes :
    (c : Setup) (a : Action) (token : String) (w : World) (s : Secret)
    → c.env.get_secret w.calls a.namespace a.secret_name ≡ ok s
    → IsPlaceholder s
    → (is_usable_token s (token_text s) ≡ false)
      × (restore_admin_token c a token w ≡ (
        ok tt,
        record w {
          calls =
              Call.update_secret a.namespace a.secret_name (cleaned s)
              ∷ Call.get_secret a.namespace a.secret_name
              ∷ w.calls;
        },
      ))
      × (is_usable_token (cleaned s) (token_text (cleaned s)) ≡ true)
unfolding restore_admin_token on_existing cleanup_mixed_state_secret Try.◌>>=◌ Try.continue Try.lift
    Try.attempt Try.return Try.or_error ask Exec.pure
restore_admin_token-mistakes c a token w s e p =
    (unusable s p, rw (e, p.token, dirty s p) refl, usable s p)
