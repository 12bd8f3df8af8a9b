-- ===== src/Secrets/Verifier.antt =====
-- pkg/secrets/verifier.go: `VerifyExpectedSecrets`. One run reads each Secret once, so the API
-- server is a function of the namespace and the name. The descriptions of the actions, which are
-- for the log, are left out, and `decimal` prints a number.
pub mod Complete
use Prim.Native.String.{len}
use Prim.Native.String
use mathlib.Core.Option
use text.Mathlib.Text.{starts_with}
use vault_transit_unseal_ope.Base.Dict
use vault_transit_unseal_ope.Base.{
  ◌++◌, Bool, List, Option, String, [], false, if◌then◌else◌, ltb, none, not, some, suc, true, zero,
  ℕ, ◌&&◌, ◌==◌, ◌||◌, ◌∷◌,
}
use vault_transit_unseal_ope.Base.Dict.{Dict, get}
use vault_transit_unseal_ope.Kube.{KubeError, Secret, is_not_found, text_at}
use vault_transit_unseal_ope.Reconciler.Init.{is_enabled}
use vault_transit_unseal_ope.Spec.{Spec, is_stored_key_mode, stored_key_secret_ref}
use vault_transit_unseal_ope.Token.World.{Result, err, ok}

pub record ExpectedSecret : Type 0 where
  pub name : String
  pub namespace : String
  pub keys : List String
  pub optional : Bool

pub data ActionType : Type 0 where
  create restore update : ActionType

pub record Action : Type 0 where
  pub type : ActionType
  pub secret_name : String
  pub namespace : String

pub record MissingSecret : Type 0 where
  pub name : String
  pub namespace : String
  pub optional : Bool

pub record IncompleteSecret : Type 0 where
  pub name : String
  pub namespace : String
  pub missing_keys : List String

-- `VerificationResult`
pub record Report : Type 0 where
  pub missing : List MissingSecret
  pub incomplete : List IncompleteSecret
  pub all_present : Bool
  pub recovery_plan : List Action

-- `isUsableToken`; for the length of a token, which is in bytes, its text is taken to be ASCII.
unfoldable pub is_usable_token : Secret → String → Bool
is_usable_token s token = not (
    Dict.holds s.annotations "vault.homelab.io/recovery-required"
    || Dict.holds s.annotations "vault.homelab.io/incomplete"
    || text_at s.annotations "vault.homelab.io/root-token" == "true"
    || starts_with token "placeholder-"
    || starts_with token "temp-"
    || starts_with token "incomplete-"
    || starts_with token "RECOVERY-REQUIRED:"
    || token == ""
    || token == "null"
    || token == "undefined"
    || ltb (len token) 10)

unfoldable pub missing_keys : Secret → List String → List String
missing_keys s [] = []
missing_keys s (k ∷ ks) =
    let rest = missing_keys s ks in if not (Dict.holds s.data_of k) then k ∷ rest else rest

-- The action for an expected Secret
abbrev pub action : ActionType → ExpectedSecret → Action
action type e = record { type = type; secret_name = e.name; namespace = e.namespace }

module _ (spec : Spec) where
  -- The Secret is the admin token's, and the token in it is not usable.
  unfoldable pub is_unusable : ExpectedSecret → Secret → Bool
  is_unusable e s =
      let names = spec.initialization.secret_names in
      e.name == names.admin_token
      && not names.skip_admin_token_creation
      && Dict.holds s.data_of "token"
      && not (is_usable_token s (text_at s.data_of "token"))

  add_missing : ActionType → Bool → ExpectedSecret → Report → Report
  add_missing type optional e r = record r {
    missing =
        r.missing ++ (record { name = e.name; namespace = e.namespace; optional = optional } ∷ []);
    all_present = false;
    recovery_plan = r.recovery_plan ++ (action type e ∷ []);
  }

  add_incomplete : ExpectedSecret → List String → Report → Report
  add_incomplete e [] r = r
  add_incomplete e (k ∷ ks) r = record r {
    incomplete =
        r.incomplete
        ++ (record { name = e.name; namespace = e.namespace; missing_keys = k ∷ ks } ∷ []);
    all_present = false;
    recovery_plan = r.recovery_plan ++ (action update e ∷ []);
  }

  -- One turn of the loop; none for an error that ends it
  unfoldable pub check_secret : ExpectedSecret → Result KubeError Secret → Report → Option Report
  unfolding add_missing add_incomplete
  check_secret e (err x) r =
      if is_not_found x
      then (if not e.optional then some (add_missing create e.optional e r) else some r)
      else none
  check_secret e (ok s) r =
      if is_unusable e s
      then some (add_missing restore false e r)
      else some (add_incomplete e (missing_keys s e.keys) r)

  module _ (get : String → String → Result KubeError Secret) where
    check_secrets : List ExpectedSecret → Report → Option Report
    check_secrets [] r = some r
    check_secrets (e ∷ es) r =
        Option.bind (check_secret e (get e.namespace e.name) r) (λ r'. check_secrets es r')

  -- `getRecoveryKeyNames`, from index `i` on
  recovery_key_names : (ℕ → String) → ℕ → ℕ → List String
  recovery_key_names decimal i zero = []
  recovery_key_names decimal i (suc n) =
      String.◌++◌ "recovery-key-" (decimal i) ∷ recovery_key_names decimal (suc i) n

  abbrev required : String → List String → ExpectedSecret
  required name keys = record {
    name = name;
    namespace = spec.pod_namespace;
    keys = keys;
    optional = false;
  }

  abbrev when : Bool → ExpectedSecret → List ExpectedSecret
  when b e = if b then e ∷ [] else []

  -- `storedKeyExpectedSecrets`
  unfoldable pub stored_key_expected_secrets : List ExpectedSecret
  stored_key_expected_secrets =
      let ref = stored_key_secret_ref spec in
      let names = spec.initialization.secret_names in
      record { name = ref.name; namespace = ref.namespace; keys = ref.key ∷ []; optional = false }
      ∷ when (is_enabled spec.token_management && not names.skip_admin_token_creation)
          (required names.admin_token ("token" ∷ []))

  -- `getExpectedSecrets`
  unfoldable pub get_expected_secrets : (ℕ → String) → List ExpectedSecret
  unfolding recovery_key_names
  get_expected_secrets decimal =
      let names = spec.initialization.secret_names in
      if is_stored_key_mode spec
      then stored_key_expected_secrets
      else required spec.transit_secret_name (spec.transit_secret_key ∷ [])
        ∷ (when (not names.skip_admin_token_creation) (required names.admin_token ("token" ∷ []))
            ++ when names.store_recovery_keys (
                required names.recovery_keys
                  (recovery_key_names decimal 0 spec.initialization.recovery_shares))
            ++ when spec.post_unseal_config.enable_external_secrets_operator
                (record (required "vault-external-secrets-token" ("token" ∷ [])) {
                  optional = true;
                }))

  -- `VerifyExpectedSecrets`
  unfoldable pub verify_expected_secrets :
      (ℕ → String) → (String → String → Result KubeError Secret) → Option Report
  unfolding check_secrets
  verify_expected_secrets decimal get =
      check_secrets get (get_expected_secrets decimal)
        (record { missing = []; incomplete = []; all_present = true; recovery_plan = [] })
