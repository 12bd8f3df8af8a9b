-- ===== src/Reconciler/Address.antt =====
-- pkg/reconciler/address_resolver.go: `ResolveTransitVaultAddress`, with keys that reach into a YAML text
-- and with a default. The YAML parser is a parameter.
pub mod Agree
pub mod Longest
mod Tests
use vault_transit_unseal_ope.Base.Dict
use vault_transit_unseal_ope.Base.{
  Bool, List, Option, String, [], if◌then◌else◌, ltb, none, not, some, ℕ, ◌&&◌, ◌+◌, ◌==◌, ◌∷◌,
}
use vault_transit_unseal_ope.Base.Dict.{Dict, keys}
use vault_transit_unseal_ope.Base.Split.{cut, holds_char, split}
use vault_transit_unseal_ope.Base.Try.{Result, err, ok}
use vault_transit_unseal_ope.Kube.{KubeError, is_not_found, text_at}
use vault_transit_unseal_ope.Transit.Resolver.{
  AddressError, AddressReference, KeyReference, Reads, TransitVaultSpec, key_empty, key_missing,
  namespace_or, no_reference, object_missing, unreadable, unspecified,
}
use text.Mathlib.Text.{starts_with}
use Prim.Native.String.{len, slice}
use Prim.Native.String

mutual
  -- A parsed value. A scalar that is no text is kept as it prints; `other` is no scalar and no map.
  pub data Yaml : Type 0 where
    string scalar : String → Yaml
    object : Fields → Yaml
    other : Yaml

  -- The fields whose keys are texts
  pub data Fields : Type 0 where
    end : Fields
    field : String → Yaml → Fields → Fields

unfoldable pub field_at : String → Fields → Option Yaml
field_at k end = none
field_at k (field j v fs) = if j == k then some v else field_at k fs

child : String → Yaml → Option Yaml
unfolding field_at
child k (object fs) = field_at k fs
child k (string s) = none
child k (scalar s) = none
child k other = none

follow : List String → Option Yaml → Option Yaml
unfolding child
follow keys none = none
follow [] (some v) = some v
follow (k ∷ ks) (some v) = follow ks (child k v)

scalar_of : Option Yaml → Option String
scalar_of (some (string s)) = some s
scalar_of (some (scalar s)) = some s
scalar_of _ = none

abbrev pub dot : ℕ
dot = b'.'

-- `k` is a part of the key up to one of its dots.
unfoldable pub is_base : String → String → Bool
is_base key k = starts_with key (String.◌++◌ k ".")

-- The loop of `extractCompositeConfigMapValue` over the keys of the map, from the match so far
unfoldable pub longest_base : String → String → List String → String
unfolding is_base
longest_base key best [] = best
longest_base key best (k ∷ ks) =
    longest_base key (if is_base key k && ltb (len best) (len k) then k else best) ks

-- The default stands in for what is missing or empty.
abbrev pub default_or : String → AddressError → Result AddressError String
default_or default e = if not (default == "") then ok default else err e

abbrev pub filled : String → Option String → Result AddressError String
filled default none = default_or default key_missing
filled default (some v) = if v == "" then default_or default key_empty else ok v

-- An object that cannot be read for another reason than that it is not there is an error.
abbrev pub read_failed : String → KubeError → Result AddressError String
read_failed default e =
    if is_not_found e then default_or default object_missing else err (unreadable e)

module _ (parse : String → Option Fields) where
  in_document : Option Fields → List String → Option String
  unfolding follow scalar_of
  in_document none keys = none
  in_document (some fs) keys = scalar_of (follow keys (some (object fs)))

  -- `extractYAMLValue`; none for an error
  unfoldable pub extract_yaml_value : String → String → Option String
  unfolding in_document
  extract_yaml_value content path =
      if not (holds_char dot path)
      then some content
      else in_document (parse content) (split dot path)

  -- Where no key matched: the text before the first dot, which is then no key either, or empty
  by_first_dot : Dict String → Option (String × String) → Option String
  unfolding extract_yaml_value
  by_first_dot m none = none
  by_first_dot m (some (base, path)) = elim (Dict.get m base) [
    | none ↦ none
    | some v ↦ extract_yaml_value v path
  ]

  -- `extractCompositeConfigMapValue`
  unfoldable pub extract_composite : Dict String → String → Option String
  unfolding longest_base by_first_dot extract_yaml_value
  extract_composite m key =
      let base = longest_base key "" (Dict.keys m) in
      let path = slice key (len base + 1) (len key) in
      if base == ""
      then by_first_dot m (cut dot key)
      else if path == ""
      then none
      else extract_yaml_value (text_at m base) path

  unfoldable pub composite : Dict String → String → Option String
  unfolding extract_composite
  composite m key = if holds_char dot key then extract_composite m key else none

  -- The value under the whole key, or by a path into a value
  abbrev pub lookup_value : Dict String → String → Option String
  lookup_value m key = elim (Dict.get m key) [ some v ↦ some v | none ↦ composite m key ]

  on_config_map : String → String → Result KubeError (Dict String) → Result AddressError String
  unfolding composite
  on_config_map key default (err e) = read_failed default e
  on_config_map key default (ok m) = filled default (lookup_value m key)

  on_read_secret : String → String → Result KubeError (Dict String) → Result AddressError String
  on_read_secret key default (err e) = read_failed default e
  on_read_secret key default (ok m) = filled default (Dict.get m key)

  module _ (reads : Reads) (namespace : String) where
    by_secret : Option KeyReference → String → Result AddressError String
    unfolding on_read_secret
    by_secret none default = err no_reference
    by_secret (some ref) default =
        on_read_secret ref.key default (reads.secret (namespace_or namespace ref) ref.name)

    by_reference : Option KeyReference → Option KeyReference → String → Result AddressError String
    unfolding by_secret on_config_map
    by_reference none secret default = by_secret secret default
    by_reference (some ref) secret default =
        on_config_map ref.key default (reads.config_map (namespace_or namespace ref) ref.name)

    by_spec : Option AddressReference → Result AddressError String
    unfolding by_reference
    by_spec none = err unspecified
    by_spec (some ref) = by_reference ref.config_map ref.secret ref.default

    -- `ResolveTransitVaultAddress`
    unfoldable pub resolve_transit_vault_address : TransitVaultSpec → Result AddressError String
    unfolding by_spec
    resolve_transit_vault_address spec =
        if not (spec.address == "") then ok spec.address else by_spec spec.address_from
