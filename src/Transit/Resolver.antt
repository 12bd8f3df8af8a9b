-- ===== src/Transit/Resolver.antt =====
-- pkg/transit/resolver.go: `ResolveAddress`, which the backup uses. The API server is a function of the
-- namespace and the name.
use vault_transit_unseal_ope.Base.Dict
use vault_transit_unseal_ope.Base.{Option, String, if◌then◌else◌, none, not, some, ◌==◌}
use vault_transit_unseal_ope.Base.Dict.{Dict}
use vault_transit_unseal_ope.Base.Try.{Result, err, ok}
use vault_transit_unseal_ope.Kube.{KubeError}

-- `ConfigMapKeyReference`, `SecretKeyReference`
pub record KeyReference : Type 0 where
  pub name : String
  pub key : String
  pub namespace : String

pub record AddressReference : Type 0 where
  pub config_map : Option KeyReference
  pub secret : Option KeyReference
  pub default : String

pub record TransitVaultSpec : Type 0 where
  pub address : String
  pub address_from : Option AddressReference
  pub secret_name : String
  pub secret_key : String

-- The data of ConfigMaps and of Secrets
pub record Reads : Type 0 where
  pub config_map : String → String → Result KubeError (Dict String)
  pub secret : String → String → Result KubeError (Dict String)

pub data AddressError : Type 0 where
  unspecified no_reference key_missing key_empty object_missing : AddressError
  unreadable : KubeError → AddressError

-- The namespace of a reference
abbrev pub namespace_or : String → KeyReference → String
namespace_or default ref = if ref.namespace == "" then default else ref.namespace

abbrev pub value_in : String → Result KubeError (Dict String) → Result AddressError String
value_in key (err e) = err (unreadable e)
value_in key (ok m) = elim (Dict.get m key) [ none ↦ err key_missing | some v ↦ ok v ]

module _ (reads : Reads) where
  -- `resolveFromConfigMap`
  unfoldable pub resolve_from_config_map : KeyReference → String → Result AddressError String
  resolve_from_config_map ref default =
      value_in ref.key (reads.config_map (namespace_or default ref) ref.name)

  -- `resolveFromSecret`
  unfoldable pub resolve_from_secret : KeyReference → String → Result AddressError String
  resolve_from_secret ref default =
      value_in ref.key (reads.secret (namespace_or default ref) ref.name)

  unfoldable pub from_secret : Option KeyReference → String → Result AddressError String
  unfolding resolve_from_secret
  from_secret none default = err no_reference
  from_secret (some ref) default = resolve_from_secret ref default

  unfoldable pub from_reference :
      Option KeyReference → Option KeyReference → String → Result AddressError String
  unfolding from_secret resolve_from_config_map
  from_reference none secret default = from_secret secret default
  from_reference (some ref) secret default = resolve_from_config_map ref default

  -- `resolveAddressFrom`
  unfoldable pub resolve_address_from : AddressReference → String → Result AddressError String
  unfolding from_reference
  resolve_address_from ref default = from_reference ref.config_map ref.secret default

  unfoldable pub from_spec : Option AddressReference → String → Result AddressError String
  unfolding resolve_address_from
  from_spec none default = err unspecified
  from_spec (some ref) default = resolve_address_from ref default

  -- `ResolveAddress`
  unfoldable pub resolve_address : TransitVaultSpec → String → Result AddressError String
  unfolding from_spec
  resolve_address spec default =
      if not (spec.address == "") then ok spec.address else from_spec spec.address_from default
