-- ===== src/Reconciler/Address/Agree.antt =====
-- The two resolvers of the transit Vault's address, side by side.
use vault_transit_unseal_ope.Spec.{given}
use vault_transit_unseal_ope.Base.Dict
use vault_transit_unseal_ope.Base.{
  Bool, if◌then◌else◌, not, true, Option, String, arith, false, none, some, ◌==◌, ◌≡◌,
}
use vault_transit_unseal_ope.Base.Dict.{Dict}
use vault_transit_unseal_ope.Base.Try.{Result, err, ok}
use vault_transit_unseal_ope.Kube.{KubeError}
use vault_transit_unseal_ope.Transit.Resolver.{
  AddressError, AddressReference, KeyReference, Reads, TransitVaultSpec, from_reference,
  from_secret, from_spec, key_missing, resolve_address, resolve_address_from,
  resolve_from_config_map, resolve_from_secret, value_in,
}
use vault_transit_unseal_ope.Reconciler.Address.{
  Fields, composite, filled, resolve_transit_vault_address, on_config_map, on_read_secret,
  by_secret, by_reference, by_spec,
}

module _ (parse : String → Option Fields) (a : String) (some_text : (a == "") ≡ false) where
  -- The key names an entry of the map that is not empty.
  entry_first :
      (key default : String) (m : Dict String) (o : Option String)
      → (elim o [ none ↦ err key_missing | some v ↦ ok v ]) ≡ ok a
      → filled default (elim o [ some v ↦ some v | none ↦ composite parse m key ]) ≡ ok a
  entry_first key default m none h = cc
  entry_first key default m (some v) h = ground (arith, h, some_text)

  entry_only :
      (default : String) (o : Option String)
      → (elim o [ none ↦ err key_missing | some v ↦ ok v ]) ≡ ok a
      → filled default o ≡ ok a
  entry_only default none h = cc
  entry_only default (some v) h = ground (arith, h, some_text)

  map-agrees :
      (key default : String) (r : Result KubeError (Dict String))
      → value_in key r ≡ ok a
      → on_config_map parse key default r ≡ ok a
  unfolding on_config_map
  map-agrees key default (err e) h = cc
  map-agrees key default (ok m) h = entry_first key default m (Dict.get m key) h

  secret-agrees :
      (key default : String) (r : Result KubeError (Dict String))
      → value_in key r ≡ ok a
      → on_read_secret parse key default r ≡ ok a
  unfolding on_read_secret
  secret-agrees key default (err e) h = cc
  secret-agrees key default (ok m) h = entry_only default (Dict.get m key) h

  by_cases :
      (given : String) (b : Bool) {other other' : Result AddressError String}
      → (other ≡ ok a → other' ≡ ok a)
      → (if b then ok given else other) ≡ ok a
      → (if b then ok given else other') ≡ ok a
  by_cases given true f h = h
  by_cases given false f h = f h

  module _ (reads : Reads) (namespace : String) where
    by_secret-agrees :
        (ref : Option KeyReference) (default : String)
        → from_secret reads ref namespace ≡ ok a
        → by_secret parse reads namespace ref default ≡ ok a
    unfolding by_secret from_secret resolve_from_secret
    by_secret-agrees none default h = cc
    by_secret-agrees (some ref) default h = secret-agrees ref.key default _ h

    by_reference-agrees :
        (map secret : Option KeyReference) (default : String)
        → from_reference reads map secret namespace ≡ ok a
        → by_reference parse reads namespace map secret default ≡ ok a
    unfolding by_reference from_reference resolve_from_config_map
    by_reference-agrees none secret default h = by_secret-agrees secret default h
    by_reference-agrees (some ref) secret default h = map-agrees ref.key default _ h

    by_spec-agrees :
        (ref : Option AddressReference)
        → from_spec reads ref namespace ≡ ok a
        → by_spec parse reads namespace ref ≡ ok a
    unfolding by_spec from_spec resolve_address_from
    by_spec-agrees none h = cc
    by_spec-agrees (some ref) h = by_reference-agrees ref.config_map ref.secret ref.default h

    -- Where the resolver of the backup finds an address that is not empty, the resolver of the
    -- unsealing finds the same one, whatever the default and the YAML parser.
    pub resolve_transit_vault_address-agrees :
        (spec : TransitVaultSpec)
        → resolve_address reads spec namespace ≡ ok a
        → resolve_transit_vault_address parse reads namespace spec ≡ ok a
    unfolding resolve_transit_vault_address resolve_address
    resolve_transit_vault_address-agrees spec h =
        by_cases spec.address (not (spec.address == "")) (by_spec-agrees spec.address_from) h
