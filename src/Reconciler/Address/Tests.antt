-- ===== src/Reconciler/Address/Tests.antt =====
-- Runs of the two resolvers on a ConfigMap, and of a composite key on two orders of a map's keys.
use mathlib.Core.Path.{subst}
use vault_transit_unseal_ope.Base.{
  Bool-cases, inl, inr, ◌==◌, Option, String, arith, eq_iff, none, refl, some, ◌≡◌,
}
use vault_transit_unseal_ope.Reconciler.Address.Agree.{resolve_transit_vault_address-agrees}
use vault_transit_unseal_ope.Reconciler.Address.Longest.{extract_composite-eq}
use vault_transit_unseal_ope.Transit.Resolver.{
  Reads, TransitVaultSpec, from_reference, from_spec, resolve_address, resolve_address_from,
  resolve_from_config_map,
}
use vault_transit_unseal_ope.Base.Try.{ok}
use vault_transit_unseal_ope.Base.Dict
use vault_transit_unseal_ope.Base.Dict.{Dict}
use vault_transit_unseal_ope.Reconciler.Address.{
  object, Fields, resolve_transit_vault_address, extract_composite, end, field, string,
}

abbrev spec : TransitVaultSpec
spec = record {
  address = "";
  address_from = some record {
    config_map = some record { name = "transit"; key = "address"; namespace = "" };
    secret = none;
    default = "https://other";
  };
  secret_name = "transit";
  secret_key = "token";
}

abbrev reads : Reads
reads = record {
  config_map = λ ns n. ok (Dict.put Dict.empty "address" "https://transit");
  secret = λ ns n. ok Dict.empty;
}

abbrev parse : String → Option Fields
parse s = some (field "vault" (object (field "address" (string s) end)) end)

resolve_transit_vault_address-agrees_example :
    resolve_transit_vault_address parse reads "vault" spec ≡ ok "https://transit"
unfolding resolve_address from_spec resolve_address_from from_reference resolve_from_config_map
    Dict.get Dict.put Dict.empty
resolve_transit_vault_address-agrees_example =
    resolve_transit_vault_address-agrees parse "https://transit" refl reads "vault" spec refl

abbrev one : Dict String
one = Dict.put (Dict.put Dict.empty "config" "short") "config.yaml" "long"

abbrev other : Dict String
other = Dict.put (Dict.put Dict.empty "config.yaml" "long") "config" "short"

same : (k : String) → Dict.get one k ≡ Dict.get other k
same k = elim (Bool-cases ("config" == k)) [
  | inl t ↦
      subst (λ k. Dict.get one k ≡ Dict.get other k) ((eq_iff "config" k).0 t)
        (unfold Dict.get Dict.put Dict.empty in refl)
  | inr f ↦ ground (
    arith,
    f,
    Dict.get-put {V = String} Dict.empty "config" k "short",
    Dict.get-put {V = String} (Dict.put Dict.empty "config" "short") "config.yaml" k "long",
    Dict.get-put {V = String} Dict.empty "config.yaml" k "long",
    Dict.get-put {V = String} (Dict.put Dict.empty "config.yaml" "long") "config" k "short",
  )
]

extract_composite-eq_example :
    extract_composite parse one "config.yaml.vault.address"
    ≡ extract_composite parse other "config.yaml.vault.address"
extract_composite-eq_example = extract_composite-eq parse one other "config.yaml.vault.address" same
