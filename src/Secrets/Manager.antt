-- ===== src/Secrets/Manager.antt =====
-- pkg/secrets/manager.go: `CreateOrUpdateWithOptions` and `Get` of the default manager.
pub mod Written
use vault_transit_unseal_ope.Base.{
  List, Option, String, [], false, if◌then◌else◌, none, not, some, ◌∷◌,
}
use vault_transit_unseal_ope.Base.Dict
use vault_transit_unseal_ope.Base.Exec
use vault_transit_unseal_ope.Base.Dict.{Dict}
use vault_transit_unseal_ope.Base.Exec.{Exec}
use vault_transit_unseal_ope.Base.Try.{Result, ok, err}
use vault_transit_unseal_ope.Secrets.World.{
  write_new, read_secret, write_secret, Setup, World, NewSecret,
}
use vault_transit_unseal_ope.Kube.{KubeError, Secret, not_found, is_not_found}

-- `m[k] = v` for each `k, v` of the annotations; no key is there twice, so the order is of no matter.
unfoldable pub annotate_all : List (String × String) → Dict String → Dict String
annotate_all [] m = m
annotate_all ((k, v) ∷ l) m = Dict.put (annotate_all l m) k v

module _ (c : Setup) (namespace name : String) where
  abbrev pub opaque : Dict String → Dict String → NewSecret
  opaque texts annotations = record {
    name = name;
    namespace = namespace;
    data_of = texts;
    annotations = annotations;
    is_owned = false;
  }

  on_stored : Dict String → Dict String → Result KubeError Secret → Exec World (Option KubeError)
  on_stored texts annotations (ok s) = write_secret c namespace name (record s {
    data_of = texts;
    annotations = annotate_all (Dict.entries annotations) s.annotations;
  })
  on_stored texts annotations (err e) =
      if not (is_not_found e)
      then Exec.pure (some e)
      else write_new c (opaque texts (annotate_all (Dict.entries annotations) Dict.empty))

  -- `CreateOrUpdateWithOptions`; `CreateOrUpdate` is this without annotations.
  unfoldable pub create_or_update : Dict String → Dict String → Exec World (Option KubeError)
  unfolding on_stored
  create_or_update texts annotations =
      Exec.◌>>=◌ (read_secret c namespace name) (on_stored texts annotations)

  key_in : String → Result KubeError Secret → Result KubeError String
  key_in key (err e) = err e
  key_in key (ok s) = elim (Dict.get s.data_of key) [ none ↦ err not_found | some v ↦ ok v ]

  -- `Get`
  unfoldable pub get : String → Exec World (Result KubeError String)
  unfolding key_in
  get key w = let (s, w') = read_secret c namespace name w in (key_in key s, w')
