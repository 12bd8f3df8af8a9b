-- ===== src/Secrets/Manager/Written.antt =====
-- What `CreateOrUpdateWithOptions` writes.
use vault_transit_unseal_ope.Base.{
  Bool-cases, List, Option, String, [], arith, false, inl, inr, none, refl, some, true, ◌∷◌, ◌≡◌,
  ◌⊎◌,
}
use vault_transit_unseal_ope.Base.Exec.{Exec}
use vault_transit_unseal_ope.Base.Dict
use vault_transit_unseal_ope.Base.Dict.{Dict, find}
use vault_transit_unseal_ope.Base.Exec
use vault_transit_unseal_ope.Base.Try.{Result, ok, err}
use vault_transit_unseal_ope.Secrets.World.{Call, Setup, World, NewSecret, ask}
use vault_transit_unseal_ope.Kube.{KubeError, Secret, is_not_found}
use vault_transit_unseal_ope.Secrets.Manager.{annotate_all, create_or_update, opaque, on_stored}

abbrev pub given_or : Option String → Option String → Option String
given_or none old = old
given_or (some v) old = some v

get-annotate_all :
    (l : List (String × String)) (m : Dict String) (k : String)
    → Dict.get (annotate_all l m) k ≡ given_or (find k l) (Dict.get m k)
unfolding annotate_all find
get-annotate_all [] m k = refl
get-annotate_all ((j, v) ∷ l) m k =
    ground (arith, Dict.get-put {V = String} (annotate_all l m) j k v, get-annotate_all l m k)

-- The given annotations over the ones that were there
abbrev pub IsMerged : Dict String → Dict String → Dict String → Type 0
IsMerged new old m = (k : String) → Dict.get m k ≡ given_or (Dict.get new k) (Dict.get old k)

module _ (c : Setup) (namespace name : String) (texts annotations : Dict String) where
  -- After the read: the one write, or the error that the read gave
  abbrev pub Outcome : World → Result KubeError Secret → Option KubeError × World → Type 0
  Outcome w (ok s) (e, w') =
      (m : Dict String) × IsMerged annotations s.annotations m
      × let s' : Secret = record s { data_of = texts; annotations = m } in
        (e ≡ c.env.update_secret w.calls namespace name s')
        × (w'.calls ≡ Call.update_secret namespace name s' ∷ w.calls)
  Outcome w (err x) (e, w') =
      (is_not_found x ≡ false) × (e ≡ some x) × (w'.calls ≡ w.calls)
      ⊎ (is_not_found x ≡ true)
        × (m : Dict String) × IsMerged annotations Dict.empty m
        × let s : NewSecret = opaque c namespace name texts m in
          (e ≡ c.env.create_secret w.calls s) × (w'.calls ≡ Call.create_secret s ∷ w.calls)

  merged : (m : Dict String) → IsMerged annotations m (annotate_all (Dict.entries annotations) m)
  unfolding Dict.get
  merged m k = get-annotate_all (Dict.entries annotations) m k

  stored-Outcome :
      (w : World) (r : Result KubeError Secret)
      → Outcome w r (on_stored c namespace name texts annotations r w)
  unfolding on_stored ask Exec.pure
  stored-Outcome w (ok s) =
      (annotate_all (Dict.entries annotations) s.annotations, merged s.annotations, (refl, refl))
  stored-Outcome w (err x) = elim (Bool-cases (is_not_found x)) [
    | inl t ↦ inr (
      t,
      annotate_all (Dict.entries annotations) Dict.empty,
      merged Dict.empty,
      (rw t refl, rw t refl),
    )
    | inr f ↦ inl (f, rw f refl, rw f refl)
  ]

  -- `CreateOrUpdateWithOptions` reads the Secret once. If it is there, it is updated with the given data
  -- in the place of its own and with the given annotations over its own; if it is not found, it is
  -- created with the given data and annotations; at another error of the read nothing is written. The
  -- error returned is that of the write or the read.
  pub create_or_update-Outcome :
      (w : World)
      → let r = c.env.get_secret w.calls namespace name in
        Outcome
          (record w { calls = Call.get_secret namespace name ∷ w.calls })
          r
          (create_or_update c namespace name texts annotations w)
  unfolding create_or_update ask Exec.◌>>=◌
  create_or_update-Outcome w = stored-Outcome _ (c.env.get_secret w.calls namespace name)
