-- ===== src/Token/Ledger/RoundTrip.antt =====
-- Writing a ledger to the Secret and reading it back.
use vault_transit_unseal_ope.Base.{
  String, ◌≡◌, ◌≢◌, refl, ap, ◌∙◌, false, some, List, [], ◌∷◌, arith, ◌==◌, eq_iff,
}
use vault_transit_unseal_ope.Base.Text.{trim_space}
use vault_transit_unseal_ope.Base.Dict
use vault_transit_unseal_ope.Base.Dict.{Dict}
use vault_transit_unseal_ope.Kube.{Secret, text_at-put, text_at-remove}
use vault_transit_unseal_ope.Token.World.{LedgerEntry, Codec, Setup}
use vault_transit_unseal_ope.Token.Ledger.{
  ledger_annotation, parse_ledger, read_ledger, write_ledger,
}

-- encoding/json reads back those entries as it has written them, and writes a text that is not blank.
pub record IsFaithful (codec : Codec) (es : List LedgerEntry) : Type 0 where
  pub not_blank : (trim_space (codec.marshal es) == "") ≡ false
  pub reads_back : codec.unmarshal (trim_space (codec.marshal es)) ≡ some es

remove_other :
    (d : Dict String) (k : String)
    → k ≢ ledger_annotation
    → Dict.get (Dict.remove d ledger_annotation) k ≡ Dict.get d k
remove_other d k ne =
    ground (arith, Dict.get-remove d ledger_annotation k, eq_iff ledger_annotation k)

put_other :
    (d : Dict String) (k v : String)
    → k ≢ ledger_annotation
    → Dict.get (Dict.put d ledger_annotation v) k ≡ Dict.get d k
put_other d k v ne =
    ground (arith, Dict.get-put d ledger_annotation k v, eq_iff ledger_annotation k)

parse_marshal :
    (c : Setup) (es : List LedgerEntry)
    → IsFaithful c.codec es
    → parse_ledger c (trim_space (c.codec.marshal es)) ≡ some es
unfolding parse_ledger
parse_marshal c es h = rw h.not_blank h.reads_back

-- A ledger that is written to the Secret is read back unchanged, the empty one included, and the
-- write changes no other annotation and neither the data nor the resourceVersion; provided that
-- encoding/json reads back these entries.
pub read_ledger-write_ledger :
    (c : Setup) (s : Secret) (es : List LedgerEntry)
    → IsFaithful c.codec es
    → (read_ledger c (write_ledger c s es) ≡ some es)
      × ((k : String)
          → k ≢ ledger_annotation
          → Dict.get (write_ledger c s es).annotations k ≡ Dict.get s.annotations k)
      × ((write_ledger c s es).data_of ≡ s.data_of)
      × ((write_ledger c s es).resource_version ≡ s.resource_version)
unfolding read_ledger write_ledger parse_ledger trim_space
read_ledger-write_ledger c s [] h = (
  ap (λ t. parse_ledger c (trim_space t))
      (text_at-remove s.annotations ledger_annotation ledger_annotation),
  λ k ne. remove_other s.annotations k ne,
  refl,
  refl,
)
read_ledger-write_ledger c s (e ∷ es) h = (
  ap (λ t. parse_ledger c (trim_space t))
        (text_at-put s.annotations ledger_annotation ledger_annotation (c.codec.marshal (e ∷ es)))
      ∙ parse_marshal c (e ∷ es) h,
  λ k ne. put_other s.annotations k (c.codec.marshal (e ∷ es)) ne,
  refl,
  refl,
)
