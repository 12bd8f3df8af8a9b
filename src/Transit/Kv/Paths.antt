-- ===== src/Transit/Kv/Paths.antt =====
-- The paths of the KV engine.
use vault_transit_unseal_ope.Base.{ap, ◌∙◌, Bool-cases, String, inl, inr, refl, some, sym, ◌≡◌}
use vault_transit_unseal_ope.Base.Split.{cut, trim_char}
use vault_transit_unseal_ope.Transit.Kv.{slash, get_data_path, get_metadata_path, under_mount}
use Prim.Native.String.{◌++◌, ◌∷◌}
use Prim.Native.String.append
use text.Mathlib.TextLemmas.{append_assoc}
use vault_transit_unseal_ope.Base.Split.{cut, trim_char}
use text.Mathlib.Text.{starts_with}
use text.Mathlib.TextEquality.{starts_with_iff}

-- The mount's name, character by character
spelled :
    (rest : String) → "secret/" ++ rest ≡ "s" ∷ ("e" ∷ ("c" ∷ ("r" ∷ ("e" ∷ ("t" ∷ ("/" ∷ rest))))))
spelled rest =
    append.cons "s" "ecret/" rest
    ∙ ap (λ t. "s" ∷ t)
        (append.cons "e" "cret/" rest
          ∙ ap (λ t. "e" ∷ t)
              (append.cons "c" "ret/" rest
                ∙ ap (λ t. "c" ∷ t)
                    (append.cons "r" "et/" rest
                      ∙ ap (λ t. "r" ∷ t)
                          (append.cons "e" "t/" rest
                            ∙ ap (λ t. "e" ∷ t)
                                (append.cons "t" "/" rest
                                  ∙ ap (λ t. "t" ∷ t)
                                      (append.cons "/" "" rest
                                        ∙ ap (λ t. "/" ∷ t) (append.nil rest)))))))

cut_mount : (rest : String) → cut slash ("secret/" ++ rest) ≡ some ("secret", rest)
unfolding cut
cut_mount rest = rw (spelled rest) refl

-- A part between the mount and the rest
inserted :
    (part rest : String)
    → "secret" ++ ("/" ++ (part ++ ("/" ++ rest))) ≡ ("secret/" ++ (part ++ "/")) ++ rest
inserted part rest = sym (
    append_assoc "secret/" (part ++ "/") rest
    ∙ append_assoc "secret" "/" ((part ++ "/") ++ rest)
    ∙ ap (λ t. "secret" ++ ("/" ++ t)) (append_assoc part "/" rest))

-- The path under the mount is that of the mount and a rest.
rest_of : (path : String) → (rest : String) × (under_mount path ≡ "secret/" ++ rest)
unfolding under_mount
rest_of path =
    let p = trim_char slash path in
    elim (Bool-cases (starts_with p "secret/")) [
      | inl t ↦ (let (rest, e) = (starts_with_iff p "secret/").0 t in (rest, rw t (sym e)))
      | inr f ↦ (p, rw f)
    ]

-- Whatever the path, there is a rest of it under the mount `secret`: the data path is this rest under
-- `secret/data/`, and the metadata path the same rest under `secret/metadata/`, so what is deleted is
-- what was written.
pub paths-of_rest :
    (path : String)
    → (rest : String) × (get_data_path path ≡ "secret/data/" ++ rest)
      × (get_metadata_path path ≡ "secret/metadata/" ++ rest)
unfolding get_data_path get_metadata_path
paths-of_rest path =
    let (rest, e) = rest_of path in
    (
      rest,
      rw (e, cut_mount rest) (inserted "data" rest),
      rw (e, cut_mount rest) (inserted "metadata" rest),
    )
