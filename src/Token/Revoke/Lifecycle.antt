-- ===== src/Token/Revoke/Lifecycle.antt =====
-- What `applyLifecycleAnnotations` leaves on the Secret.
use Prim.Native.String.{◌++◌}
use vault_transit_unseal_ope.Base.{
  String, false, inl, inr, Option, Bool-cases, not, none, some, ◌≡◌, ap, sym, ◌∙◌, if◌then◌else◌,
  eq_iff,
}
use vault_transit_unseal_ope.Base.Dict
use vault_transit_unseal_ope.Kube.{Secret, text_at}
use vault_transit_unseal_ope.Token.World.{TokenManagement}
use vault_transit_unseal_ope.Token.Revoke.{
  auto_rotate_key, rotation_period_key, next_rotation_key, lifecycle_text, annotate_lifecycle,
  apply_lifecycle_annotations,
}

-- What the annotations say of rotation
pub record IsTruthful (tm : TokenManagement) (s : Secret) : Type 0 where
  pub auto_rotate :
      Dict.get s.annotations auto_rotate_key ≡ (if tm.auto_rotate then some "true" else none)
  pub period :
      Dict.get s.annotations rotation_period_key
      ≡ (if tm.auto_rotate then some tm.rotation_period else none)
  pub next : Dict.get s.annotations next_rotation_key ≡ none

annotate_lifecycle-IsTruthful :
    (tm : TokenManagement) (s : Secret) → IsTruthful tm (annotate_lifecycle tm s)
unfolding annotate_lifecycle
annotate_lifecycle-IsTruthful tm s = elim (Bool-cases tm.auto_rotate) [
  | inl e ↦ record {
    auto_rotate = rw e (simp Dict.dict_laws);
    period = rw e (simp Dict.dict_laws);
    next = rw e (simp Dict.dict_laws);
  }
  | inr e ↦ record {
    auto_rotate = rw e (simp Dict.dict_laws);
    period = rw e (simp Dict.dict_laws);
    next = rw e (simp Dict.dict_laws);
  }
]

abbrev text_of : Option String → String
text_of o = elim o [ none ↦ "" | some v ↦ v ]

lifecycle_text_eq :
    (tm : TokenManagement) (s t : Secret)
    → IsTruthful tm s
    → IsTruthful tm t
    → lifecycle_text s ≡ lifecycle_text t
unfolding lifecycle_text
lifecycle_text_eq tm s t h k =
    ap
      (λ (o : Option String).
        text_of o
        ++ "|"
        ++ text_at s.annotations rotation_period_key
        ++ "|"
        ++ text_at s.annotations next_rotation_key)
      (h.auto_rotate ∙ sym k.auto_rotate)
    ∙ ap
        (λ (o : Option String).
          text_at t.annotations auto_rotate_key
          ++ "|"
          ++ text_of o
          ++ "|"
          ++ text_at s.annotations next_rotation_key)
        (h.period ∙ sym k.period)
    ∙ ap
        (λ (o : Option String).
          text_at t.annotations auto_rotate_key
          ++ "|"
          ++ text_at t.annotations rotation_period_key
          ++ "|"
          ++ text_of o)
        (h.next ∙ sym k.next)

-- The annotations are truthful after a pass, and a second pass over them reports no change; so a
-- Secret is not written again and again for their sake.
pub apply_lifecycle_annotations-settles :
    (tm : TokenManagement) (s : Secret)
    → IsTruthful tm (apply_lifecycle_annotations tm s).0
      × ((apply_lifecycle_annotations tm (apply_lifecycle_annotations tm s).0).1 ≡ false)
unfolding apply_lifecycle_annotations
apply_lifecycle_annotations-settles tm s =
    let s' = annotate_lifecycle tm s in
    (
      annotate_lifecycle-IsTruthful tm s,
      ap not (
          (eq_iff (lifecycle_text s') (lifecycle_text (annotate_lifecycle tm s'))).1 (
            lifecycle_text_eq tm s' (annotate_lifecycle tm s') (annotate_lifecycle-IsTruthful tm s)
              (annotate_lifecycle-IsTruthful tm s'))),
    )
