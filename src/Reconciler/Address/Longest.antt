-- ===== src/Reconciler/Address/Longest.antt =====
-- Which key of a ConfigMap a composite key is read by, and that the order of the keys is of no matter.
use vault_transit_unseal_ope.Base.Dict
use vault_transit_unseal_ope.Base.Dict.{Dict}
use vault_transit_unseal_ope.Base.Split.{cut}
use vault_transit_unseal_ope.Kube.{text_at}
use mathlib.Core.Path.{subst}
use text.Mathlib.TextLemmas.{append_assoc}
use vault_transit_unseal_ope.Base.{
  ◌+◌, Bool, Option, Option-cases, false, none, some, ◌==◌, Bool-cases, [], ap, arith, if_cases,
  if◌then◌else◌, inl, inr, ltb, refl, ℕ, ◌&&◌, ◌∷◌, All, List, Some, String, sym, true, ◌∙◌, ◌≡◌,
  ◌≤◌, ◌⊎◌,
}
use Prim.Native.String.{len, slice}
use Prim.Native.String
use text.Mathlib.TextPositions.{slice-zero-zero, slice-append_left}
use text.Mathlib.TextEquality.{starts_with_iff}
use vault_transit_unseal_ope.Reconciler.Address.{
  Fields, dot, extract_composite, extract_yaml_value, longest_base, is_base, by_first_dot,
}

abbrev Held : String → List String → Type 0
Held k ks = Some (λ j. j ≡ k) ks

base_part : (key k : String) → is_base key k ≡ true → slice key 0 (len k) ≡ k
unfolding is_base
base_part key k h =
    let (rest, e) = (starts_with_iff key (String.◌++◌ k ".")).0 h in
    subst (λ t. slice t 0 (len k) ≡ k) (sym (append_assoc k "." rest) ∙ e)
      (slice-append_left k (String.◌++◌ "." rest))

module _ (key : String) where
  abbrev better : String → String → String
  better best k = if is_base key k && ltb (len best) (len k) then k else best

  better-Part :
      (best k : String)
      → slice key 0 (len best) ≡ best
      → slice key 0 (len (better best k)) ≡ better best k
  better-Part best k h = elim (Bool-cases (is_base key k)) [
    | inl b ↦
        if_cases (λ t. slice key 0 (len t) ≡ t) (is_base key k && ltb (len best) (len k)) k best
          (λ _. base_part key k b) (λ _. h)
    | inr n ↦ rw n h
  ]

  -- What was found is a part of the key.
  longest_part :
      (best : String) (ks : List String)
      → slice key 0 (len best) ≡ best
      → slice key 0 (len (longest_base key best ks)) ≡ longest_base key best ks
  unfolding longest_base
  longest_part best [] h = h
  longest_part best (k ∷ ks) h = longest_part (better best k) ks (better-Part best k h)

  -- It is what was there before, or a base that the list holds.
  longest_origin :
      (best : String) (ks : List String)
      → (longest_base key best ks ≡ best)
        ⊎ Held (longest_base key best ks) ks × (is_base key (longest_base key best ks) ≡ true)
  unfolding longest_base
  longest_origin best [] = inl refl
  longest_origin best (k ∷ ks) = elim (longest_origin (better best k) ks) [
    | inr h ↦ inr (inr h.0, h.1)
    | inl e ↦ elim (Bool-cases (is_base key k && ltb (len best) (len k))) [
      | inl t ↦
          (let e' : longest_base key (better best k) ks ≡ k = ground (arith, e, t) in
            inr (inl (sym e'), subst (λ b. is_base key b ≡ true) (sym e') (ground (arith, t))))
      | inr f ↦ inl (ground (arith, e, f))
    ]
  ]

  -- It is as long as what was there before and as each base of the list.
  longest_bound :
      (best : String) (ks : List String)
      → (len best ≤ len (longest_base key best ks))
        × All (λ k. is_base key k ≡ true → len k ≤ len (longest_base key best ks)) ks
  unfolding longest_base
  longest_bound best [] = (omega arith, tt)
  longest_bound best (k ∷ ks) =
      let ih = longest_bound (better best k) ks in
      let r : ℕ = len (longest_base key (better best k) ks) in
      elim (Bool-cases (is_base key k && ltb (len best) (len k))) [
        | inl t ↦
            (let e : better best k ≡ k = rw t in
              let grown : len k ≤ r = subst (λ b. len b ≤ r) e ih.0 in
              (ground (arith, t, grown), ((λ _. grown), ih.1)))
        | inr f ↦
            (let e : better best k ≡ best = rw f in
              let kept : len best ≤ r = subst (λ b. len b ≤ r) e ih.0 in
              (kept, ((λ b. ground (arith, f, b, kept)), ih.1)))
      ]

  abbrev SameKeys : List String → List String → Type 0
  SameKeys xs ys = (k : String) → Held k xs → Held k ys

  bound_of :
      (k : String) (ks : List String) (n : ℕ)
      → All (λ j. is_base key j ≡ true → len j ≤ n) ks
      → Held k ks
      → is_base key k ≡ true
      → len k ≤ n
  bound_of k [] n a h b = elim h [ ]
  bound_of k (j ∷ js) n a (inl e) b =
      subst (λ t. len t ≤ n) e (a.0 (subst (λ t. is_base key t ≡ true) (sym e) b))
  bound_of k (j ∷ js) n a (inr h) b = bound_of k js n a.1 h b

  longest-le :
      (xs ys : List String)
      → SameKeys xs ys
      → len (longest_base key "" xs) ≤ len (longest_base key "" ys)
  longest-le xs ys same = elim (longest_origin "" xs) [
    | inl e ↦ rw e (longest_bound "" ys).0
    | inr h ↦
        bound_of (longest_base key "" xs) ys (len (longest_base key "" ys)) (longest_bound "" ys).1
          (same (longest_base key "" xs) h.0) h.1
  ]

  longest-eq :
      (xs ys : List String)
      → SameKeys xs ys
      → SameKeys ys xs
      → longest_base key "" xs ≡ longest_base key "" ys
  longest-eq xs ys there back =
      let start = slice-zero-zero key in
      let n : len (longest_base key "" xs) ≡ len (longest_base key "" ys) =
        omega (arith, longest-le xs ys there, longest-le ys xs back) in
      sym (longest_part "" xs start) ∙ ap (slice key 0) n ∙ longest_part "" ys start

if_eq :
    {A : Type 0} (b : Bool) {x y x' y' : A}
    → x ≡ x'
    → y ≡ y'
    → (if b then x else y) ≡ (if b then x' else y')
if_eq true p q = p
if_eq false p q = q

text-eq :
    (m n : Dict String) (k : String)
    → ((k : String) → Dict.get m k ≡ Dict.get n k)
    → text_at m k ≡ text_at n k
text-eq m n k same =
    let read : Option String → String = λ o. elim o [ none ↦ "" | some v ↦ v ] in ap read (same k)

same_keys :
    (m n : Dict String)
    → ((k : String) → Dict.get m k ≡ Dict.get n k)
    → (k : String) → Held k (Dict.keys m)
    → Held k (Dict.keys n)
same_keys m n same k h = elim (Option-cases (Dict.get n k)) [
  | inl e ↦ absurd (Dict.get_of_keys m k h (same k ∙ e))
  | inr (v, e) ↦ Dict.keys_of_get n k v e
]

by_first_dot-eq :
    (parse : String → Option Fields) (m n : Dict String) (parts : Option (String × String))
    → ((k : String) → Dict.get m k ≡ Dict.get n k)
    → by_first_dot parse m parts ≡ by_first_dot parse n parts
unfolding by_first_dot
by_first_dot-eq parse m n none same = refl
by_first_dot-eq parse m n (some (base, path)) same =
    let read : Option String → Option String =
      λ o. elim o [ none ↦ none | some v ↦ extract_yaml_value parse v path ] in
    ap read (same base)

-- What `extractCompositeConfigMapValue` finds depends only on what the map holds under each key, and not
-- on the order in which its keys are ranged over: the longest key that is a base of the composite one is
-- the same in every order.
pub extract_composite-eq :
    (parse : String → Option Fields) (m n : Dict String) (key : String)
    → ((k : String) → Dict.get m k ≡ Dict.get n k)
    → extract_composite parse m key ≡ extract_composite parse n key
unfolding extract_composite
extract_composite-eq parse m n key same =
    let base : longest_base key "" (Dict.keys m) ≡ longest_base key "" (Dict.keys n) =
      longest-eq key (Dict.keys m) (Dict.keys n) (same_keys m n same)
        (same_keys n m (λ k. sym (same k))) in
    let chosen = longest_base key "" (Dict.keys n) in
    let path = slice key (len chosen + 1) (len key) in
    rw base (
      if_eq (chosen == "") (by_first_dot-eq parse m n (cut dot key) same) (
        if_eq (path == "") refl
          (ap (λ v. extract_yaml_value parse v path) (text-eq m n chosen same))))
