-- ===== src/Base/Dict.antt =====
-- Go's `map[string]V`. A nil map and an empty one read alike, so both are `empty`; the order of
-- iteration is not modelled. Proofs use `dict_laws`; only runs compute.
use vault_transit_unseal_ope.Base.{suc, ℕ, ◌<◌, ◌≤◌}
use Prim.Native.String.{String}
use mathlib.Core.Bool.{Bool, true, false, ◌||◌}
use mathlib.Core.Path.{◌≡◌, refl}
use mathlib.Core.Option.{Option, none, some}
use mathlib.Core.List.{List, [], ◌∷◌}
use native.Mathlib.Omega.{arith}
use text.Mathlib.Text.{◌==◌}
use text.Mathlib.TextEquality.{eq_iff}
use mathlib.Core.Logic.{◌≢◌, inl, inr}
use vault_transit_unseal_ope.Base.Lists.{Some}
use vault_transit_unseal_ope.Base.Tests.{Bool-cases, if◌then◌else◌}

pub record Dict {ℓ} (V : Type ℓ) : Type ℓ where
  pub entries : List (String × V)

module _ {ℓ} {V : Type ℓ} where
  unfoldable pub find : String → List (String × V) → Option V
  find k [] = none
  find k ((j, v) ∷ l) = if j == k then some v else find k l

  unfoldable pub drop_key : String → List (String × V) → List (String × V)
  drop_key k [] = []
  drop_key k ((j, v) ∷ l) = let rest = drop_key k l in if j == k then rest else (j, v) ∷ rest

  find-drop_key :
      (k j : String) (l : List (String × V))
      → find j (drop_key k l) ≡ (if k == j then none else find j l)
  unfolding find drop_key
  find-drop_key k j [] = ground arith
  find-drop_key k j ((i, v) ∷ l) =
      ground (arith, find-drop_key k j l, eq_iff i k, eq_iff i j, eq_iff k j)

  -- `v, ok := m[k]`
  unfoldable pub get : Dict V → String → Option V
  unfolding find
  get m k = find k m.entries

  -- `_, ok := m[k]`
  unfoldable pub holds : Dict V → String → Bool
  unfolding get
  holds m k = elim (get m k) [ none ↦ false | some v ↦ true ]

  -- `m[k] = v`
  unfoldable pub put : Dict V → String → V → Dict V
  unfolding drop_key
  put m k v = record { entries = (k, v) ∷ drop_key k m.entries }

  -- `delete(m, k)`
  unfoldable pub remove : Dict V → String → Dict V
  unfolding drop_key
  remove m k = record { entries = drop_key k m.entries }

  pub get-put :
      (m : Dict V) (written key : String) (new : V)
      → get (put m written new) key ≡ (if written == key then some new else get m key)
  unfolding get put
  get-put m written key new = unfold find in ground (arith, find-drop_key written key m.entries)

  pub get-remove :
      (m : Dict V) (gone key : String)
      → get (remove m gone) key ≡ (if gone == key then none else get m key)
  unfolding get remove
  get-remove m gone key = find-drop_key gone key m.entries

module _ {ℓ} {V : Type ℓ} where
  unfoldable pub key_list : List (String × V) → List String
  key_list [] = []
  key_list ((k, v) ∷ l) = k ∷ key_list l

  -- The keys, in the order of the entries
  unfoldable pub keys : Dict V → List String
  unfolding key_list
  keys m = key_list m.entries

  some_key : (String → Bool) → List (String × V) → Bool
  some_key p [] = false
  some_key p ((k, v) ∷ l) = p k || some_key p l

  -- `for k := range m`, for a key of which `p` holds
  unfoldable pub any_key : (String → Bool) → Dict V → Bool
  unfolding some_key
  any_key p m = some_key p m.entries

module _ {ℓ} {V : Type ℓ} where
  held_of_find :
      (k : String) (v : V) (l : List (String × V))
      → find k l ≡ some v
      → Some (λ j. j ≡ k) (key_list l)
  unfolding find key_list
  held_of_find k v [] h = absurd (cc h)
  held_of_find k v ((j, w) ∷ l) h = elim (Bool-cases (j == k)) [
    | inl e ↦ inl ((eq_iff j k).0 e)
    | inr n ↦ inr (held_of_find k v l (rw n at h))
  ]

  find_of_held :
      (k : String) (l : List (String × V)) → Some (λ j. j ≡ k) (key_list l) → find k l ≢ none
  unfolding find key_list
  find_of_held k [] h n = elim h [ ]
  find_of_held k ((j, w) ∷ l) (inl e) n = ground (arith, eq_iff j k, e, n)
  find_of_held k ((j, w) ∷ l) (inr h) n = ground (arith, eq_iff j k, find_of_held k l h, n)

  -- The keys are those that the map holds a value for.
  pub keys_of_get :
      (m : Dict V) (k : String) (v : V) → get m k ≡ some v → Some (λ j. j ≡ k) (keys m)
  unfolding get keys
  keys_of_get m k v h = held_of_find k v m.entries h

  pub get_of_keys : (m : Dict V) (k : String) → Some (λ j. j ≡ k) (keys m) → get m k ≢ none
  unfolding get keys
  get_of_keys m k h = find_of_held k m.entries h

module _ {ℓ} {V : Type ℓ} where
  unfoldable pub count_entries : List (String × V) → ℕ
  count_entries [] = 0
  count_entries (e ∷ l) = suc (count_entries l)

  -- `len(m)`
  unfoldable pub size : Dict V → ℕ
  unfolding count_entries
  size m = count_entries m.entries

  drop_key-le :
      (k : String) (l : List (String × V)) → count_entries (drop_key k l) ≤ count_entries l
  unfolding count_entries drop_key
  drop_key-le k [] = omega arith
  drop_key-le k ((j, v) ∷ l) = ground (arith, drop_key-le k l)

  drop_key-lt :
      (k : String) (l : List (String × V)) {v : V}
      → find k l ≡ some v
      → count_entries (drop_key k l) < count_entries l
  unfolding count_entries drop_key find
  drop_key-lt k [] h = cc
  drop_key-lt k ((j, w) ∷ l) h = elim (Bool-cases (j == k)) [
    | inl e ↦ rw e (omega (arith, drop_key-le k l))
    | inr n ↦ rw n (omega (arith, drop_key-lt k l (rw n at h)))
  ]

  -- Removing a key that is there makes the map smaller.
  pub size-remove :
      (m : Dict V) (k : String) {v : V} → get m k ≡ some v → size (remove m k) < size m
  unfolding size remove get
  size-remove m k h = drop_key-lt k m.entries h

module _ {ℓ} {V : Type ℓ} where
  unfoldable pub empty : Dict V
  empty = record { entries = [] }

  pub get-empty : (key : String) → get empty key ≡ none
  unfolding get empty
  get-empty key = refl

pub ruleset dict_laws = (get-put, get-remove, get-empty)
