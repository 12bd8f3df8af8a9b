-- ===== src/Base/Lists.antt =====
-- Lists measured by native numbers, and predicates on lists by recursion.
use Prim.Native.Nat.{ℕ, suc, ◌+◌}
use mathlib.Core.Path.{◌≡◌}
use mathlib.Core.Bool.{Bool, false, ◌||◌}
use mathlib.Core.Logic.{◌⊎◌, inl, inr}
use mathlib.Core.List.{List, [], ◌∷◌, ◌++◌}
use native.Mathlib.Omega.{arith}

module _ {ℓ} {A : Type ℓ} where
  abbrev pub length : List A → ℕ
  length [] = 0
  length (x ∷ xs) = suc (length xs)

  abbrev pub any : (A → Bool) → List A → Bool
  any p [] = false
  any p (x ∷ xs) = p x || any p xs

  abbrev pub All : (A → Type 0) → List A → Type 0
  All P [] = Unit {0}
  All P (x ∷ xs) = P x × All P xs

  -- There is an element of which `P` holds.
  abbrev pub Some : (A → Type 0) → List A → Type 0
  Some P [] = ⊥
  Some P (x ∷ xs) = P x ⊎ Some P xs

  pub length-append : (xs ys : List A) → length (xs ++ ys) ≡ length xs + length ys
  length-append [] ys = omega arith
  length-append (x ∷ xs) ys = omega (arith, length-append xs ys)

  pub All-of : (P : A → Type 0) → ((a : A) → P a) → (xs : List A) → All P xs
  All-of P f [] = tt
  All-of P f (x ∷ xs) = (f x, All-of P f xs)

  pub All-map : (P Q : A → Type 0) → ((a : A) → P a → Q a) → (xs : List A) → All P xs → All Q xs
  All-map P Q f [] h = tt
  All-map P Q f (x ∷ xs) h = (f x h.0, All-map P Q f xs h.1)

  pub All-append : (P : A → Type 0) (xs ys : List A) → All P xs → All P ys → All P (xs ++ ys)
  All-append P [] ys hx hy = hy
  All-append P (x ∷ xs) ys hx hy = (hx.0, All-append P xs ys hx.1 hy)

  pub Some-append_left : (P : A → Type 0) (xs ys : List A) → Some P xs → Some P (xs ++ ys)
  Some-append_left P [] ys h = absurd h
  Some-append_left P (x ∷ xs) ys h = elim h [
    | inl a ↦ inl a
    | inr t ↦ inr (Some-append_left P xs ys t)
  ]

  pub Some-append_right : (P : A → Type 0) (xs ys : List A) → Some P ys → Some P (xs ++ ys)
  Some-append_right P [] ys h = h
  Some-append_right P (x ∷ xs) ys h = inr (Some-append_right P xs ys h)

  -- Every element satisfies `P`, so does the one that satisfies `Q`.
  pub All-Some : (P Q : A → Type 0) (xs : List A) → All P xs → Some Q xs → Some (λ a. P a × Q a) xs
  All-Some P Q [] h s = s
  All-Some P Q (x ∷ xs) h s = elim s [ inl q ↦ inl (h.0, q) | inr t ↦ inr (All-Some P Q xs h.1 t) ]
