-- ===== src/Base/Exec.antt =====
-- Methods that read and change a state: an action takes the state and returns a result beside the
-- new one. Errors are part of the result, since Go returns them as values.
use mathlib.Core.Path.{◌≡◌, refl}
use mathlib.Core.Bool.{Bool, true, false}
use vault_transit_unseal_ope.Base.Tests.{if◌then◌else◌}

abbrev pub Exec : Type 0 → Type 0 → Type 0
Exec S A = S → A × S

module _ {S A : Type 0} where
  unfoldable pub pure : A → Exec S A
  pure a s = (a, s)

  unfoldable pub gets : (S → A) → Exec S A
  gets f s = (f s, s)

module _ {S A B : Type 0} where
  infixl 10 ◌>>=◌ ◌>>◌
  unfoldable pub ◌>>=◌ : Exec S A → (A → Exec S B) → Exec S B
  unfolding pure gets
  ◌>>=◌ m f s = f (m s).0 (m s).1

  abbrev pub ◌>>◌ : Exec S A → Exec S B → Exec S B
  m >> n = m >>= λ _. n

-- `m` started in a state with `P` ends in one with `Q` of its result.
pub record Triple {S A : Type 0} (P : S → Type 0) (m : Exec S A) (Q : A → S → Type 0) : Type 0 where
  pub at : (s : S) → P s → Q (m s).0 (m s).1

abbrev pub Keeps : {S A : Type 0} → (S → Type 0) → Exec S A → Type 0
Keeps P m = Triple P m (λ _ s. P s)

module _ {S A : Type 0} {P : S → Type 0} where
  pub Keeps-pure : (result : A) → Keeps P (pure result)
  unfolding pure
  Keeps-pure result = record { at = λ start held. held }

  pub Keeps-gets : (field : S → A) → Keeps P (gets field)
  unfolding gets
  Keeps-gets field = record { at = λ start held. held }

  pub Keeps-if_eq :
      (test : Bool) (chosen otherwise : Exec S A)
      → (test ≡ true → Keeps P chosen)
      → (test ≡ false → Keeps P otherwise)
      → Keeps P (if test then chosen else otherwise)
  Keeps-if_eq true chosen otherwise on_chosen on_otherwise = on_chosen refl
  Keeps-if_eq false chosen otherwise on_chosen on_otherwise = on_otherwise refl

  pub Keeps-if :
      (test : Bool) (chosen otherwise : Exec S A)
      → Keeps P chosen
      → Keeps P otherwise
      → Keeps P (if test then chosen else otherwise)
  Keeps-if test chosen otherwise on_chosen on_otherwise =
      Keeps-if_eq test chosen otherwise (λ _. on_chosen) (λ _. on_otherwise)

module _ {S A : Type 0} {P : S → Type 0} {Q : A → S → Type 0} where
  pub Triple-if :
      (b : Bool) (m n : Exec S A) → Triple P m Q → Triple P n Q → Triple P (if b then m else n) Q
  Triple-if true m n tm tn = tm
  Triple-if false m n tm tn = tn

module _ {S A B : Type 0} {P : S → Type 0} where
  pub Keeps-bind :
      (first : Exec S A) (next : A → Exec S B)
      → Keeps P first
      → ((result : A) → Keeps P (next result))
      → Keeps P (first >>= next)
  unfolding ◌>>=◌
  Keeps-bind first next on_first on_next = record {
    at = λ start held. (on_next (first start).0).at (first start).1 (on_first.at start held);
  }

module _ {S A B : Type 0} {P : S → Type 0} {Q : A → S → Type 0} {R : B → S → Type 0} where
  pub Triple-bind :
      (m : Exec S A) (f : A → Exec S B)
      → Triple P m Q
      → ((a : A) → Triple (Q a) (f a) R)
      → Triple P (m >>= f) R
  unfolding ◌>>=◌
  Triple-bind m f km kf = record { at = λ s h. (kf (m s).0).at (m s).1 (km.at s h) }

pub ruleset keeps_rules = (Keeps-pure, Keeps-gets, Keeps-if, Keeps-bind)
