-- ===== src/Kube.antt =====
-- What the operator sees of the Kubernetes API: the errors that k8s.io/apimachinery tells apart,
-- Secrets, and Go's time values. The API server itself is a parameter (Token/World.antt).
use vault_transit_unseal_ope.Base.{
  ◌/◌, ◌≡◌, arith, if◌then◌else◌, ◌==◌, ℕ, suc, ◌+◌, ◌-◌, ◌*◌, String, zero, Bool, none, some, ltb,
}
use vault_transit_unseal_ope.Base.Dict
use vault_transit_unseal_ope.Base.Dict.{Dict}

-- The reasons that the `apierrors.Is…` tests read, and the failures that none of them reads.
pub data KubeError : Type 0 where
  conflict invalid bad_request forbidden unauthorized not_found too_large : KubeError
  server_timeout too_many_requests internal unavailable dropped : KubeError

-- `apierrors.IsConflict`
abbrev pub is_conflict : KubeError → Bool
is_conflict conflict = Bool.true
is_conflict _ = Bool.false

-- `apierrors.IsNotFound`
abbrev pub is_not_found : KubeError → Bool
is_not_found not_found = Bool.true
is_not_found _ = Bool.false

pub record Secret : Type 0 where
  pub data_of : Dict String
  pub annotations : Dict String
  pub resource_version : ℕ

-- `m[k]`, where an absent key reads as the empty text
abbrev pub text_at : Dict String → String → String
text_at d k = elim (Dict.get d k) [ none ↦ "" | some v ↦ v ]

pub text_at-put :
    (d : Dict String) (k j v : String)
    → text_at (Dict.put d k v) j ≡ (if k == j then v else text_at d j)
text_at-put d k j v = ground (arith, Dict.get-put d k j v)

pub text_at-remove :
    (d : Dict String) (k j : String)
    → text_at (Dict.remove d k) j ≡ (if k == j then "" else text_at d j)
text_at-remove d k j = ground (arith, Dict.get-remove d k j)

-- Signed integers, as they come from Vault and from parsed durations; `negsuc n` is -(n + 1).
pub data ℤ : Type 0 where
  pos : ℕ → ℤ
  negsuc : ℕ → ℤ

-- A `time.Time` is the nanoseconds since Go's zero time (year 1); a `time.Duration` is a ℤ.
abbrev pub Instant : Type 0
Instant = ℕ

abbrev pub second : ℕ
second = 1000000000

-- `t.Add(d)`
unfoldable pub add_time : Instant → ℤ → Instant
add_time t (pos d) = t + d
add_time t (negsuc d) = t - suc d

-- `now.Sub(created) < period`
unfoldable pub younger_than : Instant → Instant → ℤ → Bool
younger_than now created (pos d) = ltb now (created + d)
younger_than now created (negsuc d) = ltb (now + suc d) created

-- `time.Unix(sec, 0)`: the Unix epoch is 62135596800 seconds after the zero time.
unfoldable pub from_unix : ℤ → Instant
unfolding add_time
from_unix (pos s) = (62135596800 + s) * second
from_unix (negsuc s) = (62135596800 - suc s) * second

unfoldable pub neg : ℕ → ℤ
neg zero = pos 0
neg (suc n) = negsuc n

-- `n * time.Second`
unfoldable pub seconds : ℤ → ℤ
unfolding neg
seconds (pos n) = pos (n * second)
seconds (negsuc n) = neg (suc n * second)

-- Go's integer division, which rounds towards zero
unfoldable pub quotient : ℤ → ℕ → ℤ
unfolding neg
quotient (pos n) k = pos (n / k)
quotient (negsuc n) k = neg (suc n / k)

-- `a > b`
unfoldable pub gtb : ℤ → ℤ → Bool
gtb (pos a) (pos b) = ltb b a
gtb (pos a) (negsuc b) = Bool.true
gtb (negsuc a) (pos b) = Bool.false
gtb (negsuc a) (negsuc b) = ltb a b
