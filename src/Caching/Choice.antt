-- ===== src/Caching/Choice.antt =====
-- For how long results are cached.
use connaisseur.Prelude.{
  ◌^◌, ℕ, zero, suc, ◌*◌, ◌%◌, ◌≤◌, ◌<◌, ◌≡◌, refl, ◌⊎◌, inl, inr, Option, none, some, arith, Text,
  lit,
}
use connaisseur.Utils.Feature.{Env}
use connaisseur.Caching.{
  Option, parse_int, none, Cacher, lit, Int64, negative, empty_cache, redis, nonnegative,
  new_cacher, expiry_seconds, duration,
}

abbrev pub IsPositive : Int64 → Type 0
IsPositive (nonnegative n) = 0 < n
IsPositive (negative n) = ⊥

-- At most the seconds whose nanoseconds an int64 holds.
abbrev pub FitsNanoseconds : Int64 → Type 0
FitsNanoseconds (nonnegative n) = n ≤ 9_223_372_036
FitsNanoseconds (negative n) = Unit

-- The expiry that the environment sets: that of the variable where it is a number, or else the default.
abbrev pub IsExpiryOf : Env → Int64 → Type 0
IsExpiryOf env z =
    ((env (lit "CACHE_EXPIRY_SECONDS") ≡ none) × (z ≡ nonnegative 30))
    ⊎ ((t : Text) × (env (lit "CACHE_EXPIRY_SECONDS") ≡ some t)
        × ((parse_int t ≡ some z) ⊎ ((parse_int t ≡ none) × (z ≡ nonnegative 30))))

expiry_seconds-IsExpiryOf : (env : Env) → IsExpiryOf env (expiry_seconds env)
unfolding expiry_seconds
expiry_seconds-IsExpiryOf env = of_variable (env (lit "CACHE_EXPIRY_SECONDS")) refl
  where
    of_number :
        (t : Text) (o : Option Int64)
        → env (lit "CACHE_EXPIRY_SECONDS") ≡ some t
        → parse_int t ≡ o
        → IsExpiryOf env (elim o as (λ _. Int64) [ none ↦ nonnegative 30 | some n ↦ n ])
    of_number t none e q = inr (t, e, inr (q, refl))
    of_number t (some n) e q = inr (t, e, inl q)

    of_variable :
        (o : Option Text)
        → env (lit "CACHE_EXPIRY_SECONDS") ≡ o
        → IsExpiryOf env (elim o as (λ _. Int64) [
          | none ↦ nonnegative 30
          | some t ↦ elim (parse_int t) as (λ _. Int64) [ none ↦ nonnegative 30 | some n ↦ n ]
        ])
    of_variable none e = inl (e, refl)
    of_variable (some t) e = of_number t (parse_int t) e refl

-- The cache for an expiry: Redis where it is positive, which expires after that number of seconds, a
-- positive int64 of nanoseconds; and else the empty one.
abbrev pub IsChosen : Int64 → Cacher → Type 0
IsChosen z cacher =
    (IsPositive z
      → (n : ℕ) × (z ≡ nonnegative n)
        × (cacher ≡ redis (n * 1_000_000_000))
        × (0 < n * 1_000_000_000)
        × (n * 1_000_000_000 < 2 ^ 63))
    × (¬ IsPositive z → cacher ≡ empty_cache)

new_cacher-IsChosen :
    (env : Env) (z : Int64)
    → expiry_seconds env ≡ z
    → FitsNanoseconds z
    → IsChosen z (new_cacher env)
unfolding new_cacher duration
new_cacher-IsChosen env (negative n) h le = (λ p. absurd p, λ _. rw h refl)
new_cacher-IsChosen env (nonnegative zero) h le = (λ p. absurd (omega arith), λ _. rw h refl)
new_cacher-IsChosen env (nonnegative (suc n)) h le =
    let same : suc n * 1_000_000_000 % 2 ^ 64 ≡ suc n * 1_000_000_000 = omega arith in
    (
      λ _. (suc n, refl, ground (arith, h, same), omega arith, omega arith),
      λ not_positive. absurd (not_positive (omega arith)),
    )

-- There is the expiry that the variable CACHE_EXPIRY_SECONDS sets, or 30 where it is not set or not a
-- number. Where its nanoseconds fit into an int64, zero and negative ones among them: the cache is Redis
-- where it is positive, and expires after that number of seconds, which is a positive int64 of nanoseconds;
-- and else the cache is the empty one.
pub new_cacher-expiry :
    (env : Env) → (z : Int64) × IsExpiryOf env z × (FitsNanoseconds z → IsChosen z (new_cacher env))
new_cacher-expiry env = (
  expiry_seconds env,
  expiry_seconds-IsExpiryOf env,
  new_cacher-IsChosen env (expiry_seconds env) refl,
)
