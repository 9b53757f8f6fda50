-- ===== src/Caching.antt =====
-- internal/caching: the choice of the cache by the configuration, and what the program relies on of
-- a cache: a `Store` is any cache, and Redis one of them.
pub mod Choice
pub mod Redis
use connaisseur.Prelude.{
  ◌^◌, ℕ, zero, suc, ◌+◌, ◌-◌, ◌*◌, ◌%◌, Bool, true, false, ◌&&◌, Option, none, some, [], ◌∷◌, Text,
  lit, ltb, leb, ◌==◌, if◌then◌else◌, Result, err,
}
use connaisseur.Constants.{cache_expiry_seconds_key, cache_errors_key, default_cache_expiry_seconds}
use connaisseur.Utils.Feature.{Env, parse_bool}

-- an int64: `negative n` is -(n + 1)
pub data Int64 : Type 0 where
  nonnegative negative : ℕ → Int64

digits : ℕ → Text → Option ℕ
digits n [] = some n
digits n (c ∷ s) =
    let rest = digits (n * 10 + (c - 48)) s in if leb 48 c && leb c 57 then rest else none

abbrev unsigned : Text → Option ℕ
unsigned [] = none
unsigned (c ∷ s) = digits 0 (c ∷ s)

abbrev positive_int : Option ℕ → Option Int64
positive_int none = none
positive_int (some n) = if ltb n (2 ^ 63) then some (nonnegative n) else none

abbrev negative_int : Option ℕ → Option Int64
negative_int none = none
negative_int (some zero) = some (nonnegative 0)
negative_int (some (suc n)) = if ltb n (2 ^ 63) then some (negative n) else none

-- strconv.ParseInt(s, 10, 64)
unfoldable pub parse_int : Text → Option Int64
unfolding digits
parse_int [] = none
parse_int (c ∷ s) =
    if c == b'-'
    then negative_int (unsigned s)
    else if c == b'+'
    then positive_int (unsigned s)
    else positive_int (unsigned (c ∷ s))

-- the two implementations of Cacher; the expiry is a Duration, an int64 of nanoseconds by its bits
pub data Cacher : Type 0 where
  empty_cache : Cacher
  redis : ℕ → Cacher

-- time.Duration(seconds) * time.Second
unfoldable pub duration : ℕ → ℕ
duration seconds = seconds * 1_000_000_000 % 2 ^ 64

abbrev choose : Int64 → Cacher
choose (negative n) = empty_cache
choose (nonnegative n) = if n == 0 then empty_cache else redis (duration n)

unfoldable pub expiry_seconds : Env → Int64
unfolding parse_int
expiry_seconds env = elim (env cache_expiry_seconds_key) [
  | none ↦ nonnegative default_cache_expiry_seconds
  | some configured ↦ elim (parse_int configured) [
    | none ↦ nonnegative default_cache_expiry_seconds
    | some n ↦ n
  ]
]

unfoldable pub new_cacher : Env → Cacher
unfolding expiry_seconds duration
new_cacher env = choose (expiry_seconds env)

-- the value that ParseBool returns beside an error is false
unfoldable pub cache_errors : Env → Bool
cache_errors env = elim (env cache_errors_key) [
  | none ↦ true
  | some configured ↦ elim (parse_bool configured) [ none ↦ false | some b ↦ b ]
]

-- Get and Set of the interface Cacher, over the cache's state
pub record Store : Type 1 where
  pub State : Type 0
  pub get : State → Text → Result Text
  pub set : State → Text → Text → State × Option Text

-- EmptyCache
abbrev pub empty_store : Store
empty_store = record {
  State = Unit;
  get = λ s key. err (lit "cache disabled");
  set = λ s key value. (s, none);
}
