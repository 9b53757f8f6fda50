-- ===== src/Utils/Logging.antt =====
-- internal/utils/logging.go: the level and the format of the log, and the streams of the libraries that
-- are redirected to it. The levels are those of logrus, of which the source lists five.
use connaisseur.Prelude.{
  ℕ, ◌+◌, ◌≡◌, refl, ◌≢◌, ◌⊎◌, inl, inr, Bool, true, false, Option, none, some, List, [], ◌∷◌, ◌++◌,
  Text, lit, text_eq, text_eq_iff, to_lower, ltb, leb, if◌then◌else◌, Bool-cases, length,
}
use connaisseur.Constants.{log_level_key, log_format_key}
use connaisseur.Utils.Feature.{Env, getenv}

pub data Level : Type 0 where
  debug info warn error fatal : Level

unfoldable pub log_level : Text → Level
log_level s =
    let l = to_lower s in
    if text_eq l (lit "debug")
    then debug
    else if text_eq l (lit "info")
    then info
    else if text_eq l (lit "warn")
    then warn
    else if text_eq l (lit "error")
    then error
    else if text_eq l (lit "fatal")
    then fatal
    else info

abbrev pub connaisseur_log_level : Env → Level
connaisseur_log_level env = log_level (getenv env log_level_key)

pub data Format : Type 0 where
  json json_pretty : Format

unfoldable pub log_format : Text → Format
log_format s =
    let l = to_lower s in
    if text_eq l (lit "json")
    then json
    else if text_eq l (lit "json-pretty")
    then json_pretty
    else json_pretty

abbrev pub connaisseur_log_format : Env → Format
connaisseur_log_format env = log_format (getenv env log_format_key)

abbrev pub log_levels : List Level
log_levels = debug ∷ info ∷ warn ∷ error ∷ fatal ∷ []

abbrev pub same_level : Level → Level → Bool
same_level debug debug = true
same_level info info = true
same_level warn warn = true
same_level error error = true
same_level fatal fatal = true
same_level _ _ = false

-- the index in the list of the last element that is the level, or what it was
unfoldable pub index_of : List Level → ℕ → Level → Option ℕ → Option ℕ
index_of [] i level idx = idx
index_of (l ∷ ls) i level idx =
    index_of ls (i + 1) level (if same_level level l then some i else idx)

pub data Sign : Type 0 where
  negative zero_diff positive : Sign

-- the sign of idx1 - idx2, where an index that was not found is -1
abbrev pub sign_of : Option ℕ → Option ℕ → Sign
sign_of none none = zero_diff
sign_of none (some j) = negative
sign_of (some i) none = positive
sign_of (some i) (some j) = if ltb i j then negative else if ltb j i then positive else zero_diff

unfoldable pub compare_levels : Level → Level → Sign
unfolding index_of
compare_levels level1 level2 =
    sign_of (index_of log_levels 0 level1 none) (index_of log_levels 0 level2 none)

abbrev pub not_negative : Sign → Bool
not_negative negative = false
not_negative zero_diff = true
not_negative positive = true

-- whether the streams Debug, Progress and Warn are redirected
pub record Redirected : Type 0 where
  pub debug_stream : Bool
  pub progress_stream : Bool
  pub warn_stream : Bool

abbrev redirected_at : Level → Redirected
redirected_at current = record {
  debug_stream = not_negative (compare_levels debug current);
  progress_stream = not_negative (compare_levels info current);
  warn_stream = not_negative (compare_levels warn current);
}

unfoldable pub redirected : Env → Redirected
unfolding compare_levels log_level
redirected env = redirected_at (connaisseur_log_level env)

-- how severe the messages of a level are
abbrev pub severity : Level → ℕ
severity debug = 0
severity info = 1
severity warn = 2
severity error = 3
severity fatal = 4

-- what is redirected at a level, by the severities
abbrev pub streams_at : Level → Redirected
streams_at current = record {
  debug_stream = leb (severity current) (severity debug);
  progress_stream = leb (severity current) (severity info);
  warn_stream = leb (severity current) (severity warn);
}

-- logTranslator.Write: the lines that are logged, and the number of bytes
abbrev pub write : List Text → Text → List Text × ℕ
write lines b = (lines ++ (b ∷ []), length b)

abbrev pub level_name : Level → Text
level_name debug = lit "debug"
level_name info = lit "info"
level_name warn = lit "warn"
level_name error = lit "error"
level_name fatal = lit "fatal"

-- The level has this name, in upper or lower case, or it is info, and no level has the name.
abbrev pub IsLevelOf : Text → Level → Type 0
IsLevelOf s l =
    (to_lower s ≡ level_name l) ⊎ ((l ≡ info) × ((k : Level) → to_lower s ≢ level_name k))

log_level-IsLevelOf : (s : Text) → IsLevelOf s (log_level s)
unfolding log_level
log_level-IsLevelOf s = elim (Bool-cases (text_eq (to_lower s) (lit "debug"))) [
  | inl e ↦ rw e (inl ((text_eq_iff _ _).0 e))
  | inr e1 ↦ elim (Bool-cases (text_eq (to_lower s) (lit "info"))) [
    | inl e ↦ rw (e1, e) (inl ((text_eq_iff _ _).0 e))
    | inr e2 ↦ elim (Bool-cases (text_eq (to_lower s) (lit "warn"))) [
      | inl e ↦ rw (e1, e2, e) (inl ((text_eq_iff _ _).0 e))
      | inr e3 ↦ elim (Bool-cases (text_eq (to_lower s) (lit "error"))) [
        | inl e ↦ rw (e1, e2, e3, e) (inl ((text_eq_iff _ _).0 e))
        | inr e4 ↦ elim (Bool-cases (text_eq (to_lower s) (lit "fatal"))) [
          | inl e ↦ rw (e1, e2, e3, e4, e) (inl ((text_eq_iff _ _).0 e))
          | inr e5 ↦ rw (e1, e2, e3, e4, e5) (inr (refl, unnamed e1 e2 e3 e4 e5))
        ]
      ]
    ]
  ]
]
  where
    unnamed :
        text_eq (to_lower s) (lit "debug") ≡ false
        → text_eq (to_lower s) (lit "info") ≡ false
        → text_eq (to_lower s) (lit "warn") ≡ false
        → text_eq (to_lower s) (lit "error") ≡ false
        → text_eq (to_lower s) (lit "fatal") ≡ false
        → (k : Level) → to_lower s ≢ level_name k
    unnamed a b c d e debug = λ q. cc (a, (text_eq_iff _ _).1 q)
    unnamed a b c d e info = λ q. cc (b, (text_eq_iff _ _).1 q)
    unnamed a b c d e warn = λ q. cc (c, (text_eq_iff _ _).1 q)
    unnamed a b c d e error = λ q. cc (d, (text_eq_iff _ _).1 q)
    unnamed a b c d e fatal = λ q. cc (e, (text_eq_iff _ _).1 q)

pub connaisseur_log_level-IsLevelOf :
    (env : Env) → IsLevelOf (getenv env (lit "LOG_LEVEL")) (connaisseur_log_level env)
connaisseur_log_level-IsLevelOf env = log_level-IsLevelOf (getenv env (lit "LOG_LEVEL"))

pub redirected-streams : (env : Env) → redirected env ≡ streams_at (connaisseur_log_level env)
unfolding redirected compare_levels index_of
redirected-streams env = at_level (connaisseur_log_level env)
  where
    at_level : (l : Level) → redirected_at l ≡ streams_at l
    at_level debug = refl
    at_level info = refl
    at_level warn = refl
    at_level error = refl
    at_level fatal = refl

-- There is a level that the variable LOG_LEVEL names, in upper or lower case, or that is info where it
-- names none, such that a stream of the libraries is redirected exactly where its messages are at least as
-- severe as that level.
pub redirected-severity :
    (env : Env)
    → (l : Level) × IsLevelOf (getenv env (lit "LOG_LEVEL")) l × (redirected env ≡ streams_at l)
redirected-severity env =
    (connaisseur_log_level env, connaisseur_log_level-IsLevelOf env, redirected-streams env)
