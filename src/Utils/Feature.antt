-- ===== src/Utils/Feature.antt =====
-- internal/utils/feature.go: feature flags read from the environment.
use connaisseur.Prelude.{
  Bool, true, false, ◌||◌, Option, none, some, List, [], ◌∷◌, map, Text, lit, text_eq, to_lower,
  if◌then◌else◌,
}
use connaisseur.Constants.{
  automatic_child_approval, automatic_unchanged_approval, detection_mode, resource_validation_mode,
}

-- os.LookupEnv
abbrev pub Env : Type 0
Env = Text → Option Text

-- os.Getenv
abbrev pub getenv : Env → Text → Text
getenv env key = elim (env key) [ none ↦ [] | some v ↦ v ]

abbrev pub one_of : Text → List Text → Bool
one_of s [] = false
one_of s (t ∷ ts) = text_eq s t || one_of s ts

-- strconv.ParseBool
unfoldable pub parse_bool : Text → Option Bool
parse_bool s =
    if one_of s (map lit ("1" ∷ "t" ∷ "T" ∷ "TRUE" ∷ "true" ∷ "True" ∷ []))
    then some true
    else if one_of s (map lit ("0" ∷ "f" ∷ "F" ∷ "FALSE" ∷ "false" ∷ "False" ∷ []))
    then some false
    else none

-- the value of a flag that cannot be parsed; for an unknown flag that of ParseBool, false
unfoldable pub default_flag : Text → Bool
default_flag key =
    if text_eq key automatic_child_approval
    then true
    else if text_eq key automatic_unchanged_approval
    then false
    else if text_eq key detection_mode
    then false
    else false

unfoldable pub feature_flag_on : Env → Text → Bool
unfolding parse_bool default_flag
feature_flag_on env key = elim (parse_bool (getenv env key)) [
  | some flag ↦ flag
  | none ↦ default_flag key
]

unfoldable pub block_all_resources : Env → Bool
block_all_resources env =
    let mode = to_lower (getenv env resource_validation_mode) in
    if text_eq mode (lit "all") then true else if text_eq mode (lit "podsonly") then false else true
