-- ===== src/Config.antt =====
-- internal/config/config.go: the configured validators and rules, and the choice of a rule.
pub mod Load
pub mod Matching
use connaisseur.Prelude.{
  Bool, not, Option, none, some, List, [], ◌∷◌, ◌++◌, Text, lit, text_eq, has_prefix, has_suffix,
  if◌then◌else◌, is_empty, Result, ok, err, panic, ◌>>=◌,
}
use connaisseur.Validators.Interface.{Validator}
use connaisseur.Policy.{Rule, empty_rule, Match, new_match, compare}

-- glob.MustCompile: `none` where it panics, else the matcher of the pattern
abbrev pub Glob : Type 0
Glob = Text → Option (Text → Bool)

unfoldable pub wrap_pattern : Text → Text
wrap_pattern pattern =
    let p = if has_prefix pattern (lit "*") then pattern else lit "*" ++ pattern in
    if has_suffix p (lit "*") then p else p ++ lit "*"

-- g.Match(image)
unfoldable pub matches : Glob → Rule → Text → Result Bool
unfolding wrap_pattern
matches glob rule image = elim (glob (wrap_pattern rule.pattern)) [
  | none ↦ panic
  | some g ↦ ok (g image)
]

-- the body of the loop over the rules
unfoldable pub consider : Glob → Text → Rule → Match → Result Match
unfolding matches
consider glob image rule best = do
  matched ← matches glob rule image
  if matched then (do m ← new_match rule image; compare m best) else ok best

unfoldable pub best_of : Glob → Text → List Rule → Match → Result Match
best_of glob image [] best = ok best
best_of glob image (rule ∷ rules) best = do
  next ← consider glob image rule best
  best_of glob image rules next

abbrev pub no_matching_rule : Text
no_matching_rule = lit "no matching rule"

unfoldable pub matching_rule : Glob → List Rule → Text → Result Rule
unfolding consider best_of
matching_rule glob rules image = do
  start ← new_match empty_rule []
  best ← best_of glob image rules start
  if is_empty best.rule.pattern then err no_matching_rule else ok best.rule

-- Config.Validator
unfoldable pub find_validator : List Validator → Text → Result Validator
find_validator [] key = err (lit "validator \"" ++ (key ++ lit "\" not found"))
find_validator (v ∷ vs) key =
    let rest = find_validator vs key in if text_eq v.name key then ok v else rest

unfoldable pub validator_of : List Validator → Text → Result Validator
unfolding find_validator
validator_of vs key = find_validator vs (if is_empty key then lit "default" else key)
