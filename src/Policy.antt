-- ===== src/Policy.antt =====
-- internal/policy: rules, and the comparison of two rules that match an image.
pub mod Order
pub mod Build
use connaisseur.Prelude.{
  ℕ, Bool, Option, none, List, [], ◌∷◌, map, Text, split, ltb, if◌then◌else◌, length, Result, ok,
  panic, ◌>>=◌,
}
use connaisseur.Utils.Strings.{longest_common_prefix}

pub record RuleOptions : Type 0 where
  pub trust_root : Text
  pub verify_tlog : Option Bool
  pub verify_sct : Option Bool
  pub threshold : ℕ
  pub required : List Text
  pub delegations : List Text
  pub validation_mode : Text
  pub verification_level : Text
  pub verify_timestamp : Text

pub record Rule : Type 0 where
  pub pattern : Text
  pub validator : Text
  pub with_options : RuleOptions

abbrev pub no_options : RuleOptions
no_options = record {
  trust_root = [];
  verify_tlog = none;
  verify_sct = none;
  threshold = 0;
  required = [];
  delegations = [];
  validation_mode = [];
  verification_level = [];
  verify_timestamp = [];
}

-- policy.Rule{}
abbrev pub empty_rule : Rule
empty_rule = record { pattern = []; validator = []; with_options = no_options }

pub record Match : Type 0 where
  pub rule : Rule
  pub component_count : ℕ
  pub component_lengths : List ℕ
  pub prefix_lengths : List ℕ

-- `pl[idx] = len(LongestCommonPrefix(components[idx], ic[idx]))`; `ic` may be the shorter slice
unfoldable pub shared_lengths : List Text → List Text → Result (List ℕ)
shared_lengths [] ic = ok []
shared_lengths (c ∷ cs) [] = panic
shared_lengths (c ∷ cs) (i ∷ is) = do
  p ← longest_common_prefix (c ∷ i ∷ [])
  ps ← shared_lengths cs is
  ok (length p ∷ ps)

unfoldable pub new_match : Rule → Text → Result Match
unfolding shared_lengths
new_match rule image = do
  let components = split rule.pattern b'/'
  pl ← shared_lengths components (split image b'/')
  ok (record {
    rule = rule;
    component_count = length components;
    component_lengths = map length components;
    prefix_lengths = pl;
  })

-- The outcome of comparing the two matches index by index.
pub data Verdict : Type 0 where
  first second tie : Verdict

-- `for idx := range l1`, indexing `l2`
unfoldable pub compare_lengths : List ℕ → List ℕ → Result Verdict
compare_lengths [] ys = ok tie
compare_lengths (x ∷ xs) [] = panic
compare_lengths (x ∷ xs) (y ∷ ys) =
    let later = compare_lengths xs ys in
    if ltb y x then ok first else if ltb x y then ok second else later

abbrev pub decide_on : Verdict → Match → Match → Result Match → Result Match
decide_on first m1 m2 next = ok m1
decide_on second m1 m2 next = ok m2
decide_on tie m1 m2 next = next

unfoldable pub compare : Match → Match → Result Match
unfolding compare_lengths
compare m1 m2 =
    if ltb m2.component_count m1.component_count
    then ok m1
    else if ltb m1.component_count m2.component_count
    then ok m2
    else do
      by_prefix ← compare_lengths m1.prefix_lengths m2.prefix_lengths
      decide_on by_prefix m1 m2 (do
        by_length ← compare_lengths m1.component_lengths m2.component_lengths
        decide_on by_length m1 m2 (ok m1))
