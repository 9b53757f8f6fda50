-- ===== src/Tests/Rules.antt =====
-- The choice of a rule, of credentials and of trust roots, and the configured expiry.
use connaisseur.Prelude.{
  ◌≡◌, refl, ◌≢◌, ◌⊎◌, inl, true, false, none, some, List, [], ◌∷◌, arith, Text, lit, text_eq,
  has_prefix, trim_suffix, split, contains, if◌then◌else◌, length, is_empty, All, In, ok, err,
  panic,
}
use connaisseur.Constants.{cache_expiry_seconds_key}
use connaisseur.Utils.Strings.{text_le}
use connaisseur.Utils.Feature.{Env}
use connaisseur.Policy.{Rule, Match, new_match, compare}
use connaisseur.Policy.Order.{key, compare-key}
use connaisseur.Policy.Build.{new_match-panic}
use connaisseur.Config.{matches, matching_rule, no_matching_rule}
use connaisseur.Config.Matching.{Matched, IsUsable, IsMostSpecific, matching_rule-IsMostSpecific}
use connaisseur.Validators.Auth.{AuthEntry, Auth, no_entry, look_up}
use connaisseur.Validators.Auth.LookUp.{Bounded, look_up-longest}
use connaisseur.Validators.TrustRoots.{TrustRoot, get_trust_roots}
use connaisseur.Validators.TrustRoots.Names.{names, IsAsked, get_trust_roots-names}
use connaisseur.Caching.{Int64, empty_cache, redis, nonnegative, new_cacher, expiry_seconds}
use connaisseur.Caching.Choice.{IsExpiryOf, FitsNanoseconds, IsChosen, new_cacher-expiry}
use connaisseur.Tests.Samples.{rule_for, substring_glob, are_ascii, are_ascii-IsAscii}

abbrev image : Text
image = lit "index.docker.io/library/nginx:latest"

abbrev any_rule : Rule
any_rule = rule_for (lit "*") (lit "default")

abbrev library_rule : Rule
library_rule = rule_for (lit "index.docker.io/library") (lit "allow")

image_ascii : are_ascii (split image b'/') ≡ true
unfolding are_ascii split lit
image_ascii = refl

any_ascii : are_ascii (split any_rule.pattern b'/') ≡ true
unfolding are_ascii split lit
any_ascii = refl

library_ascii : are_ascii (split library_rule.pattern b'/') ≡ true
unfolding are_ascii split lit
library_ascii = refl

any-IsUsable : IsUsable substring_glob image any_rule
unfolding matches lit split contains trim_suffix
any-IsUsable = record {
  compiles = inl refl;
  not_empty = refl;
  fits = λ m. record {
    pattern_ascii = are_ascii-IsAscii _ any_ascii;
    image_ascii = are_ascii-IsAscii _ image_ascii;
    enough = omega arith;
  };
}

library-IsUsable : IsUsable substring_glob image library_rule
unfolding matches lit split contains trim_suffix
library-IsUsable = record {
  compiles = inl refl;
  not_empty = refl;
  fits = λ m. record {
    pattern_ascii = are_ascii-IsAscii _ library_ascii;
    image_ascii = are_ascii-IsAscii _ image_ascii;
    enough = omega arith;
  };
}

abbrev rules : List Rule
rules = library_rule ∷ any_rule ∷ []

matching_rule_example :
    ((rule : Rule) × (matching_rule substring_glob rules image ≡ ok rule)
      × IsMostSpecific substring_glob image rules rule)
    ⊎ ((matching_rule substring_glob rules image ≡ err no_matching_rule)
        × All (λ r. ¬ Matched substring_glob image r) rules)
matching_rule_example =
    matching_rule-IsMostSpecific substring_glob rules image (library-IsUsable, (any-IsUsable, tt))

abbrev first_match : Match
first_match = record {
  rule = library_rule;
  component_count = 2;
  component_lengths = 15 ∷ 7 ∷ [];
  prefix_lengths = 15 ∷ 7 ∷ [];
}

abbrev second_match : Match
second_match = record {
  rule = any_rule;
  component_count = 1;
  component_lengths = 1 ∷ [];
  prefix_lengths = 0 ∷ [];
}

compare_example :
    compare second_match first_match
    ≡ ok (if text_le (key first_match) (key second_match) then second_match else first_match)
compare_example =
    compare-key second_match first_match
      (record { prefixes_counted = refl; lengths_counted = refl; not_empty = omega arith })
      (record { prefixes_counted = refl; lengths_counted = refl; not_empty = omega arith })

new_match-panic_example : new_match library_rule (lit "nginx") ≡ panic
unfolding split lit are_ascii
new_match-panic_example =
    new_match-panic library_rule (lit "nginx")
      (are_ascii-IsAscii (split library_rule.pattern b'/') library_ascii)
      (are_ascii-IsAscii (split (lit "nginx") b'/') refl) (omega arith)

abbrev alice : AuthEntry
alice = record { username = lit "alice"; password = lit "secret" }

abbrev bob : AuthEntry
bob = record { username = lit "bob"; password = lit "secret" }

abbrev credentials : Auth
credentials = record {
  auth_configs = (lit "ghcr.io", alice) ∷ (lit "ghcr.io/team", bob) ∷ [];
  use_keychain = false;
}

look_up_example :
    ((k : Text) × (is_empty k ≡ false)
      × In (k, look_up credentials (lit "ghcr.io/team/app")) credentials.auth_configs
      × (has_prefix (lit "ghcr.io/team/app") k ≡ true)
      × Bounded (lit "ghcr.io/team/app") (length k) credentials.auth_configs)
    ⊎ ((look_up credentials (lit "ghcr.io/team/app") ≡ no_entry)
        × Bounded (lit "ghcr.io/team/app") 0 credentials.auth_configs)
unfolding lit
look_up_example = look_up-longest credentials (lit "ghcr.io/team/app") (((λ e. cc e), tt), (tt, tt))

look_up_run : look_up credentials (lit "ghcr.io/team/app") ≡ bob
unfolding look_up lit text_eq has_prefix
look_up_run = refl

abbrev root : Text → TrustRoot
root name = record {
  name = name;
  key = lit "key";
  cert = [];
  ts_cert = [];
  keyless = record { issuer = []; subject = []; issuer_regex = []; subject_regex = [] };
}

abbrev roots : List TrustRoot
roots = root (lit "alice") ∷ root (lit "default") ∷ []

get_trust_roots_example :
    (asked : List Text) × IsAsked [] true asked
    × (((asked ≡ lit "*" ∷ []) × (root (lit "default") ∷ [] ≡ roots))
        ⊎ ((asked ≢ lit "*" ∷ [])
            × (names (root (lit "default") ∷ []) ≡ asked)
            × All (λ tr. In tr roots) (root (lit "default") ∷ [])
            × (is_empty (root (lit "default") ∷ []) ≡ false)))
unfolding get_trust_roots lit text_eq
get_trust_roots_example = get_trust_roots-names [] roots true (root (lit "default") ∷ []) refl

abbrev one_minute : Env
one_minute = λ key. if text_eq key cache_expiry_seconds_key then some (lit "60") else none

new_cacher_example :
    (z : Int64) × IsExpiryOf one_minute z × (FitsNanoseconds z → IsChosen z (new_cacher one_minute))
new_cacher_example = new_cacher-expiry one_minute

new_cacher_run : new_cacher one_minute ≡ redis 60_000_000_000
unfolding new_cacher expiry_seconds lit text_eq connaisseur.Caching.duration
new_cacher_run = refl
