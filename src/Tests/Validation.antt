-- ===== src/Tests/Validation.antt =====
-- The validation of an image by a static validator, and a validation that is skipped.
use connaisseur.Prelude.{
  ◌≡◌, refl, ◌⊎◌, true, false, Option, none, some, List, [], ◌∷◌, lit, text_eq, trim_suffix, split,
  contains, if◌then◌else◌, Result, ok, err,
}
use connaisseur.Constants.{automatic_unchanged_approval}
use connaisseur.Utils.Feature.{Env}
use connaisseur.Image
use connaisseur.Caching.{empty_store}
use connaisseur.Validators.Interface.{Validator}
use connaisseur.Validators.Static
use connaisseur.Validation.Skip.{Unmarshal, SkipResult, approved, skip}
use connaisseur.Validation.Skip.Reasons.{IsUnchanged, IsChild, IsCached, skip-reasons}
use connaisseur.Validation.Image.{
  ValidationInput, ValidationOutput, Metric, Locals, Setup, validate,
}
use connaisseur.Validation.Image.Accepted.{IsAccepted}
use connaisseur.Validation.Image.Outcomes.{IsSentFrom, validate-IsAccepted}
use connaisseur.Tests.Samples.{no_env, parse_hub, hub_image, rule_for, substring_glob}

abbrev pub no_entries : Unmarshal
no_entries = λ text. err (lit "no entry")

abbrev pub approving : Validator
approving = record {
  name = lit "default";
  type = lit "static";
  specific_validator =
      Static.validate_image (record { name = lit "default"; type = lit "static"; approve = true });
}

-- one rule for all images, and a validator that approves them
abbrev pub setup : Setup
setup = record {
  env = no_env;
  parse = parse_hub;
  glob = substring_glob;
  unmarshal = no_entries;
  rules = rule_for (lit "*") [] ∷ [];
  validators = approving ∷ [];
  cache = empty_store;
}

abbrev input : ValidationInput
input = record { idxs_types = []; image = lit "nginx"; previous_images = []; parent_images = ok [] }

abbrev result_of :
    Result ((Option ValidationOutput × List Metric) × Unit {0}) → ValidationOutput × List Metric
result_of (ok ((some o, ms), st)) = (o, ms)
result_of r = (
  record {
    idxs_types = [];
    raw_image = [];
    new_image = [];
    old_image = [];
    error = some [];
    validator = [];
    skipped = false;
    skip_reason = [];
    validation_mode = [];
  },
  [],
)

abbrev sent : ValidationOutput × List Metric
sent = result_of (validate setup false input tt)

validate_example :
    (l : Locals) × IsAccepted setup input tt l
    × IsSentFrom input (sent.0) l
    × (i : Image.Image) × (Image.new setup.parse (sent.0).new_image ≡ ok i)
unfolding validate lit text_eq Image.new connaisseur.Config.matching_rule
    connaisseur.Policy.new_match connaisseur.Prelude.split
    connaisseur.Utils.Strings.longest_common_prefix connaisseur.Prelude.contains Image.name
    Image.tag_and_digest connaisseur.Prelude.trim_suffix connaisseur.Policy.compare
    connaisseur.Config.validator_of connaisseur.Validation.Image.with_validator
    connaisseur.Validators.Interface.validate_image Static.validate_image
validate_example = validate-IsAccepted setup input tt tt (sent.0) (sent.1) refl refl

abbrev unchanged_on : Env
unchanged_on = λ key. if text_eq key automatic_unchanged_approval then some (lit "true") else none

abbrev unchanged : SkipResult
unchanged = approved "unchanged image reference" (hub_image (lit "nginx"))

skip_example :
    ((IsUnchanged unchanged_on (hub_image (lit "nginx")) (lit "nginx" ∷ [])
        ⊎ IsChild unchanged_on (hub_image (lit "nginx")) (ok []))
      × (unchanged.validated_digest ≡ (hub_image (lit "nginx")).digest)
      × (unchanged.validation_error ≡ none))
    ⊎ IsCached no_entries (err (lit "miss")) unchanged
unfolding skip lit text_eq connaisseur.Utils.Feature.feature_flag_on
skip_example =
    skip-reasons unchanged_on no_entries (err (lit "miss")) (hub_image (lit "nginx"))
      (lit "nginx" ∷ []) (ok []) unchanged refl refl
