-- ===== src/Tests/Caches.antt =====
-- A validation whose digest is cached.
use connaisseur.Prelude.{
  ◌≡◌, refl, ◌≢◌, ◌⊎◌, true, false, none, [], ◌∷◌, arith, Text, lit, text_eq, text_eq_iff,
  text_eq_refl, if◌then◌else◌, ok, err, ok-injective,
}
use connaisseur.Constants.{static_validator}
use connaisseur.Image
use connaisseur.Image.{Image}
use connaisseur.Caching.{Store}
use connaisseur.Validators.Interface.{Validator}
use connaisseur.Validation.Skip.{Unmarshal, SkipResult}
use connaisseur.Validation.Image.{
  ValidationInput, Locals, Setup, with_validator, chosen, entry_text,
}
use connaisseur.Validation.Image.Caches.{IsStoring, FindsDigest, FindsError, with_validator-Finds}
use connaisseur.Tests.Samples.{no_env, parse_hub, hub_image, rule_for, substring_glob}

-- the entry that was set last
abbrev one_entry : Store
one_entry = record {
  State = Text × Text;
  get = λ st key. if text_eq st.0 key then ok (st.1) else err (lit "miss");
  set = λ st key value. ((key, value), none);
}

one_entry-IsStoring : IsStoring one_entry
one_entry-IsStoring st key value = rw (text_eq_refl key) refl

-- a decoder of the one entry
abbrev decode : Unmarshal
decode text =
    if text_eq text (entry_text (lit "sha256:abc") [])
    then ok (record { digest = lit "sha256:abc"; error = [] })
    else err (lit "no entry")

abbrev signing : Validator
signing = record {
  name = lit "default";
  type = lit "cosign";
  specific_validator = λ img opts. (ok (lit "abc"), img);
}

abbrev setup : Setup
setup = record {
  env = no_env;
  parse = parse_hub;
  glob = substring_glob;
  unmarshal = decode;
  rules = rule_for (lit "*") [] ∷ [];
  validators = signing ∷ [];
  cache = one_entry;
}

abbrev input : ValidationInput
input = record { idxs_types = []; image = lit "nginx"; previous_images = []; parent_images = ok [] }

abbrev image : Image
image = hub_image (lit "nginx")

abbrev not_skipped : SkipResult
not_skipped = record {
  skip = false;
  skip_reason = [];
  validated_digest = [];
  validation_error = none;
}

abbrev new_name : Text
new_name = lit "index.docker.io/nginx:latest@sha256:abc"

abbrev after : Locals
after = record (chosen signing (rule_for (lit "*") [])) {
  old_img = lit "index.docker.io/nginx:latest";
  new_img = new_name;
}

abbrev left_entry : Text × Text
left_entry = (lit "nginx", entry_text (lit "sha256:abc") [])

no_contradiction : false ≡ true → ⊥
no_contradiction h = ground arith

not_static : signing.type ≢ static_validator
unfolding text_eq lit
not_static = λ e. no_contradiction ((text_eq_iff signing.type static_validator).1 e)

some_digest : ok (lit "abc") ≢ ok []
unfolding lit
some_digest = λ e. absurd (ground (arith, ok-injective e))

cached_example :
    FindsDigest setup one_entry-IsStoring image image (refl, refl, refl) after left_entry
    ⊎ FindsError setup one_entry-IsStoring image image (refl, refl, refl) after ([], []) left_entry
unfolding with_validator lit text_eq connaisseur.Validation.Skip.skip
    connaisseur.Utils.Feature.feature_flag_on connaisseur.Utils.Feature.block_all_resources
    connaisseur.Prelude.to_lower connaisseur.Validators.Interface.validate_image entry_text
    connaisseur.Utils.Json.json_escape_string Image.set_digest connaisseur.Prelude.has_prefix
    Image.name
cached_example =
    with_validator-Finds setup one_entry-IsStoring image image (refl, refl, refl) signing
      (rule_for (lit "*") []) input ([], []) left_entry not_skipped (ok (lit "abc")) after
      not_static refl refl refl some_digest refl refl
