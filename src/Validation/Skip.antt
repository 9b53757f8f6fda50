-- ===== src/Validation/Skip.antt =====
-- internal/handler/validation/skip.go: when the validation of an image is skipped. The decoder of a
-- cached entry is encoding/json's, and a parameter.
pub mod Reasons
use connaisseur.Prelude.{
  String, Bool, true, false, not, ◌||◌, Option, none, some, List, [], ◌∷◌, ◌++◌, Text, lit, text_eq,
  if◌then◌else◌, is_empty, Result, ok, err, panic, ◌>>=◌,
}
use connaisseur.Constants.{automatic_unchanged_approval, automatic_child_approval}
use connaisseur.Utils.Feature.{Env, feature_flag_on, block_all_resources}
use connaisseur.Image.{Image}
use connaisseur.Caching.{Store}

pub record CachedEntry : Type 0 where
  pub digest : Text
  pub error : Text

-- json.Unmarshal into a CachedEntry
abbrev pub Unmarshal : Type 0
Unmarshal = Text → Result CachedEntry

pub record SkipResult : Type 0 where
  pub skip : Bool
  pub skip_reason : Text
  pub validated_digest : Text
  pub validation_error : Option Text

-- `for _, i := range images { if i == original { return true } }`
unfoldable pub has_image : List Text → Text → Bool
has_image [] original = false
has_image (i ∷ is) original = text_eq i original || has_image is original

unfoldable pub automatic_unchanged : Env → Image → List Text → Bool
unfolding has_image
automatic_unchanged env img previous_images =
    if feature_flag_on env automatic_unchanged_approval
    then has_image previous_images img.original
    else false

-- the images of the parents are asked for only where the feature is on and all resources are blocked
unfoldable pub automatic_child : Env → Image → Result (List Text) → Result Bool
unfolding has_image
automatic_child env img parent_images =
    if feature_flag_on env automatic_child_approval
    then (if not (block_all_resources env)
        then ok false
        else (parent_images >>= λ images. ok (has_image images img.original)))
    else ok false

-- what the cache says of an image; an entry with an error carries that error
pub data Cached : Type 0 where
  digest : Text → Cached
  error : Text → Cached
  miss : Text → Cached

abbrev pub of_entry : CachedEntry → Cached
of_entry e =
    if not (is_empty e.error)
    then error e.error
    else if is_empty e.digest
    then miss (lit "empty cached digest")
    else digest e.digest

abbrev of_json : Result CachedEntry → Result Cached
of_json (ok e) = ok (of_entry e)
of_json (err e) = ok (miss (lit "error unmarshalling cached entry: " ++ e))
of_json panic = panic

abbrev of_value : Unmarshal → Text → Result Text → Result Cached
of_value unmarshal original (ok val) = of_json (unmarshal val)
of_value unmarshal original (err e) =
    ok (miss (lit "cache miss for image " ++ (original ++ (lit ": " ++ e))))
of_value unmarshal original panic = panic

unfoldable pub get_cached_digest : Unmarshal → Result Text → Image → Result Cached
get_cached_digest unmarshal value img = of_value unmarshal img.original value

abbrev pub cached_result : Cached → SkipResult
cached_result (digest d) = record {
  skip = true;
  skip_reason = lit "cache hit";
  validated_digest = d;
  validation_error = none;
}
cached_result (error e) = record {
  skip = true;
  skip_reason = lit "cache hit";
  validated_digest = [];
  validation_error = some e;
}
cached_result (miss e) = record {
  skip = false;
  skip_reason = [];
  validated_digest = [];
  validation_error = none;
}

abbrev pub approved : String → Image → SkipResult
approved reason img = record {
  skip = true;
  skip_reason = lit reason;
  validated_digest = img.digest;
  validation_error = none;
}

-- Skip; `value` is what the cache returns for the image
unfoldable pub skip :
    Env → Unmarshal → Result Text → Image → List Text → Result (List Text) → Result SkipResult
unfolding automatic_unchanged automatic_child get_cached_digest
skip env unmarshal value img previous_images parent_images =
    if automatic_unchanged env img previous_images
    then ok (approved "unchanged image reference" img)
    else (automatic_child env img parent_images >>= λ child.
        if child
        then ok (approved "automatic approval of child image reference" img)
        else (get_cached_digest unmarshal value img >>= λ c. ok (cached_result c)))
