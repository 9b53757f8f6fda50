-- ===== src/Validation/Image.antt =====
-- internal/handler/validation/validation.go, ValidateImage, and validation_metrics.go. The function's
-- variables are a record; what the deferred function does with them is `settle`.
pub mod Accepted
pub mod Outcomes
pub mod Caches
use connaisseur.Prelude.{
  Bool, true, false, Option, none, some, List, [], ◌∷◌, ◌++◌, Text, lit, text_eq, if◌then◌else◌,
  is_empty, Result, ok, err, panic, ◌>>=◌,
}
use connaisseur.Constants.{mutate_mode, validate_mode, static_validator}
use connaisseur.Utils.Feature.{Env}
use connaisseur.Utils.Json.{json_escape_string}
use connaisseur.Image
use connaisseur.Image.{Image, ParseReference}
use connaisseur.Policy.{Rule}
use connaisseur.Config.{Glob, matching_rule, validator_of}
use connaisseur.Caching.{Store, cache_errors}
use connaisseur.Kubernetes.Containers.{IdxType}
use connaisseur.Validators.Interface.{Validator, validate_image}
use connaisseur.Validation.Skip.{Unmarshal, SkipResult, skip}

pub record ValidationInput : Type 0 where
  pub idxs_types : List IdxType
  pub image : Text
  pub previous_images : List Text
  -- what ParentImagesFunc returns
  pub parent_images : Result (List Text)

pub record ValidationOutput : Type 0 where
  pub idxs_types : List IdxType
  pub raw_image : Text
  pub new_image : Text
  pub old_image : Text
  pub error : Option Text
  pub validator : Text
  pub skipped : Bool
  pub skip_reason : Text
  pub validation_mode : Text

-- the counters that are incremented, with their labels
pub data Metric : Type 0 where
  timeouted : Text → Text → Metric
  successful : Text → Text → Metric
  failed : Text → Text → Metric
  skipped : Text → Text → Text → Metric

pub record Locals : Type 0 where
  pub new_img : Text
  pub old_img : Text
  pub err_out : Option Text
  pub validator_name : Text
  pub skipped : Bool
  pub skip_reason : Text
  pub validation_mode : Text
  pub validator_type : Text

abbrev pub initial : Locals
initial = record {
  new_img = [];
  old_img = [];
  err_out = none;
  validator_name = [];
  skipped = false;
  skip_reason = [];
  validation_mode = [];
  validator_type = lit "unknown";
}

-- The rest of the environment: what the context and the libraries give.
pub record Setup : Type 1 where
  pub env : Env
  pub parse : ParseReference
  pub glob : Glob
  pub unmarshal : Unmarshal
  pub rules : List Rule
  pub validators : List Validator
  pub cache : Store

abbrev failing : Locals → Text → Locals
failing l e = record l { err_out = some e }

-- oldImg = img.Name(); newImg = img.SetDigest(digest).Name()
abbrev pub with_images : Locals → Image → Text → Locals
with_images l img digest = record l {
  old_img = Image.name img;
  new_img = Image.name (Image.set_digest img digest);
}

unfoldable pub mode_of : Text → Text
mode_of mode =
    if text_eq mode mutate_mode
    then mutate_mode
    else if text_eq mode validate_mode
    then validate_mode
    else mutate_mode

-- the variables once the validator and the mode are chosen
abbrev pub chosen : Validator → Rule → Locals
chosen v rule = record initial {
  validator_type = v.type;
  validator_name = v.name;
  validation_mode = mode_of rule.with_options.validation_mode;
}

unfoldable pub entry_text : Text → Text → Text
entry_text digest error =
    lit "{\"digest\":\""
    ++ (json_escape_string digest
        ++ (lit "\",\"error\":\"" ++ (json_escape_string error ++ lit "\"}")))

abbrev static_deny : Image → Rule → Text
static_deny img rule =
    lit "static deny for image " ++ (img.original ++ (lit " using rule " ++ rule.pattern))

abbrev static_outcome : Locals → Rule → Result Text × Image → Result Locals
static_outcome l rule (ok digest, img) = ok (with_images l img digest)
static_outcome l rule (err e, img) = ok (failing l (static_deny img rule))
static_outcome l rule (panic, img) = panic

abbrev pub validation_error : Validator → Image → Text → Text
validation_error v img e =
    lit "error during "
    ++ (v.type ++ (lit " validation of image " ++ (img.original ++ (lit ": " ++ e))))

abbrev pub skipped_outcome : Locals → Image → SkipResult → Locals
skipped_outcome l img s = record (with_images l img s.validated_digest) {
  skipped = true;
  skip_reason = s.skip_reason;
  err_out = s.validation_error;
}

module _ (setup : Setup) where
  open setup use {env, parse, glob, unmarshal, rules, validators, cache}

  -- the call of the validator, and what is cached of its result
  abbrev validated :
      Locals → Validator → cache.State → Result Text × Image → Result (Locals × cache.State)
  validated l v st (ok digest, img) =
      let img' = Image.set_digest img digest in
      ok (
        with_images l img digest,
        if is_empty img'.digest
            then st
            else (cache.set st img.original (entry_text img'.digest [])).0,
      )
  validated l v st (err e, img) =
      let msg = validation_error v img e in
      ok (
        failing l msg,
        if cache_errors env then (cache.set st img.original (entry_text [] msg)).0 else st,
      )
  validated l v st (panic, img) = panic

  unfoldable pub with_validator :
      Validator → Rule → Image → ValidationInput → cache.State → Result (Locals × cache.State)
  with_validator v rule img input st =
      let l = chosen v rule in
      if text_eq v.type static_validator
      then (static_outcome l rule (validate_image v img rule.with_options) >>= λ l'. ok (l', st))
      else (skip env unmarshal (cache.get st img.original) img input.previous_images
            input.parent_images
          >>= λ s.
              if s.skip
              then ok (skipped_outcome l img s, st)
              else validated l v st (validate_image v img rule.with_options))

  abbrev with_rule :
      Image
      → ValidationInput
      → cache.State
      → Rule
      → Result Validator
      → Result (Locals × cache.State)
  with_rule img input st rule (ok v) = with_validator v rule img input st
  with_rule img input st rule (err e) = ok (failing initial e, st)
  with_rule img input st rule panic = panic

  abbrev with_image :
      Image → ValidationInput → cache.State → Result Rule → Result (Locals × cache.State)
  with_image img input st (ok rule) =
      with_rule img input st rule (validator_of validators rule.validator)
  with_image img input st (err e) = ok (failing initial e, st)
  with_image img input st panic = panic

  abbrev with_reference :
      ValidationInput → cache.State → Result Image → Result (Locals × cache.State)
  with_reference input st (ok img) =
      with_image img input st (matching_rule glob rules (Image.name img))
  with_reference input st (err e) = ok (failing initial (lit "invalid image reference"), st)
  with_reference input st panic = panic

  -- the body, up to the deferred function
  unfoldable pub run : ValidationInput → cache.State → Result (Locals × cache.State)
  run input st = with_reference input st (Image.new parse input.image)

-- an error of the new reference counts only where there is none yet
abbrev check_reference : Locals → Result Image → Result (Option Text)
check_reference l (ok i) = ok none
check_reference l (err e) =
    ok
      (some (lit "validated image reference " ++ (l.new_img ++ (lit " has invalid format: " ++ e))))
check_reference l panic = panic

abbrev checked : ParseReference → Locals → Option Text → Result (Option Text)
checked parse l (some e) = ok (some e)
checked parse l none = check_reference l (Image.new parse l.new_img)

abbrev result_metric : Locals → Option Text → Metric
result_metric l none = successful l.validator_type l.validator_name
result_metric l (some e) = failed l.validator_type l.validator_name

abbrev skip_metrics : Locals → List Metric
skip_metrics l =
    if l.skipped then skipped l.validator_type l.validator_name l.skip_reason ∷ [] else []

abbrev output_of : ValidationInput → Locals → Option Text → ValidationOutput
output_of input l e = record {
  idxs_types = input.idxs_types;
  raw_image = input.image;
  new_image = l.new_img;
  old_image = l.old_img;
  error = e;
  validator = l.validator_name;
  skipped = l.skipped;
  skip_reason = l.skip_reason;
  validation_mode = l.validation_mode;
}

-- the deferred function: what is sent, if anything, and what is counted
unfoldable pub settle :
    ParseReference
    → Bool
    → ValidationInput
    → Locals
    → Result (Option ValidationOutput × List Metric)
settle parse cancelled input l =
    if cancelled
    then ok (none, timeouted l.validator_type l.validator_name ∷ [])
    else (checked parse l l.err_out >>= λ e.
        ok (some (output_of input l e), result_metric l e ∷ skip_metrics l))

unfoldable pub validate :
    (setup : Setup)
    → Bool
    → ValidationInput
    → setup.cache.State
    → Result ((Option ValidationOutput × List Metric) × setup.cache.State)
unfolding run settle
validate setup cancelled input st = run setup input st >>= λ ran.
    settle setup.parse cancelled input ran.0 >>= λ sent. ok (sent, ran.1)
