-- ===== src/Validation/Image/Accepted.antt =====
-- When the body of ValidateImage accepts an image.
use connaisseur.Prelude.{
  ◌≡◌, refl, ap, subst, ◌≢◌, ◌⊎◌, inl, inr, true, false, none, arith, Text, lit, text_eq,
  text_eq_iff, Bool-cases, Result, ok, err, panic, >>=-eq-ok, ok-injective,
}
use connaisseur.Constants.{static_validator}
use connaisseur.Image
use connaisseur.Image.{Image, ParseReference}
use connaisseur.Policy.{Rule}
use connaisseur.Config.{matching_rule, validator_of}
use connaisseur.Validators.Interface.{Validator, validate_image}
use connaisseur.Validation.Skip.{SkipResult, skip}
use connaisseur.Validation.Image.{
  ValidationInput, failing, validation_error, Locals, initial, Setup, with_images, skipped_outcome,
  mode_of, static_outcome, validated, with_validator, with_rule, with_image, with_reference, run,
  chosen,
}

-- The validator returned a digest, with the image that it left.
pub record IsValidated (v : Validator) (rule : Rule) (img : Image) (l : Locals) : Type 0 where
  pub digest : Text
  pub left : Image
  pub returned : validate_image v img rule.with_options ≡ (ok digest, left)
  pub old_name : l.old_img ≡ Image.name left
  pub new_name : l.new_img ≡ Image.name (Image.set_digest left digest)
  pub not_skipped : l.skipped ≡ false

-- The validation was skipped without an error, for a validator that is not static.
pub record IsSkipped (setup : Setup) (input : ValidationInput) (st : setup.cache.State)
    (v : Validator) (img : Image) (l : Locals) : Type 0 where
  pub result : SkipResult
  pub skipped :
      skip setup.env setup.unmarshal
        (setup.cache.get st img.original)
        img
        input.previous_images
        input.parent_images
      ≡ ok result
  pub skips : result.skip ≡ true
  pub no_error : result.validation_error ≡ none
  pub not_static : v.type ≢ static_validator
  pub old_name : l.old_img ≡ Image.name img
  pub new_name : l.new_img ≡ Image.name (Image.set_digest img result.validated_digest)
  pub is_skipped : l.skipped ≡ true

-- The image is valid, a rule matches its name, the rule's validator is configured, and that validator
-- accepts the image or its validation is skipped.
pub record IsAccepted (setup : Setup) (input : ValidationInput) (st : setup.cache.State)
    (l : Locals) : Type 0 where
  pub img : Image
  pub rule : Rule
  pub v : Validator
  pub parsed : Image.new setup.parse input.image ≡ ok img
  pub matched : matching_rule setup.glob setup.rules (Image.name img) ≡ ok rule
  pub configured : validator_of setup.validators rule.validator ≡ ok v
  pub mode : l.validation_mode ≡ mode_of rule.with_options.validation_mode
  pub how : IsValidated v rule img l ⊎ IsSkipped setup input st v img l

module _ (v : Validator) (rule : Rule) (img : Image) where
  static_outcome-IsValidated :
      (l l' : Locals) (r : Result Text × Image)
      → validate_image v img rule.with_options ≡ r
      → l.skipped ≡ false
      → static_outcome l rule r ≡ ok l'
      → l'.err_out ≡ none
      → IsValidated v rule img l' × (l'.validation_mode ≡ l.validation_mode)
  static_outcome-IsValidated l l' (ok d, left) q n h e =
      let same : with_images l left d ≡ l' = ok-injective h in
      (
        record {
          digest = d;
          left = left;
          returned = q;
          old_name = ground arith;
          new_name = ground arith;
          not_skipped = ground arith;
        },
        ground arith,
      )
  static_outcome-IsValidated l l' (err m, left) q n h e = absurd (ground arith)
  static_outcome-IsValidated l l' (panic, left) q n h e = absurd (ground arith)

  validated-IsValidated :
      (setup : Setup) (l l' : Locals) (st st' : setup.cache.State) (r : Result Text × Image)
      → validate_image v img rule.with_options ≡ r
      → l.skipped ≡ false
      → validated setup l v st r ≡ ok (l', st')
      → l'.err_out ≡ none
      → IsValidated v rule img l' × (l'.validation_mode ≡ l.validation_mode)
  validated-IsValidated setup l l' st st' (ok d, left) q n h e =
      let same : with_images l left d ≡ l' = ap (λ p. p.0) (ok-injective h) in
      (
        record {
          digest = d;
          left = left;
          returned = q;
          old_name = ground arith;
          new_name = ground arith;
          not_skipped = ground arith;
        },
        ground arith,
      )
  validated-IsValidated setup l l' st st' (err m, left) q n h e =
      let same : failing l (validation_error v left m) ≡ l' = ap (λ p. p.0) (ok-injective h) in
      absurd (ground arith)
  validated-IsValidated setup l l' st st' (panic, left) q n h e = absurd (ground arith)

abbrev Accepts :
    (setup : Setup)
    → ValidationInput
    → setup.cache.State
    → Validator
    → Rule
    → Image
    → Locals
    → Type 0
Accepts setup input st v rule img l =
    (l.validation_mode ≡ mode_of rule.with_options.validation_mode)
    × (IsValidated v rule img l ⊎ IsSkipped setup input st v img l)

module _ (setup : Setup) (input : ValidationInput) (st : setup.cache.State) where
  with_validator-Accepts :
      (v : Validator) (rule : Rule) (img : Image) (l : Locals) (st' : setup.cache.State)
      → with_validator setup v rule img input st ≡ ok (l, st')
      → l.err_out ≡ none
      → Accepts setup input st v rule img l
  unfolding with_validator
  with_validator-Accepts v rule img l st' h e =
      elim (Bool-cases (text_eq v.type static_validator)) [
        | inl s ↦
            let (l', a, b) =
              >>=-eq-ok
                (static_outcome (chosen v rule) rule (validate_image v img rule.with_options)) _
                (rw s at h) in
            let same : l' ≡ l = ap (λ p. p.0) (ok-injective b) in
            let (val, mode) =
              static_outcome-IsValidated v rule img (chosen v rule) l' _ refl refl a (rw same e) in
            subst (Accepts setup input st v rule img) same (mode, inl val)
        | inr s ↦
            let (r, a, b) =
              >>=-eq-ok
                (skip setup.env setup.unmarshal (setup.cache.get st img.original) img
                  input.previous_images input.parent_images)
                _ (rw s at h) in
            elim (Bool-cases r.skip) [
              | inl k ↦
                  let same : skipped_outcome (chosen v rule) img r ≡ l =
                    ap (λ p. p.0) (ok-injective (rw k at b)) in
                  (
                    ground arith,
                    inr (record {
                      result = r;
                      skipped = a;
                      skips = k;
                      no_error = ground arith;
                      not_static = λ t. cc (s, (text_eq_iff v.type static_validator).1 t);
                      old_name = ground arith;
                      new_name = ground arith;
                      is_skipped = ground arith;
                    }),
                  )
              | inr k ↦
                  let (val, mode) =
                    validated-IsValidated v rule img setup (chosen v rule) l st st' _ refl refl
                      (rw k at b) e in
                  (mode, inl val)
            ]
      ]

  -- Without an error the body of ValidateImage ends only for an accepted image.
  pub run-IsAccepted :
      (l : Locals) (st' : setup.cache.State)
      → run setup input st ≡ ok (l, st')
      → l.err_out ≡ none
      → IsAccepted setup input st l
  unfolding run
  run-IsAccepted l st' h e = of_image (Image.new setup.parse input.image) refl h
    where
      of_validator :
          (img : Image) (rule : Rule) (r : Result Validator)
          → Image.new setup.parse input.image ≡ ok img
          → matching_rule setup.glob setup.rules (Image.name img) ≡ ok rule
          → validator_of setup.validators rule.validator ≡ r
          → with_rule setup img input st rule r ≡ ok (l, st')
          → IsAccepted setup input st l
      of_validator img rule (ok v) p q r h =
          let (mode, how) = with_validator-Accepts v rule img l st' h e in
          record {
            img = img;
            rule = rule;
            v = v;
            parsed = p;
            matched = q;
            configured = r;
            mode = mode;
            how = how;
          }
      of_validator img rule (err m) p q r h =
          let same : failing initial m ≡ l = ap (λ t. t.0) (ok-injective h) in absurd (ground arith)
      of_validator img rule panic p q r h = absurd (ground arith)

      of_rule :
          (img : Image) (r : Result Rule)
          → Image.new setup.parse input.image ≡ ok img
          → matching_rule setup.glob setup.rules (Image.name img) ≡ r
          → with_image setup img input st r ≡ ok (l, st')
          → IsAccepted setup input st l
      of_rule img (ok rule) p q h = of_validator img rule _ p q refl h
      of_rule img (err m) p q h =
          let same : failing initial m ≡ l = ap (λ t. t.0) (ok-injective h) in absurd (ground arith)
      of_rule img panic p q h = absurd (ground arith)

      of_image :
          (r : Result Image)
          → Image.new setup.parse input.image ≡ r
          → with_reference setup input st r ≡ ok (l, st')
          → IsAccepted setup input st l
      of_image (ok img) p h = of_rule img _ p refl h
      of_image (err m) p h =
          let same : failing initial (lit "invalid image reference") ≡ l =
            ap (λ t. t.0) (ok-injective h) in
          absurd (ground arith)
      of_image panic p h = absurd (ground arith)
