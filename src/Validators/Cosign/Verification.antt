-- ===== src/Validators/Cosign/Verification.antt =====
-- internal/validator/cosignvalidator/cosign_validator.go, ValidateImage: the verification by each trust
-- root, and what is concluded from the outputs.
use connaisseur.Prelude.{
  ℕ, zero, suc, ◌⊎◌, inl, inr, Bool, not, ◌&&◌, ◌||◌, Option, none, some, List, [], ◌∷◌, ◌++◌, map,
  Text, lit, text_eq, has_prefix, join, decimal, ltb, if◌then◌else◌, length, is_empty, Result, ok,
  err, panic, ◌>>=◌, map_err,
}
use connaisseur.Utils.Lists.{set_key, set_subtract}
use connaisseur.Image
use connaisseur.Image.{Image}
use connaisseur.Policy.{RuleOptions}
use connaisseur.Validators.Cosign.{
  Library, of_call, CosignValidator, Verifier, CheckOpts, Verify, VerifierOutput, verifiers,
  setup_options,
}

module _ (lib : Library) where
  open lib use {Certs, Signature}

  -- getFulcioCerts
  unfoldable pub fulcio_certs : CosignValidator lib → (Certs × Option Certs) ⊎ Text
  fulcio_certs cv = elim cv.fulcio_cert [
    | some certs ↦ inl (certs, none)
    | none ↦ elim lib.fulcio_roots [
      | inr e ↦ inr (lit "error getting fulcio roots: " ++ e)
      | inl roots ↦ elim lib.fulcio_intermediates [
        | inr e ↦ inr (lit "error getting fulcio intermediates: " ++ e)
        | inl certs ↦ inl (roots, some certs)
      ]
    ]
  ]

  -- the options of one verifier
  unfoldable pub verifier_options :
      CosignValidator lib → CheckOpts lib → Verifier lib → CheckOpts lib ⊎ Text
  unfolding fulcio_certs
  verifier_options cv opts v = elim v.key_verifier [
    | some key ↦ inl (record opts { sig_verifier = some key })
    | none ↦ elim (fulcio_certs cv) [
      | inr e ↦ inr e
      | inl (roots, intermediates) ↦ inl (record opts {
        root_certs = some roots;
        intermediate_certs = intermediates;
        identities = opts.identities ++ v.keyless_verifier ∷ [];
      })
    ]
  ]

  abbrev pub failed_output : Option Text → Option Text → VerifierOutput lib
  failed_output e p = record {
    checked_signatures = [];
    err = e;
    propagation_err = p;
    validating_trust_root = [];
  }

  abbrev pub missing_image : Image → Text → Text
  missing_image img e = lit "image " ++ (Image.name img ++ (lit " does not exist: " ++ e))

  abbrev pub output_of : Image → Verifier lib → List Signature ⊎ Text → VerifierOutput lib
  output_of img v (inl signatures) = record {
    checked_signatures = signatures;
    err = none;
    propagation_err = none;
    validating_trust_root = v.name;
  }
  output_of img v (inr e) =
      if has_prefix e (lit "image tag not found:")
      then failed_output (some (missing_image img e)) none
      else failed_output none (some e)

  abbrev pub verified :
      Verify lib → Image → Verifier lib → CheckOpts lib ⊎ Text → VerifierOutput lib
  verified verify img v (inl opts) = output_of img v (verify img opts)
  verified verify img v (inr e) = failed_output (some e) none

  -- the output that each goroutine sends, which is exactly one
  unfoldable pub validate_with_verifier :
      Verify lib → CosignValidator lib → Image → CheckOpts lib → Verifier lib → VerifierOutput lib
  validate_with_verifier verify cv img opts v = verified verify img v (verifier_options cv opts v)

  -- how the loop over the channel ends; with no more outputs it blocks for ever
  pub data Collected : Type 0 where
    blocked : Collected
    refused : Text → Collected
    collected : List Signature → List Text → List Text → Collected

  abbrev pub with_error : Option Text → List Text → List Text
  with_error none errs = errs
  with_error (some e) errs = e ∷ errs

  abbrev pub add_output : VerifierOutput lib → Option Text → Collected → Collected
  add_output o (some e) rest = refused e
  add_output o none blocked = blocked
  add_output o none (refused e) = refused e
  add_output o none (collected sigs roots errs) =
      collected (o.checked_signatures ++ sigs) (o.validating_trust_root ∷ roots)
        (with_error o.propagation_err errs)

  unfoldable pub collect : ℕ → List (VerifierOutput lib) → Collected
  collect zero arrivals = collected [] [] []
  collect (suc n) [] = blocked
  collect (suc n) (o ∷ arrivals) = add_output o o.err (collect n arrivals)

  abbrev pub is_star : RuleOptions → Bool
  is_star args = text_eq args.trust_root (lit "*")

  unfoldable pub trust_root_references : CosignValidator lib → RuleOptions → List Text
  trust_root_references cv args =
      if is_star args && (ltb (length args.required) args.threshold || is_empty args.required)
      then map (λ tr. tr.name) cv.trust_roots
      else if is_star args && not (is_empty args.required)
      then args.required
      else args.trust_root ∷ []

  -- the zero of an unset variable is no threshold
  unfoldable pub threshold : RuleOptions → ℕ → ℕ
  threshold args verifier_count =
      if is_star args && is_empty args.required && not (ltb 0 args.threshold)
      then verifier_count
      else if is_star args && ltb 0 args.threshold
      then args.threshold
      else 0

  -- the keys of the map of digests
  unfoldable pub digests : List Text → List Signature → Result (List Text)
  digests found [] = ok found
  digests found (s ∷ ss) = do
    bytes ← of_call (lib.payload s)
    digest ← of_call (lib.payload_digest bytes)
    digests (set_key found digest) ss

  abbrev pub only_digest : List Text → List Text → Result Text
  only_digest (d ∷ e ∷ ds) errs = err (lit "ambiguous digests")
  only_digest (d ∷ []) errs = ok d
  only_digest [] [] = err (lit "no signed digests")
  only_digest [] (e ∷ errs) =
      err (lit "error validating image: [" ++ (join (e ∷ errs) (lit " ") ++ lit "]"))

  abbrev pub not_reached : ℕ → ℕ → Text
  not_reached n limit =
      lit "validation threshold not reached ("
      ++ (decimal n ++ (lit "/" ++ (decimal limit ++ lit ")")))

  -- from the check of the threshold on
  unfoldable pub conclude : RuleOptions → ℕ → List Signature → List Text → List Text → Result Text
  unfolding threshold digests
  conclude args verifier_count sigs roots errs =
      let limit = threshold args verifier_count in
      let missing = set_subtract args.required roots in
      if ltb (length sigs) limit
      then err (not_reached (length sigs) limit)
      else if not (is_empty args.required) && not (is_empty missing)
      then err (lit "missing required signatures from [" ++ (join missing (lit " ") ++ lit "]"))
      else (digests [] sigs >>= λ found. only_digest found errs)

  -- `none` where the call blocks for ever
  abbrev pub of_collected : RuleOptions → ℕ → Collected → Option (Result Text)
  of_collected args verifier_count blocked = none
  of_collected args verifier_count (refused e) = some (err e)
  of_collected args verifier_count (collected sigs roots errs) =
      some (conclude args verifier_count sigs roots errs)

  unfoldable pub prepare :
      (CosignValidator lib) → RuleOptions → Image → Result ((CheckOpts lib) × List (Verifier lib))
  prepare cv args img = do
    opts ←
        map_err (λ e. lit "error setting up cosign options: " ++ e) (setup_options lib cv args img)
    vs ←
        map_err (λ e. lit "error getting verifiers: " ++ e)
          (verifiers lib cv (trust_root_references cv args))
    ok (opts, vs)

  abbrev pub outputs :
      Verify lib
      → CosignValidator lib
      → Image
      → CheckOpts lib
      → List (Verifier lib)
      → List (VerifierOutput lib)
  outputs verify cv img opts vs = map (validate_with_verifier verify cv img opts) vs

  abbrev pub of_prepared :
      (Verify lib)
      → CosignValidator lib
      → (List (VerifierOutput lib) → List (VerifierOutput lib))
      → RuleOptions
      → Image
      → Result ((CheckOpts lib) × List (Verifier lib))
      → Option (Result Text)
  of_prepared verify cv arrive args img (ok (opts, vs)) =
      of_collected args (length vs)
        (collect (length (trust_root_references cv args)) (arrive (outputs verify cv img opts vs)))
  of_prepared verify cv arrive args img (err e) = some (err e)
  of_prepared verify cv arrive args img panic = some panic

  -- ValidateImage; `arrive` is the order in which the outputs come out of the channel
  unfoldable pub validate_image :
      (Verify lib)
      → CosignValidator lib
      → (List (VerifierOutput lib) → List (VerifierOutput lib))
      → RuleOptions
      → Image
      → Option (Result Text)
  validate_image verify cv arrive args img =
      of_prepared verify cv arrive args img (prepare cv args img)

  -- The arrivals are the outputs in some order.
  pub data IsOrder : List (VerifierOutput lib) → List (VerifierOutput lib) → Type 0 where
    done : IsOrder [] []
    next :
        {arrivals : List (VerifierOutput lib)} (before : List (VerifierOutput lib))
        (o : VerifierOutput lib) (after : List (VerifierOutput lib))
        → IsOrder (before ++ after) arrivals
        → IsOrder (before ++ o ∷ after) (o ∷ arrivals)
