-- ===== src/Validators/Cosign/Signed.antt =====
-- What a digest that the Cosign validator returns rests on.
use connaisseur.Prelude.{
  ℕ, ◌≤◌, ◌<◌, ◌≡◌, refl, ap, subst, ◌∙◌, ◌⊎◌, inl, inr, false, none, some, List, [], ◌∷◌, arith,
  Text, lit, has_prefix, Bool-cases, length, take, is_empty, All, In, In-All, Result, ok, err,
  panic,
}
use mathlib.Core.Option.{some-injective}
use connaisseur.Image.{Image}
use connaisseur.Policy.{RuleOptions}
use connaisseur.Validators.Cosign.{
  Library, CosignValidator, Verifier, CheckOpts, Verify, VerifierOutput,
}
use connaisseur.Validators.Cosign.Verification.{
  verifier_options, output_of, verified, validate_with_verifier, Collected, blocked, refused,
  collected, collect, trust_root_references, conclude, of_collected, prepare, outputs, of_prepared,
  validate_image, IsOrder,
}
use connaisseur.Validators.Cosign.Conclusion.{
  HasDigest, conclude-IsConcluded, signatures_of, collect-signatures, collect-no_error,
  threshold-set, threshold-unset, collect-From, IsOrder-In,
}

-- What vouches for a digest of an image, by the options and the verifiers that were prepared.
module _ (lib : Library) (verify : Verify lib) (cv : CosignValidator lib) (img : Image) where
  -- The verifier's call of Cosign returned the signatures.
  pub record HasVerified (opts : CheckOpts lib) (v : Verifier lib) (ss : List lib.Signature)
      : Type 0 where
    pub own_options : CheckOpts lib
    pub prepared : verifier_options lib cv opts v ≡ inl own_options
    pub returned : verify img own_options ≡ inl ss

  abbrev pub IsOf : CheckOpts lib → List (Verifier lib) → lib.Signature → Type 0
  IsOf opts vs s =
      (v : Verifier lib) × In v vs × (ss : List lib.Signature) × HasVerified opts v ss × In s ss

  abbrev pub HasRoot : CheckOpts lib → List (Verifier lib) → Text → Type 0
  HasRoot opts vs r =
      (r ≡ [])
      ⊎ ((v : Verifier lib) × In v vs
          × (r ≡ v.name)
          × (ss : List lib.Signature) × HasVerified opts v ss)

  verified-signature :
      (opts : CheckOpts lib) (v : Verifier lib) (c : CheckOpts lib ⊎ Text) (s : lib.Signature)
      → verifier_options lib cv opts v ≡ c
      → In s (verified lib verify img v c).checked_signatures
      → (ss : List lib.Signature) × HasVerified opts v ss × In s ss
  verified-signature opts v (inr e) s h m = absurd m
  verified-signature opts v (inl own) s h m = of_returned (verify img own) refl m
    where
      of_returned :
          (c : List lib.Signature ⊎ Text)
          → verify img own ≡ c
          → In s (output_of lib img v c).checked_signatures
          → (ss : List lib.Signature) × HasVerified opts v ss × In s ss
      of_returned (inl ss) q m = (ss, record { own_options = own; prepared = h; returned = q }, m)
      of_returned (inr e) q m = elim (Bool-cases (has_prefix e (lit "image tag not found:"))) [
        | inl p ↦ absurd (rw p at m)
        | inr p ↦ absurd (rw p at m)
      ]

  verified-root :
      (opts : CheckOpts lib) (v : Verifier lib) (c : CheckOpts lib ⊎ Text)
      → verifier_options lib cv opts v ≡ c
      → ((verified lib verify img v c).validating_trust_root ≡ [])
        ⊎ (((verified lib verify img v c).validating_trust_root ≡ v.name)
            × (ss : List lib.Signature) × HasVerified opts v ss)
  verified-root opts v (inr e) h = inl refl
  verified-root opts v (inl own) h = of_returned (verify img own) refl
    where
      of_returned :
          (c : List lib.Signature ⊎ Text)
          → verify img own ≡ c
          → ((output_of lib img v c).validating_trust_root ≡ [])
            ⊎ (((output_of lib img v c).validating_trust_root ≡ v.name)
                × (ss : List lib.Signature) × HasVerified opts v ss)
      of_returned (inl ss) q =
          inr (refl, ss, record { own_options = own; prepared = h; returned = q })
      of_returned (inr e) q = elim (Bool-cases (has_prefix e (lit "image tag not found:"))) [
        | inl p ↦ inl (rw p refl)
        | inr p ↦ inl (rw p refl)
      ]

  In-outputs :
      (opts : CheckOpts lib) (vs : List (Verifier lib)) (o : VerifierOutput lib)
      → In o (outputs lib verify cv img opts vs)
      → (v : Verifier lib) × In v vs × (o ≡ validate_with_verifier lib verify cv img opts v)
  In-outputs opts [] o m = absurd m
  In-outputs opts (v ∷ vs) o (inl e) = (v, inl refl, e)
  In-outputs opts (v ∷ vs) o (inr m) = let (w, i, e) = In-outputs opts vs o m in (w, inr i, e)

  From-IsOf :
      (opts : CheckOpts lib) (vs : List (Verifier lib)) (s : lib.Signature) (o : VerifierOutput lib)
      → In o (outputs lib verify cv img opts vs)
      → In s o.checked_signatures
      → IsOf opts vs s
  unfolding validate_with_verifier
  From-IsOf opts vs s o m i =
      let (v, j, e) = In-outputs opts vs o m in
      let (ss, has, k) =
        verified-signature opts v (verifier_options lib cv opts v) s refl
          (subst (λ (t : VerifierOutput lib). In s t.checked_signatures) e i) in
      (v, j, ss, has, k)

  Named-HasRoot :
      (opts : CheckOpts lib) (vs : List (Verifier lib)) (r : Text) (o : VerifierOutput lib)
      → In o (outputs lib verify cv img opts vs)
      → r ≡ o.validating_trust_root
      → HasRoot opts vs r
  unfolding validate_with_verifier
  Named-HasRoot opts vs r o m q =
      let (v, j, e) = In-outputs opts vs o m in
      let t = q ∙ ap (λ (t : VerifierOutput lib). t.validating_trust_root) e in
      elim (verified-root opts v (verifier_options lib cv opts v) refl) [
        | inl z ↦ inl (t ∙ z)
        | inr (z, ss, has) ↦ inr (v, j, t ∙ z, ss, has)
      ]

  -- The digest of the signatures in the outputs that are waited for: each was returned for a verifier of
  -- the prepared trust roots, there is one at least, they reach the threshold that is set, or without one
  -- and without required trust roots the number of the verifiers, and every required trust root with a name
  -- has signed.
  pub record IsSigned (arrive : List (VerifierOutput lib) → List (VerifierOutput lib))
      (args : RuleOptions) (d : Text) : Type 0 where
    pub opts : CheckOpts lib
    pub vs : List (Verifier lib)
    pub sigs : List lib.Signature
    pub prepared : prepare lib cv args img ≡ ok (opts, vs)
    pub no_error :
        All
          (λ (o : VerifierOutput lib). o.err ≡ none)
          (take
            (length (trust_root_references lib cv args))
            (arrive (outputs lib verify cv img opts vs)))
        × (length (
              take
                (length (trust_root_references lib cv args))
                (arrive (outputs lib verify cv img opts vs)))
            ≡ length (trust_root_references lib cv args))
    pub counted :
        sigs
        ≡ signatures_of lib (
            take
              (length (trust_root_references lib cv args))
              (arrive (outputs lib verify cv img opts vs)))
    pub not_empty : is_empty sigs ≡ false
    pub reached : args.trust_root ≡ lit "*" → 0 < args.threshold → args.threshold ≤ length sigs
    pub all_reached :
        args.trust_root ≡ lit "*"
        → args.threshold ≡ 0
        → args.required ≡ []
        → length vs ≤ length sigs
    pub digest : All (HasDigest lib d) sigs
    pub signed : All (IsOf opts vs) sigs
    pub required : All (HasRoot opts vs) args.required

  of_collected-ok :
      (args : RuleOptions) (n : ℕ) (c : Collected lib) (d : Text)
      → of_collected lib args n c ≡ some (ok d)
      → (sigs : List lib.Signature) × (roots : List Text) × (errs : List Text) × (c
          ≡ collected sigs roots errs)
        × (conclude lib args n sigs roots errs ≡ ok d)
  of_collected-ok args n blocked d h = absurd (ground arith)
  of_collected-ok args n (refused e) d h = absurd (ground arith)
  of_collected-ok args n (collected sigs roots errs) d h =
      (sigs, roots, errs, refl, some-injective _ _ h)

  module _ (arrive : List (VerifierOutput lib) → List (VerifierOutput lib))
      (arrives : (os : List (VerifierOutput lib)) → IsOrder lib os (arrive os)) where
    of_prepared-IsSigned :
        (args : RuleOptions) (d : Text) (p : Result (CheckOpts lib × List (Verifier lib)))
        → prepare lib cv args img ≡ p
        → of_prepared lib verify cv arrive args img p ≡ some (ok d)
        → IsSigned arrive args d
    of_prepared-IsSigned args d (err e) q h = absurd (ground (arith, some-injective _ _ h))
    of_prepared-IsSigned args d panic q h = absurd (ground (arith, some-injective _ _ h))
    of_prepared-IsSigned args d (ok (opts, vs)) q h =
        let os = outputs lib verify cv img opts vs in
        let (sigs, roots, errs, c, finished) =
          of_collected-ok args (length vs)
            (collect lib (length (trust_root_references lib cv args)) (arrive os)) d h in
        let (from, named) =
          collect-From lib (length (trust_root_references lib cv args)) (arrive os) sigs roots errs
            c in
        let concluded = conclude-IsConcluded lib args (length vs) sigs roots errs d finished in
        record {
          opts = opts;
          vs = vs;
          sigs = sigs;
          prepared = q;
          not_empty = concluded.not_empty;
          no_error =
              collect-no_error lib (length (trust_root_references lib cv args)) (arrive os) sigs
                roots errs c;
          counted =
              collect-signatures lib (length (trust_root_references lib cv args)) (arrive os) sigs
                roots errs c;
          reached = λ star set.
              subst (λ t. t ≤ length sigs) (threshold-set lib args (length vs) star set)
                concluded.reached;
          all_reached = λ star unset e.
              subst (λ t. t ≤ length sigs) (threshold-unset lib args (length vs) star unset e)
                concluded.reached;
          digest = concluded.digest;
          signed = In-All (IsOf opts vs) sigs (λ s m.
              let (o, i, e, j) = from s m in
              From-IsOf opts vs s o (IsOrder-In lib os (arrive os) o (arrives os) i) j);
          required = In-All (HasRoot opts vs) args.required (λ r m.
              let (o, i, e, j) = named r (concluded.not_missing r m) in
              Named-HasRoot opts vs r o (IsOrder-In lib os (arrive os) o (arrives os) i) j);
        }

    -- In whatever order the outputs of the verifiers arrive: where a digest is returned, the signatures that
    -- count are those of the outputs that are waited for, as many as there are references, none of which has
    -- an error that ends the validation; there is one at
    -- least, each was returned by Cosign for one of the prepared verifiers, and all name this digest; where
    -- all trust roots are asked for, their number reaches the threshold that is set, or the number of the
    -- verifiers where neither a threshold nor required trust roots are set; and each required trust root that has a
    -- name was that of a verifier for which Cosign returned signatures.
    pub validate_image-IsSigned :
        (args : RuleOptions) (d : Text)
        → validate_image lib verify cv arrive args img ≡ some (ok d)
        → IsSigned arrive args d
    unfolding validate_image
    validate_image-IsSigned args d h = of_prepared-IsSigned args d (prepare lib cv args img) refl h
