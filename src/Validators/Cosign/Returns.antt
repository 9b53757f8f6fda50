-- ===== src/Validators/Cosign/Returns.antt =====
-- The Cosign validator does not wait for more outputs than its verifiers send.
use connaisseur.Prelude.{
  ℕ, zero, suc, ◌≤◌, ◌≡◌, refl, sym, ap, ◌∙◌, ◌≢◌, inl, inr, true, false, Option, none, some, List,
  [], ◌∷◌, ◌++◌, arith, Text, Bool-cases, length, is_empty, Result, ok, err, panic, map_err,
  >>=-eq-ok, map_err-eq-ok, ok-injective, length-parts,
}
use connaisseur.Image.{Image}
use connaisseur.Policy.{RuleOptions}
use connaisseur.Validators.TrustRoots.{TrustRoot, effective_refs, is_wildcard, get_trust_roots}
use connaisseur.Validators.TrustRoots.Names.{names, get_trust_roots-effective}
use connaisseur.Validators.Cosign.{
  Library, CosignValidator, Verifier, CheckOpts, Verify, VerifierOutput, load_verifier,
  load_verifiers, verifiers, setup_options,
}
use connaisseur.Validators.Cosign.Verification.{
  Collected, blocked, refused, collected, add_output, collect, trust_root_references, of_collected,
  prepare, outputs, of_prepared, validate_image, IsOrder, done, next,
}

length-effective_refs : (refs : List Text) → length refs ≤ length (effective_refs refs true)
length-effective_refs [] = omega arith
length-effective_refs (r ∷ []) = elim (Bool-cases (is_empty r)) [
  | inl e ↦ rw e (omega arith)
  | inr e ↦ rw e (omega arith)
]
length-effective_refs (r ∷ s ∷ rs) = omega arith

length-names : (trs : List TrustRoot) → length (names trs) ≡ length trs
length-names [] = refl
length-names (tr ∷ trs) = ap suc (length-names trs)

module _ (lib : Library) where
  length-load_verifiers :
      (trs : List TrustRoot) (vs : List (Verifier lib))
      → load_verifiers lib trs ≡ ok vs
      → length vs ≡ length trs
  unfolding load_verifiers
  length-load_verifiers [] vs h = ground arith
  length-load_verifiers (tr ∷ trs) vs h =
      let (v, a, h1) = >>=-eq-ok (load_verifier lib tr) _ h in
      let (ws, b, h2) = >>=-eq-ok (load_verifiers lib trs) _ h1 in
      sym (ap length (ok-injective h2)) ∙ ap suc (length-load_verifiers trs ws b)

  length-verifiers :
      (cv : CosignValidator lib) (refs : List Text) (vs : List (Verifier lib))
      → is_wildcard (effective_refs refs true) ≡ false
      → verifiers lib cv refs ≡ ok vs
      → length refs ≤ length vs
  unfolding verifiers
  length-verifiers cv refs vs w h =
      let (roots, a, b) = >>=-eq-ok (map_err _ (get_trust_roots refs cv.trust_roots true)) _ h in
      let found = map_err-eq-ok _ (get_trust_roots refs cv.trust_roots true) a in
      elim (get_trust_roots-effective refs cv.trust_roots true roots found) [
        | inl (star, _) ↦ absurd (cc (star, w))
        | inr (_, same, _, _) ↦ omega (
          arith,
          length-effective_refs refs,
          ap length same,
          length-names roots,
          length-load_verifiers roots vs b,
        )
      ]

  length-IsOrder :
      (os arrivals : List (VerifierOutput lib))
      → IsOrder lib os arrivals
      → length arrivals ≡ length os
  length-IsOrder _ _ done = refl
  length-IsOrder _ _ (next {arrivals} before o after rest) =
      omega (arith, length-IsOrder (before ++ after) arrivals rest, length-parts o before after)

  add_output-blocked :
      (o : VerifierOutput lib) (e : Option Text) (rest : Collected lib)
      → add_output lib o e rest ≡ blocked
      → rest ≡ blocked
  add_output-blocked o (some e) rest h = absurd (ground arith)
  add_output-blocked o none blocked h = refl
  add_output-blocked o none (refused e) h = absurd (ground arith)
  add_output-blocked o none (collected s r e) h = absurd (ground arith)

  collect-blocked :
      (n : ℕ) (os : List (VerifierOutput lib)) → n ≤ length os → collect lib n os ≢ blocked
  unfolding collect
  collect-blocked zero os l = λ h. absurd (ground arith)
  collect-blocked (suc n) [] l = absurd (omega arith)
  collect-blocked (suc n) (o ∷ os) l =
      λ h. collect-blocked n os (omega arith) (add_output-blocked o o.err (collect lib n os) h)

  of_collected-returns :
      (args : RuleOptions) (n : ℕ) (c : Collected lib)
      → c ≢ blocked
      → (r : Result Text) × (of_collected lib args n c ≡ some r)
  of_collected-returns args n blocked h = absurd (h refl)
  of_collected-returns args n (refused e) h = (err e, refl)
  of_collected-returns args n (collected s r e) h = (_, refl)

  length-outputs :
      (verify : Verify lib) (cv : CosignValidator lib) (img : Image) (opts : CheckOpts lib)
      (vs : List (Verifier lib))
      → length (outputs lib verify cv img opts vs) ≡ length vs
  length-outputs verify cv img opts [] = refl
  length-outputs verify cv img opts (v ∷ vs) = ap suc (length-outputs verify cv img opts vs)

  module _ (verify : Verify lib) (cv : CosignValidator lib)
      (arrive : List (VerifierOutput lib) → List (VerifierOutput lib))
      (arrives : (os : List (VerifierOutput lib)) → IsOrder lib os (arrive os)) where
    of_prepared-returns :
        (args : RuleOptions) (img : Image) (p : Result (CheckOpts lib × List (Verifier lib)))
        → is_wildcard (effective_refs (trust_root_references lib cv args) true) ≡ false
        → prepare lib cv args img ≡ p
        → (r : Result Text) × (of_prepared lib verify cv arrive args img p ≡ some r)
    unfolding prepare
    of_prepared-returns args img (err e) w q = (err e, refl)
    of_prepared-returns args img panic w q = (panic, refl)
    of_prepared-returns args img (ok (opts, vs)) w q =
        let refs = trust_root_references lib cv args in
        let (o, a, h1) = >>=-eq-ok (map_err _ (setup_options lib cv args img)) _ q in
        let (ws, b, h2) = >>=-eq-ok (map_err _ (verifiers lib cv refs)) _ h1 in
        let same : ws ≡ vs =
          ap (λ (t : CheckOpts lib × List (Verifier lib)). t.1) (ok-injective h2) in
        let loaded = map_err-eq-ok _ (verifiers lib cv refs) b ∙ ap ok same in
        let os = outputs lib verify cv img opts vs in
        of_collected-returns args (length vs) (collect lib (length refs) (arrive os)) (
          collect-blocked (length refs) (arrive os) (
            omega (
              arith,
              length-verifiers cv refs vs w loaded,
              length-outputs verify cv img opts vs,
              length-IsOrder os (arrive os) (arrives os),
            )))

    -- Let every output of a verifier arrive, in any order, and let the names of the trust roots not be
    -- the all-quantifier alone. Then the call returns, with a digest or an error.
    pub validate_image-returns :
        (args : RuleOptions) (img : Image)
        → is_wildcard (effective_refs (trust_root_references lib cv args) true) ≡ false
        → (r : Result Text) × (validate_image lib verify cv arrive args img ≡ some r)
    unfolding validate_image
    validate_image-returns args img w =
        of_prepared-returns args img (prepare lib cv args img) w refl
