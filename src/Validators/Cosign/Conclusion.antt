-- ===== src/Validators/Cosign/Conclusion.antt =====
-- What the Cosign validator concludes from the outputs that it has collected.
use connaisseur.Prelude.{
  ℕ, zero, suc, ◌≤◌, ◌<◌, ◌≡◌, refl, sym, ap, subst, ◌∙◌, ◌⊎◌, inl, inr, true, false, not, ◌&&◌,
  Option, none, some, List, [], ◌∷◌, ◌++◌, arith, Text, lit, text_eq_iff, ltb, Bool-cases, length,
  take, is_empty, All, In, In-append_right, In-append_cases, ok, >>=-eq-ok, ok-injective, parts-In,
}
use connaisseur.Utils.Lists.{has_key, set_key, set_subtract}
use connaisseur.Utils.Lists.Subtract.{
  has_key-In, In-has_key, In-set_key_old, In-set_key_new, In-set_subtract_iff,
}
use connaisseur.Policy.{RuleOptions}
use connaisseur.Validators.Cosign.{Library, of_call, VerifierOutput}
use connaisseur.Validators.Cosign.Verification.{
  Collected, blocked, refused, collected, add_output, collect, threshold, digests, only_digest,
  conclude, IsOrder, done, next,
}

is_empty-In : (xs : List Text) (x : Text) → In x xs → is_empty xs ≡ false
is_empty-In [] x m = absurd m
is_empty-In (y ∷ ys) x m = refl

none_missing :
    (required roots : List Text)
    → (not (is_empty required) && not (is_empty (set_subtract required roots))) ≡ false
    → (r : Text) → In r required
    → In r roots
none_missing required roots h r m = elim (Bool-cases (has_key roots r)) [
  | inl e ↦ has_key-In roots r e
  | inr e ↦
      let missing =
        (In-set_subtract_iff required roots r).1 (m, λ i. cc (e, In-has_key roots r i)) in
      absurd (
        ground
          (arith, is_empty-In required r m, is_empty-In (set_subtract required roots) r missing))
]

of_call-ok : {A : Type 0} (c : A ⊎ Text) (a : A) → of_call c ≡ ok a → c ≡ inl a
of_call-ok (inl b) a h = ap inl (ok-injective h)
of_call-ok (inr e) a h = absurd (ground arith)

module _ (lib : Library) where
  -- The signature's payload names the digest.
  pub record HasDigest (d : Text) (s : lib.Signature) : Type 0 where
    pub bytes : Text
    pub payload : lib.payload s ≡ inl bytes
    pub digest : lib.payload_digest bytes ≡ inl d

  digests-keeps :
      (found : List Text) (ss : List lib.Signature) (result : List Text) (x : Text)
      → digests lib found ss ≡ ok result
      → In x found
      → In x result
  unfolding digests
  digests-keeps found [] result x h m = subst (In x) (ok-injective h) m
  digests-keeps found (s ∷ ss) result x h m =
      let (bytes, a, h1) = >>=-eq-ok (of_call (lib.payload s)) _ h in
      let (digest, b, h2) = >>=-eq-ok (of_call (lib.payload_digest bytes)) _ h1 in
      digests-keeps (set_key found digest) ss result x h2 (In-set_key_old found digest x m)

  digests-HasDigest :
      (found : List Text) (ss : List lib.Signature) (d : Text)
      → digests lib found ss ≡ ok (d ∷ [])
      → All (HasDigest d) ss
  unfolding digests
  digests-HasDigest found [] d h = tt
  digests-HasDigest found (s ∷ ss) d h =
      let (bytes, a, h1) = >>=-eq-ok (of_call (lib.payload s)) _ h in
      let (digest, b, h2) = >>=-eq-ok (of_call (lib.payload_digest bytes)) _ h1 in
      let same : digest ≡ d =
        elim (digests-keeps (set_key found digest) ss (d ∷ []) digest h2
          (In-set_key_new found digest)) [ inl e ↦ e | inr n ↦ absurd n ] in
      (
        record {
          bytes = bytes;
          payload = of_call-ok (lib.payload s) bytes a;
          digest =
              subst (λ t. lib.payload_digest bytes ≡ inl t) same
                (of_call-ok (lib.payload_digest bytes) digest b);
        },
        digests-HasDigest (set_key found digest) ss d h2,
      )

  only_digest-ok : (ds errs : List Text) (d : Text) → only_digest lib ds errs ≡ ok d → ds ≡ d ∷ []
  only_digest-ok (x ∷ []) errs d h = ap (λ t. t ∷ []) (ok-injective h)
  only_digest-ok (x ∷ y ∷ ds) errs d h = absurd (ground arith)
  only_digest-ok [] [] d h = absurd (ground arith)
  only_digest-ok [] (e ∷ errs) d h = absurd (ground arith)

  -- The last checks: the threshold, the required trust roots, one digest.
  pub record IsConcluded (args : RuleOptions) (n : ℕ) (sigs : List lib.Signature)
      (roots : List Text) (d : Text) : Type 0 where
    pub reached : threshold lib args n ≤ length sigs
    pub not_missing : (r : Text) → In r args.required → In r roots
    pub not_empty : is_empty sigs ≡ false
    pub digest : All (HasDigest d) sigs

  digests-not_empty :
      (ss : List lib.Signature) (d : Text) → digests lib [] ss ≡ ok (d ∷ []) → is_empty ss ≡ false
  unfolding digests
  digests-not_empty [] d h = absurd (ground arith)
  digests-not_empty (s ∷ ss) d h = refl

  pub conclude-IsConcluded :
      (args : RuleOptions) (n : ℕ) (sigs : List lib.Signature) (roots errs : List Text) (d : Text)
      → conclude lib args n sigs roots errs ≡ ok d
      → IsConcluded args n sigs roots d
  unfolding conclude
  conclude-IsConcluded args n sigs roots errs d h =
      elim (Bool-cases (ltb (length sigs) (threshold lib args n))) [
        | inl e ↦ absurd (ground (arith, rw e at h))
        | inr e ↦
            elim (Bool-cases
              (not (is_empty args.required) && not (is_empty (set_subtract args.required roots)))) [
                | inl f ↦ absurd (ground (arith, rw (e, f) at h))
                | inr f ↦
                    let (found, a, b) = >>=-eq-ok (digests lib [] sigs) _ (rw (e, f) at h) in
                    let one = a ∙ ap ok (only_digest-ok found errs d b) in
                    record {
                      reached = ground arith;
                      not_missing = none_missing args.required roots f;
                      not_empty = digests-not_empty sigs d one;
                      digest = digests-HasDigest [] sigs d one;
                    }
              ]
      ]

  -- An output of the list without an error has the signature.
  abbrev pub From : List (VerifierOutput lib) → lib.Signature → Type 0
  From os s = (o : VerifierOutput lib) × In o os × (o.err ≡ none) × In s o.checked_signatures

  abbrev pub Named : List (VerifierOutput lib) → Text → Type 0
  Named os r = (o : VerifierOutput lib) × In o os × (o.err ≡ none) × (r ≡ o.validating_trust_root)

  From-cons :
      (o : VerifierOutput lib) (os : List (VerifierOutput lib)) (s : lib.Signature)
      → From os s
      → From (o ∷ os) s
  From-cons o os s (p, m, e, i) = (p, inr m, e, i)

  add_output-collected :
      (o : VerifierOutput lib) (e : Option Text) (rest : Collected lib) (sigs : List lib.Signature)
      (roots errs : List Text)
      → add_output lib o e rest ≡ collected sigs roots errs
      → (sigs' : List lib.Signature) × (roots' : List Text) × (errs' : List Text) × (e ≡ none)
        × (rest ≡ collected sigs' roots' errs')
        × (sigs ≡ o.checked_signatures ++ sigs')
        × (roots ≡ o.validating_trust_root ∷ roots')
  add_output-collected o (some e) rest sigs roots errs h = absurd (ground arith)
  add_output-collected o none blocked sigs roots errs h = absurd (ground arith)
  add_output-collected o none (refused e) sigs roots errs h = absurd (ground arith)
  add_output-collected o none (collected sigs' roots' errs') sigs roots errs h =
      (sigs', roots', errs', refl, refl, ground arith, ground arith)

  -- the signatures of the outputs, in their order
  abbrev pub signatures_of : List (VerifierOutput lib) → List lib.Signature
  signatures_of [] = []
  signatures_of (o ∷ os) = o.checked_signatures ++ signatures_of os

  pub collect-signatures :
      (n : ℕ) (os : List (VerifierOutput lib)) (sigs : List lib.Signature) (roots errs : List Text)
      → collect lib n os ≡ collected sigs roots errs
      → sigs ≡ signatures_of (take n os)
  unfolding collect
  collect-signatures zero os sigs roots errs h = ground arith
  collect-signatures (suc n) [] sigs roots errs h = absurd (ground arith)
  collect-signatures (suc n) (o ∷ os) sigs roots errs h =
      let (sigs', roots', errs', e, h', p, q) =
        add_output-collected o o.err (collect lib n os) sigs roots errs h in
      p ∙ ap (λ t. o.checked_signatures ++ t) (collect-signatures n os sigs' roots' errs' h')

  pub collect-no_error :
      (n : ℕ) (os : List (VerifierOutput lib)) (sigs : List lib.Signature) (roots errs : List Text)
      → collect lib n os ≡ collected sigs roots errs
      → All (λ (o : VerifierOutput lib). o.err ≡ none) (take n os) × (length (take n os) ≡ n)
  unfolding collect
  collect-no_error zero os sigs roots errs h = (tt, refl)
  collect-no_error (suc n) [] sigs roots errs h = absurd (ground arith)
  collect-no_error (suc n) (o ∷ os) sigs roots errs h =
      let (sigs', roots', errs', e, h', p, q) =
        add_output-collected o o.err (collect lib n os) sigs roots errs h in
      let (clean, count) = collect-no_error n os sigs' roots' errs' h' in
      ((e, clean), omega (arith, count))

  -- The threshold where all trust roots are asked for: the one that is set, or else, where none is
  -- required either, the number of the verifiers.
  pub threshold-set :
      (args : RuleOptions) (n : ℕ)
      → args.trust_root ≡ lit "*"
      → 0 < args.threshold
      → threshold lib args n ≡ args.threshold
  unfolding threshold
  threshold-set args n star p =
      let s = (text_eq_iff args.trust_root (lit "*")).1 star in ground arith

  pub threshold-unset :
      (args : RuleOptions) (n : ℕ)
      → args.trust_root ≡ lit "*"
      → args.threshold ≡ 0
      → args.required ≡ []
      → threshold lib args n ≡ n
  unfolding threshold
  threshold-unset args n star p none_required =
      let s = (text_eq_iff args.trust_root (lit "*")).1 star in
      let e : is_empty args.required ≡ true = ap is_empty none_required in ground arith

  pub collect-From :
      (n : ℕ) (os : List (VerifierOutput lib)) (sigs : List lib.Signature) (roots errs : List Text)
      → collect lib n os ≡ collected sigs roots errs
      → ((s : lib.Signature) → In s sigs → From os s) × ((r : Text) → In r roots → Named os r)
  unfolding collect
  collect-From zero os sigs roots errs h =
      let no_sigs : [] ≡ sigs = ground arith in
      let no_roots : [] ≡ roots = ground arith in
      (λ s m. absurd (subst (In s) (sym no_sigs) m), λ r m. absurd (subst (In r) (sym no_roots) m))
  collect-From (suc n) [] sigs roots errs h = absurd (ground arith)
  collect-From (suc n) (o ∷ os) sigs roots errs h =
      let (sigs', roots', errs', e, h', p, q) =
        add_output-collected o o.err (collect lib n os) sigs roots errs h in
      let (from, named) = collect-From n os sigs' roots' errs' h' in
      (
        λ s m. elim (In-append_cases s o.checked_signatures sigs' (subst (In s) p m)) [
          | inl a ↦ (o, inl refl, e, a)
          | inr b ↦ From-cons o os s (from s b)
        ],
        λ r m. elim (subst (In r) q m) [
          | inl same ↦ (o, inl refl, e, same)
          | inr b ↦ let (o', i, e', t) = named r b in (o', inr i, e', t)
        ],
      )

  pub IsOrder-In :
      (os arrivals : List (VerifierOutput lib)) (o : VerifierOutput lib)
      → IsOrder lib os arrivals
      → In o arrivals
      → In o os
  IsOrder-In _ _ o done m = m
  IsOrder-In _ _ o (next {arrivals} before p after rest) (inl e) =
      In-append_right o before (p ∷ after) (inl e)
  IsOrder-In _ _ o (next {arrivals} before p after rest) (inr m) =
      parts-In o p before after (IsOrder-In (before ++ after) arrivals o rest m)
