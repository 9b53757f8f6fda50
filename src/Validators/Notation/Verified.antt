-- ===== src/Validators/Notation/Verified.antt =====
-- What the Notation validator returns, and the image that it leaves.
use connaisseur.Prelude.{
  String, ◌≡◌, refl, sym, ap, subst, ◌⊎◌, inl, inr, true, false, arith, Text, Bool-cases, is_empty,
  Result, ok, err, panic, >>=-eq-ok, ok-injective,
}
use connaisseur.Image
use connaisseur.Image.{Image}
use connaisseur.Policy.{RuleOptions}
use connaisseur.Validators.Notation.{
  Client, TrustPolicy, Library, of_call, NotationValidator, set_up_client, resolved,
  artifact_reference, verified, prepare, of_prepared, validate_image,
}

call-ok : {A : Type 0} (what : String) (c : A ⊎ Text) (a : A) → of_call what c ≡ ok a → c ≡ inl a
call-ok what (inl b) a h = ap inl (ok-injective h)
call-ok what (inr e) a h = absurd (ground arith)

module _ (lib : Library) (nv : NotationValidator lib) where
  -- The digest was there, or the registry resolved it.
  abbrev pub IsResolved : Client lib.Certs → Image → Image → Type 0
  IsResolved client img left =
      ((is_empty img.digest ≡ false) × (left ≡ img))
      ⊎ ((is_empty img.digest ≡ true)
          × (d : Text) × (lib.resolve client (Image.name img) ≡ inl d)
          × (left ≡ Image.set_digest img d))

  resolved-IsResolved :
      (client : Client lib.Certs) (img left : Image)
      → resolved lib client img ≡ ok left
      → IsResolved client img left
  unfolding resolved
  resolved-IsResolved client img left h = elim (Bool-cases (is_empty img.digest)) [
    | inl e ↦
        let (d, a, b) =
          >>=-eq-ok (of_call "failed to resolve image tag: " (lib.resolve client (Image.name img)))
            _ (rw e at h) in
        inr (e, d, call-ok _ (lib.resolve client (Image.name img)) d a, sym (ok-injective b))
    | inr e ↦ inl (e, sym (ok-injective (rw e at h)))
  ]

  -- Notation verified the digest of the image that is left, by the policy of the rule.
  pub record IsVerified (client : Client lib.Certs) (img : Image) (args : RuleOptions) (d : Text)
      (left : Image) : Type 0 where
    pub policy : TrustPolicy
    pub prepared : prepare lib nv img args ≡ ok policy
    pub image_left : IsResolved (set_up_client lib nv img client) img left
    pub returned :
        lib.verify
          (set_up_client lib nv img client)
          policy
          nv.trust_store
          (artifact_reference lib left)
        ≡ inl d

  verified-ok :
      (client : Client lib.Certs) (policy : TrustPolicy) (img left : Image) (d : Text)
      (r : Result Image)
      → verified lib nv client policy img r ≡ (ok d, left)
      → (r ≡ ok left)
        × (lib.verify client policy nv.trust_store (artifact_reference lib left) ≡ inl d)
  verified-ok client policy img left d (err e) h =
      absurd (ground (arith, ap (λ (t : Result Text × Image). t.0) h))
  verified-ok client policy img left d panic h =
      absurd (ground (arith, ap (λ (t : Result Text × Image). t.0) h))
  verified-ok client policy img left d (ok i) h =
      let same : i ≡ left = ap (λ (t : Result Text × Image). t.1) h in
      let called =
        call-ok "failed to verify image: "
          (lib.verify client policy nv.trust_store (artifact_reference lib i)) d
          (ap (λ (t : Result Text × Image). t.0) h) in
      (
        ap ok same,
        subst (λ t. lib.verify client policy nv.trust_store (artifact_reference lib t) ≡ inl d) same
            called,
      )

  of_prepared-IsVerified :
      (client : Client lib.Certs) (img left : Image) (args : RuleOptions) (d : Text)
      (p : Result TrustPolicy)
      → prepare lib nv img args ≡ p
      → (of_prepared lib nv client img p).0 ≡ (ok d, left)
      → IsVerified client img args d left
  of_prepared-IsVerified client img left args d (err e) q h =
      absurd (ground (arith, ap (λ (t : Result Text × Image). t.0) h))
  of_prepared-IsVerified client img left args d panic q h =
      absurd (ground (arith, ap (λ (t : Result Text × Image). t.0) h))
  of_prepared-IsVerified client img left args d (ok policy) q h =
      let own = set_up_client lib nv img client in
      let (a, b) = verified-ok own policy img left d (resolved lib own img) h in
      record {
        policy = policy;
        prepared = q;
        image_left = resolved-IsResolved own img left a;
        returned = b;
      }

  pub validate_image-IsVerified :
      (client : Client lib.Certs) (img left : Image) (args : RuleOptions) (d : Text)
      → (validate_image lib nv client img args).0 ≡ (ok d, left)
      → IsVerified client img args d left
  unfolding validate_image
  validate_image-IsVerified client img left args d h =
      of_prepared-IsVerified client img left args d (prepare lib nv img args) refl h
