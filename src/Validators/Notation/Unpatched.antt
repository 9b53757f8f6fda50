-- ===== src/Validators/Notation/Unpatched.antt =====
-- The Notation validator sets the digest on the image of which the old name is taken afterwards.
use connaisseur.Prelude.{◌≡◌, sym, ap, subst, ◌∙◌, inl, inr, Text, ok}
use connaisseur.Image
use connaisseur.Image.{Image}
use connaisseur.Image.Parts.{IsDigest, set_digest-IsDigest, digest-set_digest}
use connaisseur.Policy.{RuleOptions}
use connaisseur.Validators.Notation.{
  Client, Library, NotationValidator, set_up_client, validate_image,
}
use connaisseur.Validators.Notation.Verified.{IsResolved, validate_image-IsVerified}
use connaisseur.Validation.Image.{Locals, with_images}

set_digest-same : (i : Image) → IsDigest i.digest → Image.set_digest i i.digest ≡ i
unfolding Image.set_digest
set_digest-same i h = ap (λ d. record i { digest = d }) (digest-set_digest i i.digest h)

resolved_digest :
    (lib : Library) (nv : NotationValidator lib) (client : Client lib.Certs) (img left : Image)
    → IsDigest img.digest
    → IsResolved lib nv client img left
    → IsDigest left.digest
resolved_digest lib nv client img left h (inl (n, e)) =
    subst (λ (t : Image). IsDigest t.digest) (sym e) h
resolved_digest lib nv client img left h (inr (n, d, r, e)) =
    subst (λ (t : Image). IsDigest t.digest) (sym e) ((set_digest-IsDigest img d).0)

-- Let Notation return the digest that it was asked to verify, as it does. After a successful validation by the
-- Notation validator the old and the new name of the image are equal, also for an image without a
-- digest, so that no patch replaces its tag.
pub with_images-unpatched :
    (lib : Library) (nv : NotationValidator lib) (client : Client lib.Certs) (img left : Image)
    (args : RuleOptions) (d : Text) (l : Locals)
    → IsDigest img.digest
    → (validate_image lib nv client img args).0 ≡ (ok d, left)
    → d ≡ left.digest
    → (with_images l left d).old_img ≡ (with_images l left d).new_img
with_images-unpatched lib nv client img left args d l h r same =
    let v = validate_image-IsVerified lib nv client img left args d r in
    let own = set_up_client lib nv img client in
    let kept = set_digest-same left (resolved_digest lib nv own img left h v.image_left) in
    ap Image.name (sym (ap (Image.set_digest left) same ∙ kept))
