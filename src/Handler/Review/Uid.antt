-- ===== src/Handler/Review/Uid.antt =====
-- The review answers the request that it is given.
use connaisseur.Prelude.{
  ℕ, ◌≡◌, refl, sym, ap, ◌∙◌, Bool, true, false, List, [], ◌∷◌, arith, Text, if◌then◌else◌, Result,
  ok, err, panic, ok-injective,
}
use connaisseur.Utils.Feature.{Env}
use connaisseur.Kubernetes.Workload.{Deserialize, WorkloadObject}
use connaisseur.Kubernetes.Admission.{AdmissionRequest, AdmissionRequestObjects}
use connaisseur.Validation.Image.{ValidationInput}
use connaisseur.Validation.Workload.{Arrival}
use connaisseur.Alert.Evaluation.{NotificationValues}
use connaisseur.Handler.Review.{
  AdmissionResponse, admitted, Received, all, timed_out, failed, Patch, json_patches, with_patches,
  respond, values_of, review_objects, mutate_review,
}

pub with_patches-uid : (uid : Text) (ps : List Patch) → (with_patches (admitted uid) ps).uid ≡ uid
with_patches-uid uid [] = refl
with_patches-uid uid (p ∷ ps) = refl

respond-uid :
    (uid : Text) (w : WorkloadObject) (n : ℕ) (nv : NotificationValues) (r : Received)
    → ((respond uid w n nv r).0).uid ≡ uid
unfolding respond
respond-uid uid w n nv (all os) = with_patches-uid uid (json_patches w os)
respond-uid uid w n nv (timed_out i) = refl
respond-uid uid w n nv (failed o e) = refl

module _ (arrive : List ValidationInput → List Arrival)
    (parents : WorkloadObject → Result (List Text)) where
  review_objects-uid :
      (uid : Text) (nv nv' : NotificationValues) (a : Result AdmissionRequestObjects)
      (r : AdmissionResponse)
      → review_objects arrive parents uid nv a ≡ ok (r, nv')
      → r.uid ≡ uid
  review_objects-uid uid nv nv' panic r h = absurd (ground arith)
  review_objects-uid uid nv nv' (err e) r h =
      sym (ap (λ (t : AdmissionResponse × NotificationValues). (t.0).uid) (ok-injective h))
  review_objects-uid uid nv nv' (ok aro) r h =
      sym (ap (λ (t : AdmissionResponse × NotificationValues). (t.0).uid) (ok-injective h))
      ∙ chosen _ _ aro.old_obj.deleted (respond-uid uid aro.new_obj _ nv _)
    where
      chosen :
          (x y : AdmissionResponse × NotificationValues) (b : Bool)
          → (y.0).uid ≡ (x.0).uid
          → ((if b then x else y).0).uid ≡ (x.0).uid
      chosen x y true q = refl
      chosen x y false q = q

  -- The review answers the request that it is given.
  pub mutate_review-uid :
      (env : Env) (deserialize : Deserialize) (ar : AdmissionRequest) (r : AdmissionResponse)
      (nv : NotificationValues)
      → mutate_review env deserialize parents arrive ar ≡ ok (r, nv)
      → r.uid ≡ ar.uid
  unfolding mutate_review
  mutate_review-uid env deserialize ar r nv h =
      review_objects-uid ar.uid (values_of env ar) nv _ r h
