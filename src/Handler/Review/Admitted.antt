-- ===== src/Handler/Review/Admitted.antt =====
-- A request is allowed only where every image of the new object is accepted.
use connaisseur.Prelude.{
  ℕ, zero, suc, ◌+◌, ◌≡◌, refl, sym, ap, subst, ◌⊎◌, inl, inr, Bool, true, false, Option, none,
  some, List, [], ◌∷◌, ◌++◌, map, arith, Text, if◌then◌else◌, length, In, Result, ok, err, panic,
  ok-injective, In-parts, length-parts,
}
use connaisseur.Utils.Feature.{Env}
use connaisseur.Kubernetes.Workload.{Container, Deserialize, WorkloadObject}
use connaisseur.Kubernetes.Containers.{IdxType, ImageMap, consolidated_containers, image_set}
use connaisseur.Kubernetes.Containers.Places.{
  image_set-In, all_containers, IsKey, IsKey-consolidated,
}
use connaisseur.Kubernetes.Admission.{
  AdmissionRequest, AdmissionRequestObjects, new_admission_request_objects,
}
use connaisseur.Validation.Image.{ValidationInput, ValidationOutput, Metric, Setup, validate}
use connaisseur.Validation.Image.Accepted.{IsAccepted}
use connaisseur.Validation.Image.Outcomes.{validate-IsAccepted}
use connaisseur.Validation.Workload.{
  input_of, validate_workload_object, Arrival, deadline, output, IsRun, sends,
}
use connaisseur.Alert.Evaluation.{NotificationValues}
use connaisseur.Handler.Review.{
  AdmissionResponse, Received, all, timed_out, failed, receive_one, receive, respond,
  review_objects, values_of, mutate_review,
}

module _ (setup : Setup) where
  record Sent (inputs : List ValidationInput) (o : ValidationOutput) (rest : List Arrival)
      : Type 0 where
    before : List ValidationInput
    input : ValidationInput
    after : List ValidationInput
    state : setup.cache.State
    state_after : setup.cache.State
    metrics : List Metric
    parts : inputs ≡ before ++ input ∷ after
    validated : validate setup false input state ≡ ok ((some o, metrics), state_after)
    others : IsRun setup (before ++ after) rest

  IsRun-Sent :
      {inputs : List ValidationInput} {o : ValidationOutput} {rest : List Arrival}
      → IsRun setup inputs (output o ∷ rest)
      → Sent inputs o rest
  IsRun-Sent (sends before input after st st' o ms p v r) = record {
    before = before;
    input = input;
    after = after;
    state = st;
    state_after = st';
    metrics = ms;
    parts = p;
    validated = v;
    others = r;
  }

  -- The input was validated without an error, to an output of the list.
  record IsDone (os : List ValidationOutput) (input : ValidationInput) : Type 0 where
    done : ValidationOutput
    listed : In done os
    state : setup.cache.State
    state_after : setup.cache.State
    metrics : List Metric
    validated : validate setup false input state ≡ ok ((some done, metrics), state_after)
    no_error : done.error ≡ none

  IsDone-cons :
      (o : ValidationOutput) (os : List ValidationOutput) (input : ValidationInput)
      → IsDone os input
      → IsDone (o ∷ os) input
  IsDone-cons o os input d = record {
    done = d.done;
    listed = inr d.listed;
    state = d.state;
    state_after = d.state_after;
    metrics = d.metrics;
    validated = d.validated;
    no_error = d.no_error;
  }

  receive_one-all :
      (o : ValidationOutput) (e : Option Text) (r : Received) (os : List ValidationOutput)
      → receive_one o e r ≡ all os
      → (os' : List ValidationOutput) × (e ≡ none) × (r ≡ all os') × (os ≡ o ∷ os')
  receive_one-all o (some e) r os h = absurd (ground arith)
  receive_one-all o none (all os') os h = (os', refl, refl, ground arith)
  receive_one-all o none (timed_out i) os h = absurd (ground arith)
  receive_one-all o none (failed o' e) os h = absurd (ground arith)

  receive-IsDone :
      (n i : ℕ) (arrivals : List Arrival) (inputs : List ValidationInput)
      (os : List ValidationOutput)
      → length inputs ≡ n
      → IsRun setup inputs arrivals
      → receive n i arrivals ≡ all os
      → (input : ValidationInput) → In input inputs
      → IsDone os input
  unfolding receive
  receive-IsDone zero i arrivals [] os l r h input m = absurd m
  receive-IsDone zero i arrivals (x ∷ xs) os l r h input m = absurd (omega arith)
  receive-IsDone (suc n) i [] inputs os l r h input m = absurd (ground arith)
  receive-IsDone (suc n) i (deadline ∷ rest) inputs os l r h input m = absurd (ground arith)
  receive-IsDone (suc n) i (output o ∷ rest) inputs os l r h input m =
      let s = IsRun-Sent r in
      let (os', clean, h', e) = receive_one-all o o.error (receive n (i + 1) rest) os h in
      let shorter : length (s.before ++ s.after) ≡ n =
        omega (arith, l, ap length s.parts, length-parts s.input s.before s.after) in
      subst (λ t. IsDone t input) (sym e)
        (elim (In-parts input s.input s.before s.after (subst (In input) s.parts m)) [
          | inl same ↦ subst (IsDone (o ∷ os')) (sym same) (record {
            done = o;
            listed = inl refl;
            state = s.state;
            state_after = s.state_after;
            metrics = s.metrics;
            validated = s.validated;
            no_error = clean;
          })
          | inr other ↦ IsDone-cons o os' input (
              receive-IsDone n (i + 1) rest (s.before ++ s.after) os' shorter s.others h' input
                other)
        ])

  -- The image is accepted, in some state of the cache. Its validation knows as previous images only those
  -- of the old object's containers, and as the images of the parents those that were asked for.
  pub record IsAdmitted (old : WorkloadObject) (parents : Result (List Text)) (image : Text)
      : Type 0 where
    pub input : ValidationInput
    pub its_image : input.image ≡ image
    pub its_previous :
        (i : Text)
        → In i input.previous_images
        → (c : Container) × In c (all_containers old) × (c.image ≡ i)
    pub its_parents : input.parent_images ≡ parents
    pub state : setup.cache.State
    pub accepted : (l : _) × IsAccepted setup input state l

  IsDone-IsAdmitted :
      (old : WorkloadObject) (os : List ValidationOutput) (input : ValidationInput)
      → input.previous_images ≡ image_set old
      → IsDone os input
      → IsAdmitted old input.parent_images input.image
  IsDone-IsAdmitted old os input previous d =
      let (l, accepted, a, b, c) =
        validate-IsAccepted setup input d.state d.state_after d.done d.metrics d.validated
          d.no_error in
      record {
        input = input;
        its_image = refl;
        its_previous = λ i m. image_set-In old i (subst (In i) previous m);
        its_parents = refl;
        state = d.state;
        accepted = (l, accepted);
      }

respond-all :
    (uid : Text) (w : WorkloadObject) (n : ℕ) (nv : NotificationValues) (r : Received)
    → ((respond uid w n nv r).0).allowed ≡ true
    → (os : List ValidationOutput) × (r ≡ all os)
unfolding respond
respond-all uid w n nv (all os) h = (os, refl)
respond-all uid w n nv (timed_out i) h = absurd (ground arith)
respond-all uid w n nv (failed o e) h = absurd (ground arith)

In-inputs :
    (previous : List Text) (parents : Result (List Text)) (m : ImageMap) (image : Text)
    → IsKey image m
    → (p : Text × List IdxType) × In
        (input_of previous parents p)
        (map (input_of previous parents) m)
      × (p.0 ≡ image)
In-inputs previous parents [] image h = absurd h
In-inputs previous parents (p ∷ m) image (inl e) = (p, inl refl, sym e)
In-inputs previous parents (p ∷ m) image (inr h) =
    let (q, a, e) = In-inputs previous parents m image h in (q, inr a, e)

allowed_branch :
    (b : Bool) (x y z : AdmissionResponse × NotificationValues)
    → (if b then x else y) ≡ z
    → (z.0).allowed ≡ true
    → (b ≡ true) ⊎ ((y.0).allowed ≡ true)
allowed_branch true x y z h a = inl refl
allowed_branch false x y z h a =
    inr (subst (λ (t : AdmissionResponse × NotificationValues). (t.0).allowed ≡ true) (sym h) a)

module _ (setup : Setup) (arrive : List ValidationInput → List Arrival)
    (arrives : (inputs : List ValidationInput) → IsRun setup inputs (arrive inputs))
    (parents : WorkloadObject → Result (List Text)) where
  respond-IsAdmitted :
      (uid : Text) (nv : NotificationValues) (aro : AdmissionRequestObjects) (c : Container)
      → (let inputs = validate_workload_object aro.new_obj aro.old_obj (parents aro.new_obj) in
          ((respond uid aro.new_obj
            (length inputs)
            nv
            (receive (length inputs) 0 (arrive inputs))).0
          ).allowed
          ≡ true)
      → In c (all_containers aro.new_obj)
      → IsAdmitted setup aro.old_obj (parents aro.new_obj) c.image
  unfolding validate_workload_object input_of
  respond-IsAdmitted uid nv aro c h m =
      let inputs = validate_workload_object aro.new_obj aro.old_obj (parents aro.new_obj) in
      let (os, received) =
        respond-all uid aro.new_obj (length inputs) nv (receive (length inputs) 0 (arrive inputs))
          h in
      let (p, listed, same) =
        In-inputs (image_set aro.old_obj) (parents aro.new_obj)
          (consolidated_containers aro.new_obj) c.image (IsKey-consolidated aro.new_obj c m) in
      subst (IsAdmitted setup aro.old_obj (parents aro.new_obj)) same (
        IsDone-IsAdmitted setup aro.old_obj os _ refl (
          receive-IsDone setup (length inputs) 0 (arrive inputs) inputs os refl (arrives inputs)
            received (input_of (image_set aro.old_obj) (parents aro.new_obj) p) listed))

  review_objects-IsAdmitted :
      (uid : Text) (nv nv' : NotificationValues) (a : Result AdmissionRequestObjects)
      (r : AdmissionResponse)
      → review_objects arrive parents uid nv a ≡ ok (r, nv')
      → r.allowed ≡ true
      → (aro : AdmissionRequestObjects) × (a ≡ ok aro)
        × ((aro.old_obj.deleted ≡ true)
            ⊎ ((c : Container)
                → In c (all_containers aro.new_obj)
                → IsAdmitted setup aro.old_obj (parents aro.new_obj) c.image))
  review_objects-IsAdmitted uid nv nv' (ok aro) r h a =
      elim (allowed_branch aro.old_obj.deleted _ _ _ (ok-injective h) a) [
        | inl d ↦ (aro, refl, inl d)
        | inr e ↦ (aro, refl, inr (λ c m. respond-IsAdmitted uid nv aro c e m))
      ]
  review_objects-IsAdmitted uid nv nv' (err e) r h a =
      absurd (
        cc (ap (λ (x : AdmissionResponse × NotificationValues). (x.0).allowed) (ok-injective h), a))
  review_objects-IsAdmitted uid nv nv' panic r h a = absurd (ground arith)

  -- Whatever order the outputs of the validations arrive in, and whenever the deadline passes: if the
  -- review allows a request, its objects are decoded, and the request is to be deleted already or the
  -- image of every container of the new object is accepted, where the validation took for images of the
  -- old object only those of its containers, and for images of the parents those of the new object's
  -- parents.
  pub mutate_review-IsAdmitted :
      (env : Env) (deserialize : Deserialize) (ar : AdmissionRequest) (r : AdmissionResponse)
      (nv : NotificationValues)
      → mutate_review env deserialize parents arrive ar ≡ ok (r, nv)
      → r.allowed ≡ true
      → (aro : AdmissionRequestObjects) × (new_admission_request_objects deserialize ar ≡ ok aro)
        × ((aro.old_obj.deleted ≡ true)
            ⊎ ((c : Container)
                → In c (all_containers aro.new_obj)
                → IsAdmitted setup aro.old_obj (parents aro.new_obj) c.image))
  unfolding mutate_review
  mutate_review-IsAdmitted env deserialize ar r nv h a =
      review_objects-IsAdmitted ar.uid (values_of env ar) nv _ r h a
