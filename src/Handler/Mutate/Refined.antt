-- ===== src/Handler/Mutate/Refined.antt =====
-- The handler as a whole: what it answers refines when a request may be admitted at all.
use connaisseur.Prelude.{
  ℕ, ◌≡◌, refl, sym, ap, subst, ◌∙◌, ◌⊎◌, inl, inr, Bool, true, false, ◌&&◌, ◌||◌, Option, none,
  some, List, [], arith, Text, lit, text_eq, if◌then◌else◌, In, Result, ok, err, panic, >>=-eq-ok,
  ok-injective,
}
use connaisseur.Constants.{detection_mode}
use connaisseur.Utils.Feature.{Env, feature_flag_on}
use connaisseur.Kubernetes.Workload.{Container, Deserialize, WorkloadObject}
use connaisseur.Kubernetes.Containers.Places.{all_containers}
use connaisseur.Kubernetes.Admission.{
  AdmissionRequest, AdmissionRequestObjects, new_admission_request_objects,
}
use connaisseur.Validation.Image.{ValidationInput, Setup}
use connaisseur.Validation.Workload.{Arrival, IsRun}
use connaisseur.Alert.Evaluation.{NotificationValues}
use connaisseur.Handler.Review.{AdmissionResponse, mutate_review}
use connaisseur.Handler.Review.Admitted.{IsAdmitted, mutate_review-IsAdmitted}
use connaisseur.Handler.Review.Patches.{mutate_review-IsExplained}
use connaisseur.Handler.Review.Uid.{mutate_review-uid}
use connaisseur.Handler.Mutate.{
  AdmissionReview, HttpRequest, HttpResponse, http_error, written, header_only, Metric, Calls,
  final_response, encoded, answer, of_review, of_body, handle_mutate,
}
use connaisseur.Handler.Mutate.Decision.{is_exempt, IsDecision, final_response-IsDecision}

-- The ways in which a request may be admitted: the object is to be deleted already, or the image of each
-- of its containers is accepted, or its kind is exempt from validation, or nothing is denied at all.
module _ (setup : Setup) (env : Env) (deserialize : Deserialize)
    (parents : WorkloadObject → Result (List Text)) where
  pub data Admits (ar : AdmissionRequest) : Type 0 where
    deletes :
        (aro : AdmissionRequestObjects)
        → new_admission_request_objects deserialize ar ≡ ok aro
        → aro.old_obj.deleted ≡ true
        → Admits ar
    accepts :
        (aro : AdmissionRequestObjects)
        → new_admission_request_objects deserialize ar ≡ ok aro
        → ((c : Container)
            → In c (all_containers aro.new_obj)
            → IsAdmitted setup aro.old_obj (parents aro.new_obj) c.image)
        → Admits ar
    exempts : is_exempt env ar.kind.kind ≡ true → Admits ar
    detects : feature_flag_on env detection_mode ≡ true → Admits ar

  -- The request of a review that was decoded from the body, and the response that was encoded: it has the
  -- request's UID, and it allows only what may be admitted.
  pub record Refines (decode : Text → Result AdmissionReview)
      (encode : Text → Text → AdmissionResponse → Result Text) (r : HttpRequest) (bytes : Text)
      : Type 0 where
    pub body : Text
    pub review : AdmissionReview
    pub request : AdmissionRequest
    pub final : AdmissionResponse
    pub read : r.body ≡ ok body
    pub decoded : decode body ≡ ok review
    pub requested : review.request ≡ some request
    pub written : encode review.api_version review.kind final ≡ ok bytes
    pub uid : final.uid ≡ request.uid
    pub admits : final.allowed ≡ true → Admits request

abbrev body_of : HttpResponse → Text
body_of (http_error message status) = message
body_of (written bytes) = bytes
body_of (header_only status) = []

or-cases : (a b : Bool) → (a || b) ≡ true → (a ≡ true) ⊎ (b ≡ true)
or-cases true b h = inl refl
or-cases false b h = inr h

and-left : (a b : Bool) → (a && b) ≡ true → a ≡ true
and-left true b h = refl
and-left false b h = h

module _ (setup : Setup) (env : Env) (deserialize : Deserialize)
    (parents : WorkloadObject → Result (List Text)) (arrive : List ValidationInput → List Arrival)
    (arrives : (inputs : List ValidationInput) → IsRun setup inputs (arrive inputs))
    (decode : Text → Result AdmissionReview) (notify : NotificationValues → Result (Option Text))
    (encode : Text → Text → AdmissionResponse → Result Text) (expired : Bool) where
  -- the handler's calls, the review among them
  abbrev pub calls : Calls
  calls = record {
    decode = decode;
    review = mutate_review env deserialize parents arrive;
    notify = notify;
    encode = encode;
    expired = expired;
  }

  final-Admits :
      (ar : AdmissionRequest) (e : Option Text) (r final : AdmissionResponse)
      (nv : NotificationValues)
      → mutate_review env deserialize parents arrive ar ≡ ok (r, nv)
      → IsDecision env ar.kind.kind e r final
      → final.allowed ≡ true
      → Admits setup env deserialize parents ar
  final-Admits ar e r final nv h d a =
      elim (or-cases _ (feature_flag_on env detection_mode) (sym d.allows ∙ a)) [
        | inr on ↦ detects on
        | inl b ↦ elim (or-cases _ (is_exempt env ar.kind.kind) b) [
          | inr on ↦ exempts on
          | inl c ↦
              let (aro, decoded, way) =
                mutate_review-IsAdmitted setup arrive arrives parents env deserialize ar r nv h
                  (and-left r.allowed _ c) in
              elim way [
                | inl gone ↦ deletes aro decoded gone
                | inr accepted ↦ accepts aro decoded accepted
              ]
        ]
      ]

  encoded-written :
      (c : Result Text) (answered : HttpResponse) (bytes : Text)
      → encoded c ≡ ok answered
      → answered ≡ written bytes
      → c ≡ ok bytes
  encoded-written (ok b) answered bytes h q = ap ok (ap body_of (ok-injective h ∙ q))
  encoded-written (err e) answered bytes h q = absurd (ground (arith, ok-injective h ∙ q))
  encoded-written panic answered bytes h q = absurd (ground arith)

  answer-Refines :
      (r : HttpRequest) (body : Text) (review : AdmissionReview) (request : AdmissionRequest)
      (answered : HttpResponse × List Metric) (bytes : Text)
      → r.body ≡ ok body
      → decode body ≡ ok review
      → review.request ≡ some request
      → answer env calls review request ≡ ok answered
      → answered.0 ≡ written bytes
      → Refines setup env deserialize parents decode encode r bytes
  answer-Refines r body review request answered bytes b d q h w =
      let ((res, nv), h1, k1) =
        >>=-eq-ok (mutate_review env deserialize parents arrive request) _ h in
      let (e, h2, k2) = >>=-eq-ok (notify nv) _ k1 in
      let (final, h3, k3) = >>=-eq-ok (final_response env request.kind.kind e res) _ k2 in
      let (response, h4, k4) =
        >>=-eq-ok (encoded (encode review.api_version review.kind final)) _ k3 in
      let (decided, same, decision) =
        final_response-IsDecision env request.kind.kind e res
          (mutate_review-IsExplained arrive parents env deserialize request res nv h1) in
      let is_final : decided ≡ final = ok-injective (sym same ∙ h3) in
      let its = subst (IsDecision env request.kind.kind e res) is_final decision in
      record {
        body = body;
        review = review;
        request = request;
        final = final;
        read = b;
        decoded = d;
        requested = q;
        written =
            encoded-written (encode review.api_version review.kind final) response bytes h4
              (ap (λ (t : HttpResponse × List Metric). t.0) (ok-injective k4) ∙ w);
        uid = its.keeps_uid ∙ mutate_review-uid arrive parents env deserialize request res nv h1;
        admits = final-Admits request e res final nv h1 its;
      }

  of_review-Refines :
      (r : HttpRequest) (body : Text) (c : Result AdmissionReview)
      (answered : HttpResponse × List Metric) (bytes : Text)
      → r.body ≡ ok body
      → decode body ≡ c
      → of_review env calls c ≡ ok answered
      → answered.0 ≡ written bytes
      → Refines setup env deserialize parents decode encode r bytes
  of_review-Refines r body (err e) answered bytes b d h w =
      absurd (ground (arith, ap (λ (t : HttpResponse × List Metric). t.0) (ok-injective h) ∙ w))
  of_review-Refines r body panic answered bytes b d h w = absurd (ground arith)
  of_review-Refines r body (ok review) answered bytes b d h w = of_request review.request refl h
    where
      of_request :
          (o : Option AdmissionRequest)
          → review.request ≡ o
          → elim o as (λ _. Result (HttpResponse × List Metric)) [
            | none ↦ ok (http_error (lit "received empty admission request") 400, [])
            | some request ↦ answer env calls review request
          ]
            ≡ ok answered
          → Refines setup env deserialize parents decode encode r bytes
      of_request none q k =
          absurd (ground (arith, ap (λ (t : HttpResponse × List Metric). t.0) (ok-injective k) ∙ w))
      of_request (some request) q k = answer-Refines r body review request answered bytes b d q k w

  of_body-Refines :
      (r : HttpRequest) (c : Result Text) (answered : HttpResponse × List Metric) (bytes : Text)
      → r.body ≡ c
      → of_body env calls c ≡ ok answered
      → answered.0 ≡ written bytes
      → Refines setup env deserialize parents decode encode r bytes
  of_body-Refines r (err e) answered bytes b h w =
      absurd (ground (arith, ap (λ (t : HttpResponse × List Metric). t.0) (ok-injective h) ∙ w))
  of_body-Refines r panic answered bytes b h w = absurd (ground arith)
  of_body-Refines r (ok body) answered bytes b h w =
      of_review-Refines r body (decode body) answered bytes b refl h w

  guarded-written :
      (b : Bool) (x : Result (HttpResponse × List Metric)) (message : Text) (status : ℕ)
      (answered : HttpResponse × List Metric) (bytes : Text)
      → (if b then x else ok (http_error message status, [])) ≡ ok answered
      → answered.0 ≡ written bytes
      → x ≡ ok answered
  guarded-written true x message status answered bytes h w = h
  guarded-written false x message status answered bytes h w =
      absurd (ground (arith, ap (λ (t : HttpResponse × List Metric). t.0) (ok-injective h) ∙ w))

  -- In whatever order the validations' outputs arrive, and whenever the deadline passes: a review that the
  -- handler writes encodes a response to the request that the body holds, with its UID, and the response
  -- allows the request only if it is to be deleted already, or every image of its object is accepted, or
  -- its kind is exempt, or the detection mode is on.
  pub handle_mutate-Refines :
      (r : HttpRequest) (bytes : Text) (metrics : List Metric)
      → handle_mutate env calls r ≡ ok (written bytes, metrics)
      → Refines setup env deserialize parents decode encode r bytes
  unfolding handle_mutate
  handle_mutate-Refines r bytes metrics h =
      let (answered, a, k) =
        >>=-eq-ok
          (if text_eq r.method (lit "POST")
            then (if text_eq r.content_type (lit "application/json")
                then of_body env calls r.body
                else _)
            else _)
          _ h in
      let w = ap (λ (t : HttpResponse × List Metric). t.0) (ok-injective k) in
      of_body-Refines r r.body answered bytes refl
        (guarded-written (text_eq r.content_type (lit "application/json")) _ _ _ answered bytes
          (guarded-written (text_eq r.method (lit "POST")) _ _ _ answered bytes a w) w)
        w
