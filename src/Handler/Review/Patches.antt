-- ===== src/Handler/Review/Patches.antt =====
-- The patches of an allowed review, and the message of one that is denied.
use connaisseur.Prelude.{
  ℕ, ◌≡◌, refl, sym, ap, subst, ◌∙◌, ◌≢◌, ◌↔◌, ◌⊎◌, inl, inr, Bool, true, false, some, List, [],
  ◌∷◌, ◌++◌, map, arith, Text, lit, text_eq, text_eq_iff, join, decimal, if◌then◌else◌, Bool-cases,
  In, In-append_left, In-append_right, In-append_cases, Result, ok, err, panic, ok-injective,
}
use connaisseur.Constants.{mutate_mode}
use connaisseur.Utils.Feature.{Env}
use connaisseur.Kubernetes.Workload.{Deserialize, WorkloadObject}
use connaisseur.Kubernetes.Containers.{IdxType, container_path}
use connaisseur.Kubernetes.Admission.{AdmissionRequest, AdmissionRequestObjects}
use connaisseur.Validation.Image.{ValidationInput, ValidationOutput}
use connaisseur.Validation.Workload.{Arrival}
use connaisseur.Alert.Evaluation.{NotificationValues}
use connaisseur.Handler.Review.{
  join, lit, AdmissionResponse, Received, all, timed_out, failed, Patch, is_changed, output_patches,
  json_patches, with_patches, admitted, respond, review_objects, values_of, mutate_review,
}

-- Where the specification of a pod stands in an object of a kind.
abbrev pub PodSpecAt : Text → List Text → Type 0
PodSpecAt kind at =
    ((kind ≡ lit "Pod") × (at ≡ lit "spec" ∷ []))
    ⊎ ((kind ≡ lit "CronJob")
        × (at ≡ lit "spec" ∷ lit "jobTemplate" ∷ lit "spec" ∷ lit "template" ∷ lit "spec" ∷ []))
    ⊎ ((kind ≢ lit "Pod")
        × (kind ≢ lit "CronJob")
        × (at ≡ lit "spec" ∷ lit "template" ∷ lit "spec" ∷ []))

-- The JSON pointer to the image of the container at this place.
abbrev pub image_pointer : List Text → IdxType → Text
image_pointer at e = lit "/" ++ join (at ++ e.type ∷ decimal e.index ∷ lit "image" ∷ []) (lit "/")

container_path-PodSpecAt :
    (w : WorkloadObject) (e : IdxType)
    → (at : List Text) × PodSpecAt w.kind at × (container_path w e ≡ image_pointer at e)
unfolding container_path lit join
container_path-PodSpecAt w e = elim (Bool-cases (text_eq w.kind (lit "Pod"))) [
  | inl p ↦ (lit "spec" ∷ [], inl ((text_eq_iff w.kind (lit "Pod")).0 p, refl), rw p refl)
  | inr p ↦ elim (Bool-cases (text_eq w.kind (lit "CronJob"))) [
    | inl c ↦ (
      lit "spec" ∷ lit "jobTemplate" ∷ lit "spec" ∷ lit "template" ∷ lit "spec" ∷ [],
      inr (inl ((text_eq_iff w.kind (lit "CronJob")).0 c, refl)),
      rw (p, c) refl,
    )
    | inr c ↦ (
      lit "spec" ∷ lit "template" ∷ lit "spec" ∷ [],
      inr (
          inr (
            λ q. cc (p, (text_eq_iff w.kind (lit "Pod")).1 q),
            λ q. cc (c, (text_eq_iff w.kind (lit "CronJob")).1 q),
            refl,
          )),
      rw (p, c) refl,
    )
  ]
]

PodSpecAt-unique :
    (kind : Text) (at at' : List Text) → PodSpecAt kind at → PodSpecAt kind at' → at ≡ at'
PodSpecAt-unique kind at at' (inl (k, a)) (inl (k', a')) = a ∙ sym a'
PodSpecAt-unique kind at at' (inl (k, a)) (inr (inl (k', a'))) =
    absurd (unfold lit in ground (arith, sym k ∙ k'))
PodSpecAt-unique kind at at' (inl (k, a)) (inr (inr (n, m, a'))) = absurd (n k)
PodSpecAt-unique kind at at' (inr (inl (k, a))) (inl (k', a')) =
    absurd (unfold lit in ground (arith, sym k ∙ k'))
PodSpecAt-unique kind at at' (inr (inl (k, a))) (inr (inl (k', a'))) = a ∙ sym a'
PodSpecAt-unique kind at at' (inr (inl (k, a))) (inr (inr (n, m, a'))) = absurd (m k)
PodSpecAt-unique kind at at' (inr (inr (n, m, a))) (inl (k', a')) = absurd (n k')
PodSpecAt-unique kind at at' (inr (inr (n, m, a))) (inr (inl (k', a'))) = absurd (m k')
PodSpecAt-unique kind at at' (inr (inr (n, m, a))) (inr (inr (n', m', a'))) = a ∙ sym a'

-- The patch sets the new image of the output at one of the output's places.
abbrev pub IsPatchOf : WorkloadObject → Patch → ValidationOutput → Type 0
IsPatchOf w p o =
    (o.validation_mode ≡ mutate_mode)
    × (o.new_image ≢ o.old_image)
    × (e : IdxType) × In e o.idxs_types
    × (at : List Text) × PodSpecAt w.kind at
    × (p.path ≡ image_pointer at e)
    × (p.value ≡ o.new_image)

abbrev patch_at : WorkloadObject → ValidationOutput → IdxType → Patch
patch_at w o e = record { path = container_path w e; value = o.new_image }

patch_at-here :
    (w : WorkloadObject) (o : ValidationOutput) (e : IdxType) (p : Patch) (at : List Text)
    → PodSpecAt w.kind at
    → p.path ≡ image_pointer at e
    → p.value ≡ o.new_image
    → p ≡ patch_at w o e
patch_at-here w o e p at s path value =
    let (at', s', q) = container_path-PodSpecAt w e in
    let its_path : p.path ≡ container_path w e =
      path ∙ (ap (λ t. image_pointer t e) (PodSpecAt-unique w.kind at at' s s') ∙ sym q) in
    ap (λ t. record { path = t; value = p.value }) its_path
    ∙ ap (λ t. record { path = container_path w e; value = t }) value

In-patches :
    (w : WorkloadObject) (o : ValidationOutput) (es : List IdxType) (p : Patch)
    → In p (map (patch_at w o) es)
    → (e : IdxType) × In e es × (p ≡ patch_at w o e)
In-patches w o [] p h = absurd h
In-patches w o (e ∷ es) p (inl same) = (e, inl refl, same)
In-patches w o (e ∷ es) p (inr h) = let (e', m, q) = In-patches w o es p h in (e', inr m, q)

patches-In :
    (w : WorkloadObject) (o : ValidationOutput) (es : List IdxType) (p : Patch) (e : IdxType)
    → In e es
    → p ≡ patch_at w o e
    → In p (map (patch_at w o) es)
patches-In w o [] p e h q = absurd h
patches-In w o (x ∷ es) p e (inl same) q = inl (q ∙ ap (patch_at w o) same)
patches-In w o (x ∷ es) p e (inr h) q = inr (patches-In w o es p e h q)

is_changed_iff :
    (o : ValidationOutput)
    → (is_changed o ≡ true) ↔ ((o.validation_mode ≡ mutate_mode) × (o.new_image ≢ o.old_image))
is_changed_iff o = (to, from)
  where
    to : is_changed o ≡ true → (o.validation_mode ≡ mutate_mode) × (o.new_image ≢ o.old_image)
    to h = (
      (text_eq_iff o.validation_mode mutate_mode).0 (ground arith),
      λ e. absurd (ground (arith, (text_eq_iff o.new_image o.old_image).1 e)),
    )

    from : (o.validation_mode ≡ mutate_mode) × (o.new_image ≢ o.old_image) → is_changed o ≡ true
    from (m, n) =
        let mode = (text_eq_iff o.validation_mode mutate_mode).1 m in
        elim (Bool-cases (text_eq o.new_image o.old_image)) [
          | inl s ↦ absurd (n ((text_eq_iff o.new_image o.old_image).0 s))
          | inr s ↦ ground arith
        ]

In-output_patches_iff :
    (w : WorkloadObject) (o : ValidationOutput) (p : Patch)
    → In p (output_patches w o) ↔ IsPatchOf w p o
unfolding output_patches
In-output_patches_iff w o p = elim (Bool-cases (is_changed o)) [
  | inl c ↦ (
    λ h.
        let (m, n) = (is_changed_iff o).0 c in
        let (e, listed, same) = In-patches w o o.idxs_types p (rw c at h) in
        let (at, s, path) = container_path-PodSpecAt w e in
        (
          m,
          n,
          e,
          listed,
          at,
          s,
          ap (λ (t : Patch). t.path) same ∙ path,
          ap (λ (t : Patch). t.value) same,
        ),
    λ q.
        let (m, n, e, listed, at, s, path, value) = q in
        rw c (patches-In w o o.idxs_types p e listed (patch_at-here w o e p at s path value)),
  )
  | inr c ↦ (
    λ h. absurd (rw c at h),
    λ q.
        let (m, n, e, listed, at, s, path, value) = q in
        absurd (cc (c, (is_changed_iff o).1 (m, n))),
  )
]

-- The patches of an allowed review are exactly these: for each output in mutate mode whose new image
-- differs from its old one, and each of its places, the new image at the JSON pointer that leads to the
-- image of that container: below "spec" for a pod, below the specification of the job template's pod
-- template for a cron job, and below that of the pod template for any other kind.
pub In-json_patches_iff :
    (w : WorkloadObject) (os : List ValidationOutput) (p : Patch)
    → In p (json_patches w os) ↔ ((o : ValidationOutput) × In o os × IsPatchOf w p o)
unfolding json_patches
In-json_patches_iff w [] p = (λ h. absurd h, λ q. let (o, m, rest) = q in absurd m)
In-json_patches_iff w (o ∷ os) p =
    let (to, from) = In-json_patches_iff w os p in
    (
      λ h. elim (In-append_cases p (output_patches w o) (json_patches w os) h) [
        | inl a ↦ (o, inl refl, (In-output_patches_iff w o p).0 a)
        | inr b ↦ let (o', later, q) = to b in (o', inr later, q)
      ],
      λ (o', m, q). elim m [
        | inl same ↦
            In-append_left p (output_patches w o) (json_patches w os)
              ((In-output_patches_iff w o p).1 (subst (IsPatchOf w p) same q))
        | inr later ↦
            In-append_right p (output_patches w o) (json_patches w os) (from (o', later, q))
      ],
    )

-- The response says why, where it does not allow.
abbrev pub IsExplained : AdmissionResponse → Type 0
IsExplained r = (r.allowed ≡ true) ⊎ ((m : Text) × (r.result ≡ some m))

pub with_patches-allowed :
    (uid : Text) (ps : List Patch) → (with_patches (admitted uid) ps).allowed ≡ true
with_patches-allowed uid [] = refl
with_patches-allowed uid (p ∷ ps) = refl

respond-IsExplained :
    (uid : Text) (w : WorkloadObject) (n : ℕ) (nv : NotificationValues) (r : Received)
    → IsExplained ((respond uid w n nv r).0)
unfolding respond
respond-IsExplained uid w n nv (all os) = inl (with_patches-allowed uid (json_patches w os))
respond-IsExplained uid w n nv (timed_out i) = inr (_, refl)
respond-IsExplained uid w n nv (failed o e) = inr (e, refl)

chosen-IsExplained :
    (b : Bool) (x y z : AdmissionResponse × NotificationValues)
    → (if b then x else y) ≡ z
    → IsExplained (x.0)
    → IsExplained (y.0)
    → IsExplained (z.0)
chosen-IsExplained true x y z h p q =
    subst (λ (t : AdmissionResponse × NotificationValues). IsExplained (t.0)) h p
chosen-IsExplained false x y z h p q =
    subst (λ (t : AdmissionResponse × NotificationValues). IsExplained (t.0)) h q

module _ (arrive : List ValidationInput → List Arrival)
    (parents : WorkloadObject → Result (List Text)) where
  review_objects-IsExplained :
      (uid : Text) (nv nv' : NotificationValues) (a : Result AdmissionRequestObjects)
      (r : AdmissionResponse)
      → review_objects arrive parents uid nv a ≡ ok (r, nv')
      → IsExplained r
  review_objects-IsExplained uid nv nv' (ok aro) r h =
      chosen-IsExplained aro.old_obj.deleted _ _ _ (ok-injective h) (inl refl)
        (respond-IsExplained uid aro.new_obj _ nv _)
  review_objects-IsExplained uid nv nv' (err e) r h =
      subst (λ (t : AdmissionResponse × NotificationValues). IsExplained (t.0)) (ok-injective h)
        (inr (e, refl))
  review_objects-IsExplained uid nv nv' panic r h = absurd (ground arith)

  pub mutate_review-IsExplained :
      (env : Env) (deserialize : Deserialize) (ar : AdmissionRequest) (r : AdmissionResponse)
      (nv : NotificationValues)
      → mutate_review env deserialize parents arrive ar ≡ ok (r, nv)
      → IsExplained r
  unfolding mutate_review
  mutate_review-IsExplained env deserialize ar r nv h =
      review_objects-IsExplained ar.uid (values_of env ar) nv _ r h
