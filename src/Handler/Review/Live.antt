-- ===== src/Handler/Review/Live.antt =====
-- A run in which the outputs of all validations arrive before the deadline.
use connaisseur.Prelude.{
  ℕ, ◌+◌, ◌≡◌, refl, sym, ap, ◌∙◌, ◌↔◌, ◌⊎◌, inl, inr, true, false, none, some, List, [], ◌∷◌, ◌++◌,
  map, arith, Text, lit, join, Option-cases, length, All, In, All-In, In-All,
}
use connaisseur.Kubernetes.Workload.{WorkloadObject}
use connaisseur.Validation.Image.{ValidationOutput}
use connaisseur.Validation.Workload.{output}
use connaisseur.Alert.Evaluation.{NotificationValues}
use connaisseur.Handler.Review.{
  lit, AdmissionResponse, all, failed, prepend, receive_one, receive, Patch, json_patches,
  render_patch, respond,
}
use connaisseur.Handler.Review.Patches.{IsPatchOf, with_patches-allowed, In-json_patches_iff}

abbrev pub IsClean : ValidationOutput → Type 0
IsClean o = o.error ≡ none

-- All outputs are received where none has an error, or else one that has.
receive_complete :
    (i : ℕ) (os : List ValidationOutput)
    → ((receive (length os) i (map output os) ≡ all os) × All IsClean os)
      ⊎ ((o : ValidationOutput) × (e : Text) × In o os
          × (o.error ≡ some e)
          × (receive (length os) i (map output os) ≡ failed o e))
unfolding receive
receive_complete i [] = inl (refl, tt)
receive_complete i (o ∷ os) = elim (Option-cases o.error) [
  | inr (e, h) ↦
      inr (
        o,
        e,
        inl refl,
        h,
        ap (λ t. receive_one o t (receive (length os) (i + 1) (map output os))) h,
      )
  | inl clean ↦
      let this = ap (λ t. receive_one o t (receive (length os) (i + 1) (map output os))) clean in
      elim (receive_complete (i + 1) os) [
        | inl (h, rest) ↦ inl (this ∙ ap (prepend o) h, (clean, rest))
        | inr (p, e, m, q, h) ↦ inr (p, e, inr m, q, this ∙ ap (prepend o) h)
      ]
]

-- The response to a complete run.
abbrev pub response_to :
    Text → WorkloadObject → NotificationValues → List ValidationOutput → AdmissionResponse
response_to uid w nv os = (respond uid w (length os) nv (receive (length os) 0 (map output os))).0

response_to-allowed_iff :
    (uid : Text) (w : WorkloadObject) (nv : NotificationValues) (os : List ValidationOutput)
    → ((response_to uid w nv os).allowed ≡ true) ↔ All IsClean os
unfolding respond
response_to-allowed_iff uid w nv os = elim (receive_complete 0 os) [
  | inl (h, clean) ↦ (
    λ _. clean,
    λ _.
        ap (λ t. ((respond uid w (length os) nv t).0).allowed) h
        ∙ with_patches-allowed uid (json_patches w os),
  )
  | inr (o, e, m, q, h) ↦ (
    λ a.
        absurd (ground (arith, sym (ap (λ t. ((respond uid w (length os) nv t).0).allowed) h) ∙ a)),
    λ clean. absurd (ground (arith, sym q ∙ All-In IsClean o os clean m)),
  )
]

-- The same outputs, in another order.
abbrev pub IsReordered : List ValidationOutput → List ValidationOutput → Type 0
IsReordered os os' = (length os ≡ length os') × ((o : ValidationOutput) → In o os ↔ In o os')

-- Let the outputs of all validations arrive in one order or in another. Then both responses allow the
-- request, or none does; and the patches of the containers are the same.
pub response_to-order :
    (uid : Text) (w : WorkloadObject) (nv : NotificationValues) (os os' : List ValidationOutput)
    → IsReordered os os'
    → (((response_to uid w nv os).allowed ≡ true) ↔ ((response_to uid w nv os').allowed ≡ true))
      × ((p : Patch) → In p (json_patches w os) ↔ In p (json_patches w os'))
response_to-order uid w nv os os' (same, listed) =
    let (from, to) = response_to-allowed_iff uid w nv os in
    let (from', to') = response_to-allowed_iff uid w nv os' in
    (
      (
        λ a. to' (In-All IsClean os' (λ o m. All-In IsClean o os (from a) ((listed o).1 m))),
        λ a. to (In-All IsClean os (λ o m. All-In IsClean o os' (from' a) ((listed o).0 m))),
      ),
      λ p. (
        λ m.
            let (o, i, q) = (In-json_patches_iff w os p).0 m in
            (In-json_patches_iff w os' p).1 (o, (listed o).0 i, q),
        λ m.
            let (o, i, q) = (In-json_patches_iff w os' p).0 m in
            (In-json_patches_iff w os p).1 (o, (listed o).1 i, q),
      ),
    )

abbrev pub IsSkipped : ValidationOutput → Type 0
IsSkipped o = o.skipped ≡ true

-- What is notified of outputs without an error.
abbrev pub HasResult : List ValidationOutput → Text → Type 0
HasResult os result =
    (All IsSkipped os × (result ≡ lit "skip"))
    ⊎ ((o : ValidationOutput) × In o os × (o.skipped ≡ false) × (result ≡ lit "success"))

-- The response carries these patches: none, or the rendered list of them.
abbrev pub Carries : AdmissionResponse → List Patch → Type 0
Carries r [] = (r.patch ≡ none) × (r.has_patch_type ≡ false)
Carries r (p ∷ ps) =
    (r.patch ≡ some (lit "[" ++ (join (map render_patch (p ∷ ps)) (lit ",") ++ lit "]")))
    × (r.has_patch_type ≡ true)

-- The review allows its request, with patches that set the new images of these outputs.
pub record IsAllowed (uid : Text) (w : WorkloadObject) (os : List ValidationOutput)
    (r : AdmissionResponse) (nv : NotificationValues) : Type 0 where
  pub its_uid : r.uid ≡ uid
  pub allowed : r.allowed ≡ true
  pub patches : List Patch
  pub carried : Carries r patches
  pub patched : (p : Patch) → In p patches ↔ ((o : ValidationOutput) × In o os × IsPatchOf w p o)
  pub result : HasResult os nv.result
