-- ===== src/Validation/Skip/Reasons.antt =====
-- Why a validation is skipped, and what stands for its result.
use connaisseur.Prelude.{
  ◌≡◌, refl, sym, ap, subst, ◌∙◌, ◌⊎◌, inl, inr, true, false, none, some, List, [], ◌∷◌, arith,
  Text, text_eq, text_eq_iff, Bool-cases, is_empty, In, Result, ok, err, panic, >>=-eq-ok,
  ok-injective,
}
use connaisseur.Constants.{automatic_unchanged_approval, automatic_child_approval}
use connaisseur.Utils.Feature.{Env, feature_flag_on, block_all_resources}
use connaisseur.Image.{Image}
use connaisseur.Validation.Skip.{
  CachedEntry, Unmarshal, SkipResult, has_image, automatic_unchanged, automatic_child, Cached,
  of_entry, of_json, get_cached_digest, cached_result, approved, skip,
}

has_image-In : (is : List Text) (original : Text) → has_image is original ≡ true → In original is
unfolding has_image
has_image-In [] original h = absurd (ground arith)
has_image-In (i ∷ is) original h = elim (Bool-cases (text_eq i original)) [
  | inl e ↦ inl (sym ((text_eq_iff i original).0 e))
  | inr e ↦ inr (has_image-In is original (rw e at h))
]

-- The image is one of the old object's, and the feature is on.
pub record IsUnchanged (env : Env) (img : Image) (previous : List Text) : Type 0 where
  pub flag : feature_flag_on env automatic_unchanged_approval ≡ true
  pub previous_image : In img.original previous

-- The image is one of a parent's, the feature is on, and all resources are validated.
pub record IsChild (env : Env) (img : Image) (parents : Result (List Text)) : Type 0 where
  pub flag : feature_flag_on env automatic_child_approval ≡ true
  pub all_resources : block_all_resources env ≡ true
  pub images : List Text
  pub parents_found : parents ≡ ok images
  pub parent_image : In img.original images

-- The cache holds an entry for the image, which decides the result.
pub record IsCached (unmarshal : Unmarshal) (value : Result Text) (s : SkipResult) : Type 0 where
  pub text : Text
  pub entry : CachedEntry
  pub found : value ≡ ok text
  pub decoded : unmarshal text ≡ ok entry
  pub result :
      ((is_empty entry.error ≡ false) × (s.validation_error ≡ some entry.error))
      ⊎ ((is_empty entry.error ≡ true)
          × (is_empty entry.digest ≡ false)
          × (s.validation_error ≡ none)
          × (s.validated_digest ≡ entry.digest))

automatic_unchanged-IsUnchanged :
    (env : Env) (img : Image) (previous : List Text)
    → automatic_unchanged env img previous ≡ true
    → IsUnchanged env img previous
unfolding automatic_unchanged
automatic_unchanged-IsUnchanged env img previous h =
    elim (Bool-cases (feature_flag_on env automatic_unchanged_approval)) [
      | inl e ↦ record { flag = e; previous_image = has_image-In previous img.original (rw e at h) }
      | inr e ↦ absurd (ground (arith, e))
    ]

automatic_child-IsChild :
    (env : Env) (img : Image) (parents : Result (List Text))
    → automatic_child env img parents ≡ ok true
    → IsChild env img parents
unfolding automatic_child
automatic_child-IsChild env img parents h =
    let flag : feature_flag_on env automatic_child_approval ≡ true = ground arith in
    let all : block_all_resources env ≡ true = ground arith in
    let (images, p, i) =
      >>=-eq-ok parents (λ is. ok (has_image is img.original)) (ground (arith, flag, all)) in
    record {
      flag = flag;
      all_resources = all;
      images = images;
      parents_found = p;
      parent_image = has_image-In images img.original (ok-injective i);
    }

cached-IsCached :
    (unmarshal : Unmarshal) (value : Result Text) (img : Image) (c : Cached)
    → get_cached_digest unmarshal value img ≡ ok c
    → (cached_result c).skip ≡ true
    → IsCached unmarshal value (cached_result c)
unfolding get_cached_digest
cached-IsCached unmarshal (err e) img c h k = absurd (ground arith)
cached-IsCached unmarshal panic img c h k = absurd (ground arith)
cached-IsCached unmarshal (ok text) img c h k = go (unmarshal text) refl h
  where
    of_kind :
        (e : CachedEntry)
        → of_entry e ≡ c
        → ((is_empty e.error ≡ false) × ((cached_result c).validation_error ≡ some e.error))
          ⊎ ((is_empty e.error ≡ true)
              × (is_empty e.digest ≡ false)
              × ((cached_result c).validation_error ≡ none)
              × ((cached_result c).validated_digest ≡ e.digest))
    of_kind e q = elim (Bool-cases (is_empty e.error)) [
      | inr a ↦ inl (a, ground (arith, a))
      | inl a ↦ elim (Bool-cases (is_empty e.digest)) [
        | inr b ↦ inr (a, b, ground (arith, a, b), ground (arith, a, b))
        | inl b ↦ absurd (ground (arith, a, b))
      ]
    ]

    go :
        (r : Result CachedEntry)
        → unmarshal text ≡ r
        → of_json r ≡ ok c
        → IsCached unmarshal (ok text) (cached_result c)
    go (err e) q h = absurd (ground arith)
    go panic q h = absurd (ground arith)
    go (ok e) q h = record {
      text = text;
      entry = e;
      found = refl;
      decoded = q;
      result = of_kind e (ok-injective h);
    }

-- A validation is skipped only for one of three reasons: the image is one of the old object's and that
-- feature is on; it is one of a parent's, that feature is on and all resources are validated; or the
-- cache holds an entry for it. In the first two cases the image keeps its digest and there is no
-- error; in the last the entry's error is the result, or else its digest, which is not empty.
pub skip-reasons :
    (env : Env) (unmarshal : Unmarshal) (value : Result Text) (img : Image) (previous : List Text)
    (parents : Result (List Text)) (s : SkipResult)
    → skip env unmarshal value img previous parents ≡ ok s
    → s.skip ≡ true
    → ((IsUnchanged env img previous ⊎ IsChild env img parents)
        × (s.validated_digest ≡ img.digest)
        × (s.validation_error ≡ none))
      ⊎ IsCached unmarshal value s
unfolding skip
skip-reasons env unmarshal value img previous parents s h k =
    elim (Bool-cases (automatic_unchanged env img previous)) [
      | inl u ↦
          let same : approved "unchanged image reference" img ≡ s = ok-injective (rw u at h) in
          inl (inl (automatic_unchanged-IsUnchanged env img previous u), ground arith, ground arith)
      | inr u ↦
          let (child, a, h1) = >>=-eq-ok (automatic_child env img parents) _ (rw u at h) in
          elim (Bool-cases child) [
            | inl c ↦
                let same : approved "automatic approval of child image reference" img ≡ s =
                  ok-injective (rw c at h1) in
                inl (
                  inr (automatic_child-IsChild env img parents (a ∙ ap ok c)),
                  ground arith,
                  ground arith,
                )
            | inr c ↦
                let (cached, b, h2) =
                  >>=-eq-ok (get_cached_digest unmarshal value img) _ (rw c at h1) in
                let same : cached_result cached ≡ s = ok-injective h2 in
                inr (
                  subst (IsCached unmarshal value) same (
                    cached-IsCached unmarshal value img cached b
                      (subst (λ t. t.skip ≡ true) (sym same) k)))
          ]
    ]
