-- ===== src/Validators/Notary/Search/Found.antt =====
-- The digest that is found stands for the image in every file that is searched.
use connaisseur.Prelude.{
  ◌≡◌, refl, sym, ap, subst, ◌∙◌, ◌≢◌, ◌⊎◌, inl, inr, true, false, not, ◌&&◌, some, List, [], ◌∷◌,
  arith, Text, text_eq, text_eq_iff, Bool-cases, is_empty, All, In, >>=-no_panic, map_err-no_panic,
  ok-no_panic, err-no_panic, if-no_panic, guarded-ok, unless-ok, ok, panic, map_err, >>=-eq-ok,
  map_err-eq-ok, ok-injective,
}
use connaisseur.Utils.Lists.{set_key}
use connaisseur.Utils.Lists.Subtract.{In-set_key_old, In-set_key_new}
use connaisseur.Image.{Image}
use connaisseur.Validators.Notary.{Tuf, find_at, deref, Repo}
use connaisseur.Validators.Notary.Calls.{deref-ok, deref-no_panic}
use connaisseur.Validators.Notary.Download.Grows.{IsThere}
use connaisseur.Validators.Notary.Search.{
  search_targets_for_tag, search_targets_for_digest, same_digest, search_target, search_loop,
  one_digest, search,
}

module _ (tuf : Tuf) (img : Image) where
  -- The file lists the image's tag with this digest, which is the image's own where it has one; or the
  -- image has no tag, and the file lists the digest that it has.
  abbrev pub Lists : List (Text × Text) → Text → Type 0
  Lists ts d =
      ((is_empty img.tag ≡ false)
        × (hash : Text) × In (img.tag, hash) ts
        × (tuf.sha256_digest hash ≡ d)
        × ((is_empty img.digest ≡ true) ⊎ (img.digest ≡ d)))
      ⊎ ((is_empty img.tag ≡ true)
          × (img.digest ≡ d)
          × (key : Text) × (hash : Text) × In (key, hash) ts
          × (tuf.sha256_digest hash ≡ d))

  abbrev pub StandsFor : Repo tuf → Text → Text → Type 0
  StandsFor r d target =
      (a : tuf.SignedTargets) × (find_at r.targets target ≡ some a) × Lists (tuf.target_hashes a) d

  search_targets_for_tag-In :
      (ts : List (Text × Text)) (tag d : Text)
      → search_targets_for_tag tuf ts tag ≡ ok d
      → (hash : Text) × In (tag, hash) ts × (tuf.sha256_digest hash ≡ d)
  unfolding search_targets_for_tag
  search_targets_for_tag-In [] tag d h = absurd (ground arith)
  search_targets_for_tag-In ((key, hash) ∷ ts) tag d h = elim (Bool-cases (text_eq key tag)) [
    | inl e ↦
        let same = sym ((text_eq_iff key tag).0 e) in
        (hash, inl (ap (λ k. (k, hash)) same), ok-injective (rw e at h))
    | inr e ↦
        let (found, m, q) = search_targets_for_tag-In ts tag d (rw e at h) in (found, inr m, q)
  ]

  search_targets_for_digest-In :
      (ts : List (Text × Text)) (digest d : Text)
      → search_targets_for_digest tuf ts digest ≡ ok d
      → (digest ≡ d)
        × (key : Text) × (hash : Text) × In (key, hash) ts
        × (tuf.sha256_digest hash ≡ d)
  unfolding search_targets_for_digest
  search_targets_for_digest-In [] digest d h = absurd (ground arith)
  search_targets_for_digest-In ((key, hash) ∷ ts) digest d h =
      elim (Bool-cases (text_eq (tuf.sha256_digest hash) digest)) [
        | inl e ↦
            let own = ok-injective (rw e at h) in
            (
              sym ((text_eq_iff (tuf.sha256_digest hash) digest).0 e) ∙ own,
              key,
              hash,
              inl refl,
              own,
            )
        | inr e ↦
            let (same, k, found, m, q) = search_targets_for_digest-In ts digest d (rw e at h) in
            (same, k, found, inr m, q)
      ]

  same_digest-ok :
      (digest d : Text)
      → same_digest tuf img digest ≡ ok d
      → (digest ≡ d) × ((is_empty img.digest ≡ true) ⊎ (img.digest ≡ d))
  same_digest-ok digest d h =
      let (guard, k) =
        guarded-ok (not (is_empty img.digest) && not (text_eq img.digest digest)) _ (ok digest) d
          h in
      let same = ok-injective k in
      (
        same,
        elim (Bool-cases (is_empty img.digest)) [
          | inl e ↦ inl e
          | inr e ↦ elim (Bool-cases (text_eq img.digest digest)) [
            | inl f ↦ inr ((text_eq_iff img.digest digest).0 f ∙ same)
            | inr f ↦ absurd (ground (arith, rw (e, f) at guard))
          ]
        ],
      )

  search_target-StandsFor :
      (r : Repo tuf) (target d : Text)
      → search_target tuf img r target ≡ ok d
      → StandsFor r d target
  unfolding search_target
  search_target-StandsFor r target d h =
      let (a, h1, k) = >>=-eq-ok (deref (find_at r.targets target)) _ h in
      (
        a,
        deref-ok _ a h1,
        elim (unless-ok (is_empty img.tag) _ _ d k) [
          | inl (e, by_digest) ↦
              let (same, key, hash, m, q) =
                search_targets_for_digest-In (tuf.target_hashes a) img.digest d (
                  map_err-eq-ok _ (search_targets_for_digest tuf (tuf.target_hashes a) img.digest)
                    by_digest) in
              inr (e, same, key, hash, m, q)
          | inr (e, by_tag) ↦
              let (own, h2, k2) =
                >>=-eq-ok (map_err _ (search_targets_for_tag tuf (tuf.target_hashes a) img.tag)) _
                  by_tag in
              let (hash, m, q) =
                search_targets_for_tag-In (tuf.target_hashes a) img.tag own
                  (map_err-eq-ok _ (search_targets_for_tag tuf (tuf.target_hashes a) img.tag) h2) in
              let (same, given) = same_digest-ok own d k2 in inl (e, hash, m, q ∙ same, given)
        ],
      )

  search_loop-keeps :
      (r : Repo tuf) (ts found ds : List Text) (x : Text)
      → search_loop tuf img r ts found ≡ ok ds
      → In x found
      → In x ds
  unfolding search_loop
  search_loop-keeps r [] found ds x h m = subst (In x) (ok-injective h) m
  search_loop-keeps r (t ∷ ts) found ds x h m =
      let (digest, a, k) = >>=-eq-ok (search_target tuf img r t) _ h in
      search_loop-keeps r ts (set_key found digest) ds x k (In-set_key_old found digest x m)

  search_loop-StandsFor :
      (r : Repo tuf) (ts found : List Text) (d : Text)
      → search_loop tuf img r ts found ≡ ok (d ∷ [])
      → All (StandsFor r d) ts
  unfolding search_loop
  search_loop-StandsFor r [] found d h = tt
  search_loop-StandsFor r (t ∷ ts) found d h =
      let (digest, a, k) = >>=-eq-ok (search_target tuf img r t) _ h in
      let same : digest ≡ d =
        elim (search_loop-keeps r ts (set_key found digest) (d ∷ []) digest k
          (In-set_key_new found digest)) [ inl e ↦ e | inr n ↦ absurd n ] in
      (
        search_target-StandsFor r t d (a ∙ ap ok same),
        search_loop-StandsFor r ts (set_key found digest) d k,
      )

  one_digest-ok :
      (name : Text) (ds : List Text) (d : Text) → one_digest tuf name img ds ≡ ok d → ds ≡ d ∷ []
  one_digest-ok name [] d h = absurd (ground arith)
  one_digest-ok name (x ∷ []) d h = ap (λ t. t ∷ []) (ok-injective h)
  one_digest-ok name (x ∷ y ∷ ds) d h = absurd (ground arith)

  -- Where the search returns a digest, it stands for the image in each of the files.
  pub search-StandsFor :
      (name : Text) (r : Repo tuf) (ts : List Text) (d : Text)
      → search tuf name img r ts ≡ ok d
      → All (StandsFor r d) ts
  unfolding search
  search-StandsFor name r ts d h =
      let (ds, a, k) = >>=-eq-ok (search_loop tuf img r ts []) _ h in
      search_loop-StandsFor r ts [] d (a ∙ ap ok (one_digest-ok name ds d k))

  search_targets_for_tag-no_panic :
      (ts : List (Text × Text)) (tag : Text) → search_targets_for_tag tuf ts tag ≢ panic
  unfolding search_targets_for_tag
  search_targets_for_tag-no_panic [] tag = err-no_panic _
  search_targets_for_tag-no_panic ((key, hash) ∷ ts) tag =
      if-no_panic (text_eq key tag) _ _ (ok-no_panic _) (search_targets_for_tag-no_panic ts tag)

  search_targets_for_digest-no_panic :
      (ts : List (Text × Text)) (digest : Text) → search_targets_for_digest tuf ts digest ≢ panic
  unfolding search_targets_for_digest
  search_targets_for_digest-no_panic [] digest = err-no_panic _
  search_targets_for_digest-no_panic ((key, hash) ∷ ts) digest =
      if-no_panic (text_eq (tuf.sha256_digest hash) digest) _ _ (ok-no_panic _)
        (search_targets_for_digest-no_panic ts digest)

  search_target-no_panic :
      (r : Repo tuf) (target : Text)
      → IsThere (find_at r.targets target)
      → search_target tuf img r target ≢ panic
  unfolding search_target
  search_target-no_panic r target (a, there) =
      >>=-no_panic (deref (find_at r.targets target)) _ (deref-no_panic _ a there) (λ b q.
        if-no_panic (not (is_empty img.tag)) _ _
          (>>=-no_panic (map_err _ (search_targets_for_tag tuf (tuf.target_hashes b) img.tag)) _
            (map_err-no_panic _ _ (search_targets_for_tag-no_panic (tuf.target_hashes b) img.tag))
            (λ digest q.
              if-no_panic (not (is_empty img.digest) && not (text_eq img.digest digest)) _ _
                (err-no_panic _) (ok-no_panic digest)))
          (map_err-no_panic _ _
            (search_targets_for_digest-no_panic (tuf.target_hashes b) img.digest)))

  search_loop-no_panic :
      (r : Repo tuf) (ts found : List Text)
      → All (λ t. IsThere (find_at r.targets t)) ts
      → search_loop tuf img r ts found ≢ panic
  unfolding search_loop
  search_loop-no_panic r [] found there = ok-no_panic found
  search_loop-no_panic r (t ∷ ts) found (here, there) =
      >>=-no_panic (search_target tuf img r t) _ (search_target-no_panic r t here)
        (λ digest q. search_loop-no_panic r ts (set_key found digest) there)

  one_digest-no_panic : (name : Text) (ds : List Text) → one_digest tuf name img ds ≢ panic
  one_digest-no_panic name [] = err-no_panic _
  one_digest-no_panic name (d ∷ []) = ok-no_panic d
  one_digest-no_panic name (d ∷ e ∷ ds) = err-no_panic _

  pub search-no_panic :
      (name : Text) (r : Repo tuf) (ts : List Text)
      → All (λ t. IsThere (find_at r.targets t)) ts
      → search tuf name img r ts ≢ panic
  unfolding search
  search-no_panic name r ts there =
      >>=-no_panic (search_loop tuf img r ts []) _ (search_loop-no_panic r ts [] there)
        (λ ds q. one_digest-no_panic name ds)
