-- ===== src/Validation/Image/Caches.antt =====
-- What a validation leaves in the cache, for the next validation of the same image.
use connaisseur.Prelude.{
  ◌≡◌, refl, sym, ap, subst, ◌∙◌, ◌≢◌, ◌⊎◌, inl, inr, true, false, none, some, List, [], ◌∷◌, arith,
  Text, lit, text_eq, text_eq_iff, Bool-cases, is_empty, Result, ok, err, panic, ok-injective,
}
use connaisseur.Constants.{static_validator}
use connaisseur.Image
use connaisseur.Image.{Image}
use connaisseur.Image.Parts.{IsDigest, set_digest-IsDigest, digest-set_digest}
use connaisseur.Policy.{Rule}
use connaisseur.Caching.{Store, cache_errors}
use connaisseur.Validators.Interface.{Validator, validate_image}
use connaisseur.Validation.Skip.{
  CachedEntry, Unmarshal, Cached, digest, error, of_entry, get_cached_digest, SkipResult, skip,
}
use connaisseur.Validation.Image.{
  ValidationInput, Locals, Setup, entry_text, failing, validation_error, validated, with_validator,
  chosen, with_images,
}

-- A validator may set the digest of the image, and nothing else.
abbrev pub KeepsImage : Image → Image → Type 0
KeepsImage img left = (left.original ≡ img.original) × (left.ref ≡ img.ref) × (left.tag ≡ img.tag)

-- The cache returns what was set last for the key.
abbrev pub IsStoring : Store → Type 0
IsStoring cache =
    (st : cache.State) (key value : Text) → cache.get (cache.set st key value).0 key ≡ ok value

-- The decoder reads the entry of a digest and an error.
abbrev pub IsRead : Unmarshal → Text → Text → Type 0
IsRead unmarshal d e = unmarshal (entry_text d e) ≡ ok (record { digest = d; error = e })

-- What is written of a validator's result, for the image that it leaves.
abbrev pub entry_of : Validator → Image → Result Text → CachedEntry
entry_of v left (ok d) = record { digest = (Image.set_digest left d).digest; error = [] }
entry_of v left (err m) = record { digest = []; error = validation_error v left m }
entry_of v left panic = record { digest = []; error = [] }

not_empty : {A : Type 0} (xs : List A) → xs ≢ [] → is_empty xs ≡ false
not_empty [] n = absurd (n refl)
not_empty (x ∷ xs) n = refl

-- The name of an image with a digest depends on the parts that a validator keeps.
same_name :
    (img left : Image) (d : Text)
    → KeepsImage img left
    → IsDigest d
    → Image.name (Image.set_digest img d) ≡ Image.name (record left { digest = d })
unfolding Image.set_digest
same_name img left d (o, r, t) h =
    ap (λ x. Image.name (record img { digest = x })) (digest-set_digest img d h) ∙ rw (o, r, t) refl

get_cached_digest-entry :
    (unmarshal : Unmarshal) (img : Image) (d e : Text)
    → IsRead unmarshal d e
    → get_cached_digest unmarshal (ok (entry_text d e)) img
      ≡ ok (of_entry (record { digest = d; error = e }))
unfolding get_cached_digest
get_cached_digest-entry unmarshal img d e reads = rw reads refl

module _ (setup : Setup) (stores : IsStoring setup.cache) (img left : Image)
    (keeps : KeepsImage img left) where
  -- What the cache says of the image.
  abbrev Says : setup.cache.State → Cached → Type 0
  Says st c = get_cached_digest setup.unmarshal (setup.cache.get st img.original) img ≡ ok c

  -- The next validation finds the digest, which gives the same new image.
  abbrev pub FindsDigest : Locals → setup.cache.State → Type 0
  FindsDigest l st =
      (d : Text) × Says st (digest d)
      × (Image.name (Image.set_digest img d) ≡ l.new_img)
      × (l.err_out ≡ none)

  -- The next validation finds the error, if errors are cached, and else nothing new.
  abbrev pub FindsError : Locals → setup.cache.State → setup.cache.State → Type 0
  FindsError l st st' =
      (m : Text) × (l.err_out ≡ some m)
      × (((cache_errors setup.env ≡ true) × Says st' (error m))
          ⊎ ((cache_errors setup.env ≡ false) × (st' ≡ st)))

  stored :
      (st : setup.cache.State) (d e : Text)
      → IsRead setup.unmarshal d e
      → Says
          ((setup.cache.set st left.original (entry_text d e)).0)
          (of_entry (record { digest = d; error = e }))
  unfolding get_cached_digest
  stored st d e reads =
      rw (sym keeps.0, stores st left.original (entry_text d e))
        (get_cached_digest-entry setup.unmarshal img d e reads)

  digest-Finds :
      (l l' : Locals) (st st' : setup.cache.State) (d : Text)
      → l.err_out ≡ none
      → d ≢ []
      → IsRead setup.unmarshal (Image.set_digest left d).digest []
      → with_images l left d ≡ l'
      → (setup.cache.set st left.original (entry_text (Image.set_digest left d).digest [])).0 ≡ st'
      → FindsDigest l' st'
  unfolding Image.set_digest
  digest-Finds l l' st st' d n q reads same after =
      let i = Image.set_digest left d in
      let (is, empty, _, _, _, _) = set_digest-IsDigest left d in
      let some_digest = not_empty i.digest (λ e. q (empty.1 e)) in
      let kept : Says ((setup.cache.set st left.original (entry_text i.digest [])).0)
          (digest i.digest) =
        stored st i.digest [] reads ∙ ap ok (rw some_digest refl) in
      (
        i.digest,
        subst (λ t. Says t (digest i.digest)) after kept,
        same_name img left i.digest keeps is ∙ ap (λ (t : Locals). t.new_img) same,
        ap (λ (t : Locals). t.err_out) (sym same) ∙ n,
      )

  error_entry :
      (v : Validator) (m : Text)
      → of_entry (record { digest = []; error = validation_error v left m })
        ≡ error (validation_error v left m)
  unfolding lit
  error_entry v m = refl

  error-Finds :
      (v : Validator) (l l' : Locals) (st st' : setup.cache.State) (m : Text)
      → IsRead setup.unmarshal [] (validation_error v left m)
      → validated setup l v st (err m, left) ≡ ok (l', st')
      → FindsError l' st st'
  error-Finds v l l' st st' m reads h =
      let msg = validation_error v left m in
      let same : failing l msg ≡ l' =
        ap (λ (t : Locals × setup.cache.State). t.0) (ok-injective h) in
      let failed = ap (λ (t : Locals). t.err_out) (sym same) in
      elim (Bool-cases (cache_errors setup.env)) [
        | inl c ↦
            let after = ap (λ (t : Locals × setup.cache.State). t.1) (ok-injective (rw c at h)) in
            (
              msg,
              failed,
              inl (
                c,
                subst (λ t. Says t (error msg)) after
                    (stored st [] msg reads ∙ ap ok (error_entry v m)),
              ),
            )
        | inr c ↦
            let after = ap (λ (t : Locals × setup.cache.State). t.1) (ok-injective (rw c at h)) in
            (msg, failed, inr (c, sym after))
      ]

  validated-Finds :
      (v : Validator) (l l' : Locals) (st st' : setup.cache.State) (r : Result Text)
      → l.err_out ≡ none
      → r ≢ ok []
      → IsRead setup.unmarshal (entry_of v left r).digest (entry_of v left r).error
      → validated setup l v st (r, left) ≡ ok (l', st')
      → FindsDigest l' st' ⊎ FindsError l' st st'
  validated-Finds v l l' st st' panic n q reads h = absurd (ground arith)
  validated-Finds v l l' st st' (err m) n q reads h = inr (error-Finds v l l' st st' m reads h)
  validated-Finds v l l' st st' (ok d) n q reads h =
      let i = Image.set_digest left d in
      let (_, empty, _, _, _, _) = set_digest-IsDigest left d in
      let some_digest = not_empty i.digest (λ e. q (ap ok (empty.1 e))) in
      let ran = ok-injective (rw some_digest at h) in
      inl (
        digest-Finds l l' st st' d n (λ e. q (ap ok e)) reads
          (ap (λ (t : Locals × setup.cache.State). t.0) ran)
          (ap (λ (t : Locals × setup.cache.State). t.1) ran))

  -- Let the cache return what was set, let the decoder read the entry that is written, and let a
  -- validator that is not static be called on an image whose validation is not skipped; it may set the
  -- image's digest and returns no empty one. After that, if the validation succeeds, the cache gives a
  -- digest for the image, and with it the same new image. If it fails, the cache gives the same error
  -- where errors are cached, and else the cache is what it was.
  pub with_validator-Finds :
      (v : Validator) (rule : Rule) (input : ValidationInput) (st st' : setup.cache.State)
      (s : SkipResult) (r : Result Text) (l : Locals)
      → v.type ≢ static_validator
      → skip setup.env setup.unmarshal
          (setup.cache.get st img.original)
          img
          input.previous_images
          input.parent_images
        ≡ ok s
      → s.skip ≡ false
      → validate_image v img rule.with_options ≡ (r, left)
      → r ≢ ok []
      → IsRead setup.unmarshal (entry_of v left r).digest (entry_of v left r).error
      → with_validator setup v rule img input st ≡ ok (l, st')
      → FindsDigest l st' ⊎ FindsError l st st'
  unfolding with_validator
  with_validator-Finds v rule input st st' s r l t k n c q reads h =
      let other : text_eq v.type static_validator ≡ false =
        ground (arith, (text_eq_iff v.type static_validator).0, t) in
      validated-Finds v (chosen v rule) l st st' r refl q reads (rw (other, k, n, c) at h)
