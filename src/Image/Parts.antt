-- ===== src/Image/Parts.antt =====
-- The parts of a reference "repository:tag@digest".
use connaisseur.Prelude.{
  ℕ, ◌≤◌, ◌≡◌, refl, sym, ap, subst, ◌∙◌, ◌≢◌, ◌↔◌, ◌⊎◌, inl, inr, true, [], ◌∷◌, ◌++◌, arith, Text,
  lit, has_prefix, Bool-cases, length, drop, length-append, In, In-append_right, ok,
  has_prefix-append, trim_prefix-append, trim_suffix-append, has_prefix-eq,
}
use mathlib.Core.List.{append_assoc, append-nil}
use connaisseur.Utils.Strings.{string_overlap}
use connaisseur.Utils.Strings.Overlap.{Ends, string_overlap-IsOverlap}
use connaisseur.Image.{
  after_mark, tag_and_digest, ParseReference, new, name, Reference, Image, cut_tag, set_digest,
}

abbrev pub IsDigest : Text → Type 0
IsDigest d = (d ≡ []) ⊎ (has_prefix d (lit "sha256:") ≡ true)

-- The digest of a given text: none of none, and else the algorithm and a rest, where the text is that or,
-- where it does not name the algorithm itself, the rest alone.
abbrev pub IsDigestOf : Text → Text → Type 0
IsDigestOf d digest =
    ((d ≡ []) × (digest ≡ []))
    ⊎ ((d ≢ [])
        × (rest : Text) × (digest ≡ lit "sha256:" ++ rest)
        × ((d ≡ lit "sha256:" ++ rest) ⊎ ((d ≡ rest) × ((u : Text) → d ≢ lit "sha256:" ++ u))))

-- After SetDigest the digest is empty or names its algorithm, whatever text was given; it is empty
-- exactly when the given text is; it is the given text where that names the algorithm, and else the
-- algorithm and the given text; and the reference, the tag and the original text are the old ones.
pub set_digest-IsDigest :
    (i : Image) (d : Text)
    → IsDigest (set_digest i d).digest
      × ((d ≡ []) ↔ ((set_digest i d).digest ≡ []))
      × IsDigestOf d (set_digest i d).digest
      × ((set_digest i d).original ≡ i.original)
      × ((set_digest i d).ref ≡ i.ref)
      × ((set_digest i d).tag ≡ i.tag)
unfolding set_digest lit has_prefix
set_digest-IsDigest i [] = (inl refl, (λ _. refl, λ _. refl), inl (refl, refl), refl, refl, refl)
set_digest-IsDigest i (c ∷ s) = elim (Bool-cases (has_prefix (c ∷ s) (lit "sha256:"))) [
  | inl e ↦ (
    rw e (inr e),
    (λ h. cc, λ h. cc (rw e at h)),
    rw e (
        inr (
          λ q. cc q,
          drop (length (lit "sha256:")) (c ∷ s),
          has_prefix-eq (c ∷ s) (lit "sha256:") e,
          inl (has_prefix-eq (c ∷ s) (lit "sha256:") e),
        )),
    refl,
    refl,
    refl,
  )
  | inr e ↦ (
    rw e (inr refl),
    (λ h. cc, λ h. cc (rw e at h)),
    rw e (
        inr (
          λ q. cc q,
          c ∷ s,
          refl,
          inr (
            refl,
            λ u q.
                cc (
                  e,
                  ap (λ t. has_prefix t (lit "sha256:")) q ∙ has_prefix-append (lit "sha256:") u,
                ),
          ),
        )),
    refl,
    refl,
    refl,
  )
]

split_prefix :
    (p s w : Text)
    → has_prefix (p ++ s) w ≡ true
    → length p ≤ length w
    → (v : Text) × (w ≡ p ++ v) × (has_prefix s v ≡ true)
unfolding has_prefix
split_prefix [] s w h n = (w, refl, h)
split_prefix (c ∷ p) s [] h n = absurd (omega arith)
split_prefix (c ∷ p) s (d ∷ w) h n =
    let (v, e, k) = split_prefix p s w (ground arith) (omega arith) in (v, ground arith, k)

module _ (ref : Reference) (host repo tag id : Text) (whole : ref.context_name ≡ host ++ repo)
    (no_colon : (host ≡ []) ⊎ (¬ In 58 (host ++ repo))) (digest : ref.identifier ≡ id) where
  abbrev image : Text
  image = repo ++ (lit ":" ++ (tag ++ (lit "@" ++ id)))

  overlap-repo : string_overlap (host ++ repo) image ≡ repo
  overlap-repo =
      let o = string_overlap-IsOverlap (host ++ repo) image in
      let w = string_overlap (host ++ repo) image in
      let (v, e, k) =
        split_prefix repo (lit ":" ++ (tag ++ (lit "@" ++ id))) w o.begins
          (o.longest host repo refl (has_prefix-append repo _)) in
      go v e k o.ends
    where
      go :
          (v : Text)
          → string_overlap (host ++ repo) image ≡ repo ++ v
          → has_prefix (lit ":" ++ (tag ++ (lit "@" ++ id))) v ≡ true
          → Ends (string_overlap (host ++ repo) image) (host ++ repo)
          → string_overlap (host ++ repo) image ≡ repo
      go [] e k ends = e ∙ append-nil repo
      go (c ∷ v) e k (u, q) =
          let colon : c ≡ 58 = unfold lit has_prefix in ground arith in
          elim no_colon [
            | inl no_host ↦ absurd (
                omega (
                  arith,
                  ap length q,
                  length-append u (string_overlap (host ++ repo) image),
                  ap length e,
                  length-append repo (c ∷ v),
                  length-append host repo,
                  ap length no_host,
                ))
            | inr none_there ↦ absurd (
                none_there (
                  subst (In 58) q (
                    In-append_right 58 u _
                      (subst (In 58) (sym e) (In-append_right 58 repo (c ∷ v) (inl (sym colon)))))))
          ]

  cut_tag-tag : cut_tag ref image ≡ tag
  unfolding cut_tag
  cut_tag-tag =
      rw (whole, digest, overlap-repo, trim_prefix-append repo _, trim_prefix-append (lit ":") _)
        (trim_suffix-append tag (lit "@" ++ id))

name-parts :
    (ref : Reference) (image host repo tag digest : Text) (t : ℕ) (ts id : Text)
    → ref.context_string ≡ host ++ repo
    → tag ≡ t ∷ ts
    → digest ≡ id
    → has_prefix id (lit "sha256:") ≡ true
    → name (record { original = image; ref = ref; tag = tag; digest = digest })
      ≡ host ++ (repo ++ (lit ":" ++ ((t ∷ ts) ++ (lit "@" ++ id))))
unfolding name
name-parts ref image host repo tag digest t ts [] s e d a = unfold has_prefix lit in ground arith
name-parts ref image host repo tag digest t ts (x ∷ xs) s e d a =
    rw (s, e, d, append_assoc host repo (after_mark ":" (t ∷ ts) ++ after_mark "@" (x ∷ xs)))
      (ap (λ u. host ++ (repo ++ u)) (append_assoc (lit ":") (t ∷ ts) (lit "@" ++ x ∷ xs)))

-- Let the parser read "repo:tag@id", for a non-empty tag and an id that begins with "sha256:", as the
-- repository host ++ repo with the identifier id, where nothing was added as the host, or no colon stands
-- in host ++ repo. Then the image has this tag and this digest, and
-- its name is the given text with the host before it.
pub new-tag_and_digest :
    (parse : ParseReference) (ref : Reference) (host repo : Text) (t : ℕ) (ts id : Text)
    → ref.context_name ≡ host ++ repo
    → ref.context_string ≡ host ++ repo
    → ref.identifier ≡ id
    → has_prefix id (lit "sha256:") ≡ true
    → (host ≡ []) ⊎ (¬ In 58 (host ++ repo))
    → parse (repo ++ (lit ":" ++ ((t ∷ ts) ++ (lit "@" ++ id)))) ≡ ok ref
    → (i : Image) × (new parse (repo ++ (lit ":" ++ ((t ∷ ts) ++ (lit "@" ++ id)))) ≡ ok i)
      × (i.tag ≡ t ∷ ts)
      × (i.digest ≡ id)
      × (name i ≡ host ++ (repo ++ (lit ":" ++ ((t ∷ ts) ++ (lit "@" ++ id)))))
unfolding new tag_and_digest
new-tag_and_digest parse ref host repo t ts id n s d a c p =
    let image = repo ++ (lit ":" ++ ((t ∷ ts) ++ (lit "@" ++ id))) in
    let cut : cut_tag ref image ≡ t ∷ ts = cut_tag-tag ref host repo (t ∷ ts) id n c d in
    let sha : has_prefix ref.identifier (lit "sha256:") ≡ true = rw d a in
    (
      record { original = image; ref = ref; tag = cut_tag ref image; digest = ref.identifier },
      rw (p, sha) refl,
      cut,
      d,
      name-parts ref image host (repo) _ _ t ts id s cut d a,
    )

pub digest-set_digest : (i : Image) (d : Text) → IsDigest d → (set_digest i d).digest ≡ d
unfolding set_digest lit has_prefix
digest-set_digest i [] h = refl
digest-set_digest i (c ∷ s) (inl e) = absurd (ground arith)
digest-set_digest i (c ∷ s) (inr e) = rw e refl
