-- ===== src/Validators/Notary/Search.antt =====
-- internal/validator/notaryv1/notaryv1_validator.go: the search for the digest in the target files. The
-- order in which Go iterates over the targets of a file is not fixed, and here it is that of a list.
pub mod Found
use connaisseur.Prelude.{
  not, ◌&&◌, List, [], ◌∷◌, ◌++◌, Text, lit, text_eq, decimal, if◌then◌else◌, length, is_empty,
  Result, ok, err, ◌>>=◌, map_err,
}
use connaisseur.Utils.Lists.{set_key}
use connaisseur.Image.{Image}
use connaisseur.Validators.Notary.{Tuf, find_at, deref, Repo}

module _ (tuf : Tuf) where
  unfoldable pub search_targets_for_tag : List (Text × Text) → Text → Result Text
  search_targets_for_tag [] tag = err (lit "no tag '" ++ (tag ++ lit "' found in targets"))
  search_targets_for_tag ((key, hash) ∷ ts) tag =
      let later = search_targets_for_tag ts tag in
      if text_eq key tag then ok (tuf.sha256_digest hash) else later

  unfoldable pub search_targets_for_digest : List (Text × Text) → Text → Result Text
  search_targets_for_digest [] digest =
      err (lit "no digest '" ++ (digest ++ lit "' found in targets"))
  search_targets_for_digest ((key, hash) ∷ ts) digest =
      let target_digest = tuf.sha256_digest hash in
      let later = search_targets_for_digest ts digest in
      if text_eq target_digest digest then ok target_digest else later

  abbrev no_reference : Text → Text
  no_reference e = lit "validated targets don't contain reference: " ++ e

  -- an image with a tag and a digest must have the digest of its tag
  abbrev pub same_digest : Image → Text → Result Text
  same_digest img digest =
      if not (is_empty img.digest) && not (text_eq img.digest digest)
      then err (
          lit "digest "
          ++ (digest
              ++ (lit " resolved for tag "
                  ++ (img.tag ++ (lit " doesn't match given digest " ++ img.digest)))))
      else ok digest

  -- the body of the loop over the target files
  unfoldable pub search_target : Image → Repo tuf → Text → Result Text
  unfolding search_targets_for_tag search_targets_for_digest
  search_target img r target = deref (find_at r.targets target) >>= λ signed_target.
      if not (is_empty img.tag)
      then (map_err no_reference (search_targets_for_tag (tuf.target_hashes signed_target) img.tag)
          >>= λ digest. same_digest img digest)
      else map_err no_reference
          (search_targets_for_digest (tuf.target_hashes signed_target) img.digest)

  -- the keys of the map of digests
  unfoldable pub search_loop : Image → Repo tuf → List Text → List Text → Result (List Text)
  unfolding search_target
  search_loop img r [] found = ok found
  search_loop img r (t ∷ ts) found = do
    digest ← search_target img r t
    search_loop img r ts (set_key found digest)

  abbrev not_one : Text → Image → List Text → Text
  not_one name img ds =
      lit "validator "
      ++ (name
          ++ (lit " found "
              ++ (decimal (length ds)
                  ++ (lit " digests for image " ++ (img.ref.identifier ++ lit ", expected 1")))))

  abbrev pub one_digest : Text → Image → List Text → Result Text
  one_digest name img (d ∷ []) = ok d
  one_digest name img [] = err (not_one name img [])
  one_digest name img (d ∷ e ∷ ds) = err (not_one name img (d ∷ e ∷ ds))

  unfoldable pub search : Text → Image → Repo tuf → List Text → Result Text
  unfolding search_loop set_key
  search name img r targets = do digests ← search_loop img r targets []; one_digest name img digests
