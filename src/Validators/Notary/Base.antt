-- ===== src/Validators/Notary/Base.antt =====
-- internal/validator/notaryv1/notaryserver/repo.go: the checks of the base trust data.
pub mod Checked
pub mod Total
use connaisseur.Prelude.{
  ◌⊎◌, inl, inr, Bool, false, Option, none, some, List, [], ◌∷◌, ◌++◌, Text, lit, if◌then◌else◌,
  is_empty, Result, ok, err, ◌>>=◌, map_err,
}
use connaisseur.Validators.Notary.{
  Role, root, targets, snapshot, timestamp, role_name, base_roles, Tuf, find_at, deref, or_fail,
  check, for_each, Repo,
}

module _ (tuf : Tuf) where
  open tuf use {Signed, SignedCommon, Signature, PublicKey, Hashes}

  abbrev pub is_valid : Bool ⊎ Text → Bool
  is_valid (inl b) = b
  is_valid (inr e) = false

  abbrev pub reason : Bool ⊎ Text → Text
  reason (inl b) = lit "%!s(<nil>)"
  reason (inr e) = e

  -- the inner loop, with what `%s` writes for the last error
  unfoldable pub key_signed : Text → List Signature → Text → PublicKey → Result (Unit {0})
  key_signed msg [] last key =
      err
        (lit "error validating root signature with key " ++ (tuf.key_id key ++ (lit ": " ++ last)))
  key_signed msg (s ∷ ss) last key =
      let outcome = tuf.verify_signature msg s key in
      let rest = key_signed msg ss (reason outcome) key in if is_valid outcome then ok tt else rest

  -- the bytes that are signed
  abbrev pub canonical : Signed → Result Text
  canonical s = do
    decoded ← or_fail (λ e. lit "error unmarshalling root: " ++ e) (tuf.unmarshal_part s)
    or_fail (λ e. lit "error marshalling root: " ++ e) (tuf.marshal_canonical decoded)

  unfoldable pub validate_root : Repo tuf → List PublicKey → Result (Unit {0})
  validate_root r keys = do
    a ← deref r.root
    s ← or_fail (λ e. lit "serialization error for root: " ++ e) (tuf.root_to_signed a)
    msg ← canonical s
    _ ←
        if is_empty (tuf.signatures a)
        then err (lit "no signatures found for root")
        else for_each (key_signed msg (tuf.signatures a) (lit "%!s(<nil>)")) keys
    check (λ e. lit "root trust data expired") (tuf.verify_expiry (tuf.root_common a) (lit "root"))

  -- the switch on the role: the signed object or its error, and its common part
  abbrev pub signed_of : Repo tuf → Role → Result ((Signed ⊎ Text) × SignedCommon)
  signed_of r root = deref r.root >>= λ a. ok (tuf.root_to_signed a, tuf.root_common a)
  signed_of r targets = deref (find_at r.targets (lit "targets")) >>= λ a.
      ok (tuf.targets_to_signed a, tuf.targets_common a)
  signed_of r snapshot =
      deref r.snapshot >>= λ a. ok (tuf.snapshot_to_signed a, tuf.snapshot_common a)
  signed_of r timestamp =
      deref r.timestamp >>= λ a. ok (tuf.timestamp_to_signed a, tuf.timestamp_common a)

  unfoldable pub validate_signed : Repo tuf → Role → Result (Unit {0})
  validate_signed r role = do
    both ← signed_of r role
    s ← or_fail (λ e. lit "serialization error for " ++ (role_name role ++ (lit ": " ++ e))) both.0
    a ← deref r.root
    verify_role ←
        or_fail (λ e. lit "error building base role " ++ (role_name role ++ (lit ": " ++ e)))
          (tuf.build_base_role a role)
    _ ←
        check (λ e. lit "error validating " ++ (role_name role ++ lit " signatures"))
          (tuf.verify_signatures s verify_role)
    check (λ e. role_name role ++ lit " trust data expired")
        (tuf.verify_expiry both.1 (role_name role))

  -- the body of the loop, which skips the root
  abbrev pub validate_role : Repo tuf → Role → Result (Unit {0})
  validate_role r root = ok tt
  validate_role r targets = validate_signed r targets
  validate_role r snapshot = validate_signed r snapshot
  validate_role r timestamp = validate_signed r timestamp

  unfoldable pub validate_rest_of_base : Repo tuf → Result (Unit {0})
  unfolding validate_signed for_each
  validate_rest_of_base r = for_each (validate_role r) base_roles

  -- `Meta[name].Hashes`, the zero value for a missing key
  abbrev pub hashes_at : List (Text × Hashes) → Text → Hashes
  hashes_at meta name = elim (find_at meta name) [ none ↦ tuf.no_hashes | some h ↦ h ]

  abbrev pub matched : Option Text → Text → Hashes → Result (Unit {0})
  matched none name hashes = err (lit "no checksums found for " ++ name)
  matched (some payload) name hashes =
      check (λ e. lit "error validating " ++ (name ++ (lit " checksums: " ++ e)))
        (tuf.check_hashes payload name hashes)

  abbrev pub by_snapshot : Repo tuf → Text → Result (Unit {0})
  by_snapshot r name = do
    s ← deref r.snapshot
    matched (find_at r.not_checked_checksums name) name (hashes_at (tuf.snapshot_meta s) name)

  abbrev pub by_timestamp : Repo tuf → Text → Result (Unit {0})
  by_timestamp r name = do
    t ← deref r.timestamp
    matched (find_at r.not_checked_checksums name) name (hashes_at (tuf.timestamp_meta t) name)

  abbrev pub validate_checksum : Repo tuf → Role → Result (Unit {0})
  validate_checksum r root = by_snapshot r (lit "root")
  validate_checksum r targets = by_snapshot r (lit "targets")
  validate_checksum r snapshot = by_timestamp r (lit "snapshot")
  validate_checksum r timestamp = ok tt

  unfoldable pub validate_base_checksums : Repo tuf → Result (Unit {0})
  unfolding for_each
  validate_base_checksums r = for_each (validate_checksum r) base_roles

  unfoldable pub validate_base_trust_data : Repo tuf → List PublicKey → Result (Unit {0})
  unfolding validate_root validate_rest_of_base validate_base_checksums
  validate_base_trust_data r keys = do
    _ ← map_err (λ e. lit "error validating root: " ++ e) (validate_root r keys)
    _ ← map_err (λ e. lit "error validating base trust data: " ++ e) (validate_rest_of_base r)
    map_err (λ e. lit "error validating base trust data checksums: " ++ e)
        (validate_base_checksums r)
