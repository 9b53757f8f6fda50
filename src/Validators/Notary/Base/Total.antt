-- ===== src/Validators/Notary/Base/Total.antt =====
-- The checks of complete base trust data dereference no nil pointer.
use connaisseur.Prelude.{
  ◌≢◌, Option, none, some, List, [], ◌∷◌, Text, lit, if◌then◌else◌, is_empty, >>=-no_panic,
  map_err-no_panic, ok-no_panic, err-no_panic, if-no_panic, panic, map_err,
}
use connaisseur.Validators.Notary.{
  Role, root, targets, snapshot, timestamp, role_name, base_roles, Tuf, find_at, deref, or_fail,
  check, for_each, Repo,
}
use connaisseur.Validators.Notary.Calls.{
  deref-no_panic, or_fail-no_panic, check-no_panic, for_each-no_panic,
}
use connaisseur.Validators.Notary.Download.Grows.{Has}
use connaisseur.Validators.Notary.Download.Complete.{IsComplete}
use connaisseur.Validators.Notary.Base.{
  is_valid, key_signed, canonical, validate_root, signed_of, validate_signed, validate_role,
  validate_rest_of_base, matched, by_snapshot, by_timestamp, validate_checksum,
  validate_base_checksums, validate_base_trust_data,
}

module _ (tuf : Tuf) where
  key_signed-no_panic :
      (msg : Text) (ss : List tuf.Signature) (last : Text) (key : tuf.PublicKey)
      → key_signed tuf msg ss last key ≢ panic
  unfolding key_signed
  key_signed-no_panic msg [] last key = err-no_panic _
  key_signed-no_panic msg (s ∷ ss) last key =
      if-no_panic (is_valid tuf (tuf.verify_signature msg s key)) _ _ (ok-no_panic tt)
        (key_signed-no_panic msg ss _ key)

  canonical-no_panic : (s : tuf.Signed) → canonical tuf s ≢ panic
  canonical-no_panic s =
      >>=-no_panic (or_fail _ (tuf.unmarshal_part s)) _ (or_fail-no_panic _ (tuf.unmarshal_part s))
        (λ decoded q. or_fail-no_panic _ (tuf.marshal_canonical decoded))

  validate_root-no_panic :
      (r : Repo tuf) (keys : List tuf.PublicKey) → Has tuf root r → validate_root tuf r keys ≢ panic
  unfolding validate_root
  validate_root-no_panic r keys (a, there) =
      >>=-no_panic (deref r.root) _ (deref-no_panic r.root a there) (λ b q.
        >>=-no_panic (or_fail _ (tuf.root_to_signed b)) _
          (or_fail-no_panic _ (tuf.root_to_signed b))
          (λ s q. >>=-no_panic (canonical tuf s) _ (canonical-no_panic s) (λ msg q.
            >>=-no_panic (if is_empty (tuf.signatures b) then _ else for_each _ keys) _
              (if-no_panic (is_empty (tuf.signatures b)) _ _ (err-no_panic _) (
                for_each-no_panic _ keys
                  (λ key m. key_signed-no_panic msg (tuf.signatures b) _ key)))
              (λ u q. check-no_panic _ (tuf.verify_expiry (tuf.root_common b) (lit "root"))))))

  signed_of-no_panic : (r : Repo tuf) (role : Role) → Has tuf role r → signed_of tuf r role ≢ panic
  signed_of-no_panic r root (a, there) =
      >>=-no_panic (deref r.root) _ (deref-no_panic r.root a there) (λ b q. ok-no_panic _)
  signed_of-no_panic r targets (a, there) =
      >>=-no_panic (deref (find_at r.targets (lit "targets"))) _
        (deref-no_panic (find_at r.targets (lit "targets")) a there) (λ b q. ok-no_panic _)
  signed_of-no_panic r snapshot (a, there) =
      >>=-no_panic (deref r.snapshot) _ (deref-no_panic r.snapshot a there) (λ b q. ok-no_panic _)
  signed_of-no_panic r timestamp (a, there) =
      >>=-no_panic (deref r.timestamp) _ (deref-no_panic r.timestamp a there) (λ b q. ok-no_panic _)

  validate_signed-no_panic :
      (r : Repo tuf) (role : Role)
      → Has tuf root r
      → Has tuf role r
      → validate_signed tuf r role ≢ panic
  unfolding validate_signed
  validate_signed-no_panic r role (a, there) has =
      >>=-no_panic (signed_of tuf r role) _ (signed_of-no_panic r role has) (λ both q.
        >>=-no_panic (or_fail _ both.0) _ (or_fail-no_panic _ both.0) (λ s q.
          >>=-no_panic (deref r.root) _ (deref-no_panic r.root a there) (λ b q.
            >>=-no_panic (or_fail _ (tuf.build_base_role b role)) _
              (or_fail-no_panic _ (tuf.build_base_role b role))
              (λ v q.
                >>=-no_panic (check _ (tuf.verify_signatures s v)) _
                  (check-no_panic _ (tuf.verify_signatures s v))
                  (λ u q. check-no_panic _ (tuf.verify_expiry both.1 (role_name role)))))))

  validate_role-no_panic :
      (r : Repo tuf) (c : IsComplete tuf r) (role : Role) → validate_role tuf r role ≢ panic
  validate_role-no_panic r c root = ok-no_panic tt
  validate_role-no_panic r c targets =
      validate_signed-no_panic r targets (c.roles root) (c.roles targets)
  validate_role-no_panic r c snapshot =
      validate_signed-no_panic r snapshot (c.roles root) (c.roles snapshot)
  validate_role-no_panic r c timestamp =
      validate_signed-no_panic r timestamp (c.roles root) (c.roles timestamp)

  matched-no_panic :
      (o : Option Text) (name : Text) (hashes : tuf.Hashes) → matched tuf o name hashes ≢ panic
  matched-no_panic none name hashes = err-no_panic _
  matched-no_panic (some payload) name hashes =
      check-no_panic _ (tuf.check_hashes payload name hashes)

  pub by_snapshot-no_panic :
      (r : Repo tuf) (name : Text) → Has tuf snapshot r → by_snapshot tuf r name ≢ panic
  by_snapshot-no_panic r name (s, there) =
      >>=-no_panic (deref r.snapshot) _ (deref-no_panic r.snapshot s there)
        (λ t q. matched-no_panic (find_at r.not_checked_checksums name) name _)

  by_timestamp-no_panic :
      (r : Repo tuf) (name : Text) → Has tuf timestamp r → by_timestamp tuf r name ≢ panic
  by_timestamp-no_panic r name (s, there) =
      >>=-no_panic (deref r.timestamp) _ (deref-no_panic r.timestamp s there)
        (λ t q. matched-no_panic (find_at r.not_checked_checksums name) name _)

  validate_checksum-no_panic :
      (r : Repo tuf) (c : IsComplete tuf r) (role : Role) → validate_checksum tuf r role ≢ panic
  validate_checksum-no_panic r c root = by_snapshot-no_panic r (lit "root") (c.roles snapshot)
  validate_checksum-no_panic r c targets = by_snapshot-no_panic r (lit "targets") (c.roles snapshot)
  validate_checksum-no_panic r c snapshot =
      by_timestamp-no_panic r (lit "snapshot") (c.roles timestamp)
  validate_checksum-no_panic r c timestamp = ok-no_panic tt

  -- The checks of complete base trust data pass or return an error.
  pub validate_base_trust_data-no_panic :
      (r : Repo tuf) (keys : List tuf.PublicKey)
      → IsComplete tuf r
      → validate_base_trust_data tuf r keys ≢ panic
  unfolding validate_base_trust_data validate_rest_of_base validate_base_checksums
  validate_base_trust_data-no_panic r keys c =
      >>=-no_panic (map_err _ (validate_root tuf r keys)) _
        (map_err-no_panic _ (validate_root tuf r keys)
          (validate_root-no_panic r keys (c.roles root)))
        (λ u q.
          >>=-no_panic (map_err _ (validate_rest_of_base tuf r)) _
            (map_err-no_panic _ (validate_rest_of_base tuf r) (
              for_each-no_panic (validate_role tuf r) base_roles
                (λ role m. validate_role-no_panic r c role)))
            (λ v q. map_err-no_panic _ (validate_base_checksums tuf r) (
              for_each-no_panic (validate_checksum tuf r) base_roles
                (λ role m. validate_checksum-no_panic r c role))))
