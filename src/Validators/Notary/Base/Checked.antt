-- ===== src/Validators/Notary/Base/Checked.antt =====
-- What base trust data that pass the checks rest on.
use connaisseur.Prelude.{
  ◌≡◌, refl, ap, ◌∙◌, ◌⊎◌, inl, inr, Bool, true, false, Option, none, some, List, [], ◌∷◌, arith,
  Text, lit, if◌then◌else◌, is_empty, All, In, All-In, In-All, guarded-ok, ok, map_err, >>=-eq-ok,
  map_err-eq-ok,
}
use connaisseur.Validators.Notary.{
  Role, targets, snapshot, timestamp, role_name, base_roles, Tuf, find_at, deref, or_fail, check,
  for_each, Repo,
}
use connaisseur.Validators.Notary.Calls.{deref-ok, or_fail-ok, check-ok, for_each-All}
use connaisseur.Validators.Notary.Base.{
  is_valid, reason, key_signed, canonical, validate_root, signed_of, validate_signed, validate_role,
  validate_rest_of_base, hashes_at, matched, by_snapshot, by_timestamp, validate_checksum,
  validate_base_checksums, validate_base_trust_data,
}

module _ (tuf : Tuf) where
  -- One of the signatures is a valid one of the key for the bytes.
  abbrev pub IsKeySigned : Text → List tuf.Signature → tuf.PublicKey → Type 0
  IsKeySigned msg ss key =
      (s : tuf.Signature) × In s ss × (tuf.verify_signature msg s key ≡ inl true)

  -- The canonical bytes of the root are signed by every key, and the root is not expired.
  pub record IsRoot (r : Repo tuf) (keys : List tuf.PublicKey) : Type 0 where
    pub a : tuf.SignedRoot
    pub s : tuf.Signed
    pub msg : Text
    pub found : r.root ≡ some a
    pub serialized : tuf.root_to_signed a ≡ inl s
    pub bytes : canonical tuf s ≡ ok msg
    pub signed : All (IsKeySigned msg (tuf.signatures a)) keys
    pub not_expired : tuf.verify_expiry (tuf.root_common a) (lit "root") ≡ none

  -- The role's data are signed as the root says, and not expired.
  pub record IsSignedRole (r : Repo tuf) (role : Role) : Type 0 where
    pub a : tuf.SignedRoot
    pub s : tuf.Signed
    pub common : tuf.SignedCommon
    pub verify_role : tuf.VerifyRole
    pub found : r.root ≡ some a
    pub serialized : signed_of tuf r role ≡ ok (inl s, common)
    pub built : tuf.build_base_role a role ≡ inl verify_role
    pub signed : tuf.verify_signatures s verify_role ≡ none
    pub not_expired : tuf.verify_expiry common (role_name role) ≡ none

  -- The fetched bytes of the name have the hashes.
  abbrev pub IsMatched : Repo tuf → List (Text × tuf.Hashes) → Text → Type 0
  IsMatched r meta name =
      (payload : Text) × (find_at r.not_checked_checksums name ≡ some payload)
      × (tuf.check_hashes payload name (hashes_at tuf meta name) ≡ none)

  abbrev pub BySnapshot : Repo tuf → Text → Type 0
  BySnapshot r name =
      (s : tuf.SignedSnapshot) × (r.snapshot ≡ some s) × IsMatched r (tuf.snapshot_meta s) name

  abbrev pub ByTimestamp : Repo tuf → Text → Type 0
  ByTimestamp r name =
      (t : tuf.SignedTimestamp) × (r.timestamp ≡ some t) × IsMatched r (tuf.timestamp_meta t) name

  -- Base trust data that the keys vouch for.
  pub record IsTrusted (r : Repo tuf) (keys : List tuf.PublicKey) : Type 0 where
    pub root : IsRoot r keys
    pub targets : IsSignedRole r targets
    pub snapshot : IsSignedRole r snapshot
    pub timestamp : IsSignedRole r timestamp
    pub root_bytes : BySnapshot r (lit "root")
    pub targets_bytes : BySnapshot r (lit "targets")
    pub snapshot_bytes : ByTimestamp r (lit "snapshot")

  matched-IsMatched :
      (r : Repo tuf) (meta : List (Text × tuf.Hashes)) (name : Text) (u : Unit {0})
      (o : Option Text)
      → find_at r.not_checked_checksums name ≡ o
      → matched tuf o name (hashes_at tuf meta name) ≡ ok u
      → IsMatched r meta name
  matched-IsMatched r meta name u none q h = absurd (ground arith)
  matched-IsMatched r meta name u (some payload) q h = (payload, q, check-ok _ _ u h)

  pub by_snapshot-BySnapshot :
      (r : Repo tuf) (name : Text) (u : Unit {0})
      → by_snapshot tuf r name ≡ ok u
      → BySnapshot r name
  by_snapshot-BySnapshot r name u h =
      let (s, a, b) = >>=-eq-ok (deref r.snapshot) _ h in
      (s, deref-ok r.snapshot s a, matched-IsMatched r (tuf.snapshot_meta s) name u _ refl b)

  by_timestamp-ByTimestamp :
      (r : Repo tuf) (name : Text) (u : Unit {0})
      → by_timestamp tuf r name ≡ ok u
      → ByTimestamp r name
  by_timestamp-ByTimestamp r name u h =
      let (t, a, b) = >>=-eq-ok (deref r.timestamp) _ h in
      (t, deref-ok r.timestamp t a, matched-IsMatched r (tuf.timestamp_meta t) name u _ refl b)

  key_signed-IsKeySigned :
      (msg : Text) (ss : List tuf.Signature) (last : Text) (key : tuf.PublicKey)
      → key_signed tuf msg ss last key ≡ ok tt
      → IsKeySigned msg ss key
  unfolding key_signed
  key_signed-IsKeySigned msg [] last key h = absurd (ground arith)
  key_signed-IsKeySigned msg (s ∷ ss) last key h =
      of_outcome (λ e k. let (t, m, v) = key_signed-IsKeySigned msg ss e key k in (t, inr m, v))
        (tuf.verify_signature msg s key) refl h
    where
      of_outcome :
          ((e : Text) → key_signed tuf msg ss e key ≡ ok tt → IsKeySigned msg (s ∷ ss) key)
          → (o : Bool ⊎ Text) → tuf.verify_signature msg s key ≡ o
          → (if is_valid tuf o then ok tt else key_signed tuf msg ss (reason tuf o) key) ≡ ok tt
          → IsKeySigned msg (s ∷ ss) key
      of_outcome later (inl true) q k = (s, inl refl, q)
      of_outcome later (inl false) q k = later _ k
      of_outcome later (inr e) q k = later _ k

  keys_signed :
      (msg : Text) (ss : List tuf.Signature) (last : Text) (keys : List tuf.PublicKey)
      (u : Unit {0})
      → for_each (key_signed tuf msg ss last) keys ≡ ok u
      → All (IsKeySigned msg ss) keys
  keys_signed msg ss last keys u h = In-All _ keys (λ key m.
      key_signed-IsKeySigned msg ss last key (All-In _ key keys (for_each-All _ keys u h) m))

  validate_root-IsRoot :
      (r : Repo tuf) (keys : List tuf.PublicKey) (u : Unit {0})
      → validate_root tuf r keys ≡ ok u
      → IsRoot r keys
  unfolding validate_root
  validate_root-IsRoot r keys u h =
      let (a, h1, k1) = >>=-eq-ok (deref r.root) _ h in
      let (s, h2, k2) = >>=-eq-ok (or_fail _ (tuf.root_to_signed a)) _ k1 in
      let (msg, h3, k3) = >>=-eq-ok (canonical tuf s) _ k2 in
      let (v, h4, k4) =
        >>=-eq-ok (if is_empty (tuf.signatures a) then _ else for_each _ keys) _ k3 in
      record {
        a = a;
        s = s;
        msg = msg;
        found = deref-ok r.root a h1;
        serialized = or_fail-ok _ _ s h2;
        bytes = h3;
        signed = keys_signed msg (tuf.signatures a) _ keys v (guarded-ok _ _ _ v h4).1;
        not_expired = check-ok _ _ u k4;
      }

  validate_signed-IsSignedRole :
      (r : Repo tuf) (role : Role) (u : Unit {0})
      → validate_signed tuf r role ≡ ok u
      → IsSignedRole r role
  unfolding validate_signed
  validate_signed-IsSignedRole r role u h =
      let (both, h1, k1) = >>=-eq-ok (signed_of tuf r role) _ h in
      let (s, h2, k2) = >>=-eq-ok (or_fail _ both.0) _ k1 in
      let (a, h3, k3) = >>=-eq-ok (deref r.root) _ k2 in
      let (v, h4, k4) = >>=-eq-ok (or_fail _ (tuf.build_base_role a role)) _ k3 in
      let (t, h5, k5) = >>=-eq-ok (check _ (tuf.verify_signatures s v)) _ k4 in
      record {
        a = a;
        s = s;
        common = both.1;
        verify_role = v;
        found = deref-ok r.root a h3;
        serialized = h1 ∙ ap (λ c. ok (c, both.1)) (or_fail-ok _ both.0 s h2);
        built = or_fail-ok _ _ v h4;
        signed = check-ok _ _ t h5;
        not_expired = check-ok _ _ u k5;
      }

  -- Base trust data that pass: the root that was fetched has a valid signature of every key and is not
  -- expired; the other roles are signed as this root says and not expired; the bytes of the root and of
  -- the targets have the hashes of the snapshot, and those of the snapshot the hashes of the timestamp.
  pub validate_base_trust_data-IsTrusted :
      (r : Repo tuf) (keys : List tuf.PublicKey)
      → validate_base_trust_data tuf r keys ≡ ok tt
      → IsTrusted r keys
  unfolding validate_base_trust_data validate_rest_of_base validate_base_checksums
  validate_base_trust_data-IsTrusted r keys h =
      let (u, h1, k1) = >>=-eq-ok (map_err _ (validate_root tuf r keys)) _ h in
      let (v, h2, k2) = >>=-eq-ok (map_err _ (validate_rest_of_base tuf r)) _ k1 in
      let rest =
        for_each-All (validate_role tuf r) base_roles v
          (map_err-eq-ok _ (validate_rest_of_base tuf r) h2) in
      let sums =
        for_each-All (validate_checksum tuf r) base_roles tt
          (map_err-eq-ok _ (validate_base_checksums tuf r) k2) in
      record {
        root = validate_root-IsRoot r keys u (map_err-eq-ok _ (validate_root tuf r keys) h1);
        targets = validate_signed-IsSignedRole r targets tt rest.1.0;
        snapshot = validate_signed-IsSignedRole r snapshot tt rest.1.1.0;
        timestamp = validate_signed-IsSignedRole r timestamp tt rest.1.1.1.0;
        root_bytes = by_snapshot-BySnapshot r _ tt sums.0;
        targets_bytes = by_snapshot-BySnapshot r _ tt sums.1.0;
        snapshot_bytes = by_timestamp-ByTimestamp r _ tt sums.1.1.0;
      }
