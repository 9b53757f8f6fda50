-- ===== src/Validators/Notary/Delegations/Checked.antt =====
-- What a delegation that passes the checks rests on, and that the checks dereference no nil pointer.
use mathlib.Core.Option.{some-injective}
use connaisseur.Utils.Lists.{has_key}
use connaisseur.Validators.Notary.Delegations.Kept.{receive_all-IsKept, IsDelegated, IsKept}
use connaisseur.Validators.Notary.Download.Rounds.{Leaves}
use connaisseur.Validators.Notary.Download.{blocks, stops, ends, IsFetched, store_delegation, Loop}
use connaisseur.Prelude.{
  ◌≡◌, refl, ap, subst, ◌∙◌, ◌≢◌, inl, Option, none, some, List, ◌++◌, arith, Text, lit, All, In,
  All-In, In-All, >>=-no_panic, ok-no_panic, err-no_panic, if-no_panic, Result, ok, err, panic,
  >>=-eq-ok, ok-injective,
}
use connaisseur.Validators.Notary.{
  TrustData, Arrival, targets, snapshot, Tuf, find_at, deref, or_fail, check, Repo,
}
use connaisseur.Validators.Notary.Calls.{
  for_each-no_panic, for_each-All, deref-ok, or_fail-ok, check-ok, deref-no_panic, or_fail-no_panic,
  check-no_panic,
}
use connaisseur.Validators.Notary.Base.Checked.{BySnapshot, by_snapshot-BySnapshot}
use connaisseur.Validators.Notary.Base.Total.{by_snapshot-no_panic}
use connaisseur.Validators.Notary.Download.Grows.{Has}
use connaisseur.Validators.Notary.Delegations.{
  download_and_validate_delegations, validate_delegations, check_available, start_delegations,
  of_started, received, validate_delegation,
}

module _ (tuf : Tuf) where
  -- The delegation's target file is signed as the targets role says, not expired, and its bytes have the
  -- hashes of the snapshot.
  pub record IsValid (r : Repo tuf) (d : Text) : Type 0 where
    pub a : tuf.SignedTargets
    pub base : tuf.SignedTargets
    pub verify_role : tuf.VerifyRole
    pub s : tuf.Signed
    pub found : find_at r.targets d ≡ some a
    pub base_found : find_at r.targets (lit "targets") ≡ some base
    pub built : tuf.build_delegation_role base d ≡ inl verify_role
    pub serialized : tuf.targets_to_signed a ≡ inl s
    pub signed : tuf.verify_signatures s verify_role ≡ none
    pub not_expired : tuf.verify_expiry (tuf.targets_common a) d ≡ none
    pub bytes : BySnapshot tuf r d

  or_missing :
      {A : Type 0} (e : Text) (o : Option A) (a : A)
      → elim o as (λ _. Result A) [ none ↦ err e | some b ↦ ok b ] ≡ ok a
      → o ≡ some a
  or_missing e none a h = absurd (ground arith)
  or_missing e (some b) a h = ap some (ok-injective h)

  or_missing-no_panic :
      {A : Type 0} (e : Text) (o : Option A)
      → elim o as (λ _. Result A) [ none ↦ err e | some b ↦ ok b ] ≢ panic
  or_missing-no_panic e none = err-no_panic e
  or_missing-no_panic e (some b) = ok-no_panic b

  validate_delegation-IsValid :
      (r : Repo tuf) (d : Text) → validate_delegation tuf r d ≡ ok tt → IsValid r d
  unfolding validate_delegation
  validate_delegation-IsValid r d h =
      let (a, h1, k1) =
        >>=-eq-ok
          (elim (find_at r.targets d) as (λ _. Result tuf.SignedTargets) [
            | none ↦ err (lit "delegation " ++ (d ++ lit " not found"))
            | some a ↦ ok a
          ])
          _ h in
      let (b, h2, k2) = >>=-eq-ok (deref (find_at r.targets (lit "targets"))) _ k1 in
      let (v, h3, k3) = >>=-eq-ok (or_fail _ (tuf.build_delegation_role b d)) _ k2 in
      let (s, h4, k4) = >>=-eq-ok (or_fail _ (tuf.targets_to_signed a)) _ k3 in
      let (u, h5, k5) = >>=-eq-ok (check _ (tuf.verify_signatures s v)) _ k4 in
      let (w, h6, k6) = >>=-eq-ok (check _ (tuf.verify_expiry (tuf.targets_common a) d)) _ k5 in
      record {
        a = a;
        base = b;
        verify_role = v;
        s = s;
        found = or_missing _ (find_at r.targets d) a h1;
        base_found = deref-ok _ b h2;
        built = or_fail-ok _ _ v h3;
        serialized = or_fail-ok _ _ s h4;
        signed = check-ok _ _ u h5;
        not_expired = check-ok _ _ w h6;
        bytes = by_snapshot-BySnapshot tuf r d tt k6;
      }

  validate_delegation-no_panic :
      (r : Repo tuf) (d : Text)
      → Has tuf targets r
      → Has tuf snapshot r
      → validate_delegation tuf r d ≢ panic
  unfolding validate_delegation
  validate_delegation-no_panic r d (t, there) has =
      >>=-no_panic
        (elim (find_at r.targets d) as (λ _. Result tuf.SignedTargets) [
          | none ↦ err (lit "delegation " ++ (d ++ lit " not found"))
          | some a ↦ ok a
        ])
        _ (or_missing-no_panic _ (find_at r.targets d))
        (λ a q.
          >>=-no_panic (deref (find_at r.targets (lit "targets"))) _ (deref-no_panic _ t there)
            (λ b q.
              >>=-no_panic (or_fail _ (tuf.build_delegation_role b d)) _
                (or_fail-no_panic _ (tuf.build_delegation_role b d))
                (λ v q.
                  >>=-no_panic (or_fail _ (tuf.targets_to_signed a)) _
                    (or_fail-no_panic _ (tuf.targets_to_signed a))
                    (λ s q.
                      >>=-no_panic (check _ (tuf.verify_signatures s v)) _
                        (check-no_panic _ (tuf.verify_signatures s v))
                        (λ u q.
                          >>=-no_panic (check _ (tuf.verify_expiry (tuf.targets_common a) d)) _
                            (check-no_panic _ (tuf.verify_expiry (tuf.targets_common a) d))
                            (λ w q. by_snapshot-no_panic tuf r d has))))))

  received-IsValid :
      (r' : Repo tuf) (ds : List Text) (u : Unit {0}) (l : Loop tuf)
      → received tuf ds l ≡ some (ok u, r')
      → All (IsValid r') ds
  unfolding validate_delegations
  received-IsValid r' ds u blocks h = absurd (ground arith)
  received-IsValid r' ds u (stops e s) h = absurd (ground (arith, some-injective _ _ h))
  received-IsValid r' ds u (ends s) h =
      let both = some-injective _ _ h in
      let same : s ≡ r' = ap (λ (t : Result (Unit {0}) × Repo tuf). t.1) both in
      let passed = ap (λ (t : Result (Unit {0}) × Repo tuf). t.0) both in
      subst (λ t. All (IsValid t) ds) same
        (In-All (IsValid s) ds (λ d m.
          validate_delegation-IsValid s d
            (All-In _ d ds (for_each-All (validate_delegation tuf s) ds u passed) m)))

  of_started-IsValid :
      (arrive : List Text → List (Arrival tuf)) (r r' : Repo tuf) (ds : List Text) (u : Unit {0})
      (started : Result (Unit {0}))
      → of_started tuf arrive r ds started ≡ some (ok u, r')
      → All (IsValid r') ds
  of_started-IsValid arrive r r' ds u (ok _) h = received-IsValid r' ds u _ h
  of_started-IsValid arrive r r' ds u (err e) h = absurd (ground (arith, some-injective _ _ h))
  of_started-IsValid arrive r r' ds u panic h = absurd (ground (arith, some-injective _ _ h))

  -- Where the download succeeds, every delegation that was asked for has passed the checks.
  pub download_and_validate_delegations-IsValid :
      (arrive : List Text → List (Arrival tuf)) (r r' : Repo tuf) (ds : List Text) (u : Unit {0})
      → download_and_validate_delegations tuf arrive r ds ≡ some (ok u, r')
      → All (IsValid r') ds
  unfolding download_and_validate_delegations
  download_and_validate_delegations-IsValid arrive r r' ds u h =
      of_started-IsValid arrive r r' ds u (start_delegations tuf r ds) h

  pub IsKept-Has_targets :
      (r r' : Repo tuf) → IsKept tuf r r' → Has tuf targets r → Has tuf targets r'
  IsKept-Has_targets r r' k (a, there) = (a, k.targets ∙ there)

  pub IsKept-Has_snapshot :
      (r r' : Repo tuf) → IsKept tuf r r' → Has tuf snapshot r → Has tuf snapshot r'
  IsKept-Has_snapshot r r' k (a, there) = (a, k.snapshot ∙ there)

  start_delegations-no_panic :
      (r : Repo tuf) (ds : List Text) → Has tuf targets r → start_delegations tuf r ds ≢ panic
  unfolding start_delegations check_available
  start_delegations-no_panic r ds (a, there) =
      >>=-no_panic (deref (find_at r.targets (lit "targets"))) _ (deref-no_panic _ a there) (λ b q.
        for_each-no_panic (check_available tuf (tuf.delegation_roles b)) ds (λ d m.
          if-no_panic (has_key (tuf.delegation_roles b) d) _ _ (ok-no_panic tt) (err-no_panic _)))

  received-no_panic :
      (r r' : Repo tuf) (ds : List Text) (x : Result (Unit {0})) (l : Loop tuf)
      → Has tuf targets r
      → Has tuf snapshot r
      → Leaves tuf (store_delegation tuf) (IsKept tuf r) l
      → received tuf ds l ≡ some (x, r')
      → x ≢ panic
  unfolding validate_delegations
  received-no_panic r r' ds x blocks t s k h = absurd (ground arith)
  received-no_panic r r' ds x (stops e left) t s k h = λ q.
      err-no_panic e (ap (λ (t : Result (Unit {0}) × Repo tuf). t.0) (some-injective _ _ h) ∙ q)
  received-no_panic r r' ds x (ends left) t s k h = λ q.
      for_each-no_panic (validate_delegation tuf left) ds
        (λ d m.
          validate_delegation-no_panic left d (IsKept-Has_targets r left k t)
            (IsKept-Has_snapshot r left k s))
        (ap (λ (t : Result (Unit {0}) × Repo tuf). t.0) (some-injective _ _ h) ∙ q)

  module _ (fetch : Text → TrustData tuf) (arrive : List Text → List (Arrival tuf))
      (named : (role : Text) → (fetch role).role ≡ role)
      (fetched : (roles : List Text) → IsFetched tuf fetch roles (arrive roles)) where
    of_started-no_panic :
        (r r' : Repo tuf) (ds : List Text) (x started : Result (Unit {0}))
        → ((d : Text) → In d ds → IsDelegated tuf d)
        → Has tuf targets r
        → Has tuf snapshot r
        → started ≢ panic
        → of_started tuf arrive r ds started ≡ some (x, r')
        → x ≢ panic
    of_started-no_panic r r' ds x (ok _) delegated t s n h =
        received-no_panic r r' ds x _ t s
          (receive_all-IsKept tuf fetch arrive named fetched r ds delegated) h
    of_started-no_panic r r' ds x (err e) delegated t s n h = λ q.
        err-no_panic e (ap (λ (t : Result (Unit {0}) × Repo tuf). t.0) (some-injective _ _ h) ∙ q)
    of_started-no_panic r r' ds x panic delegated t s n h = absurd (n refl)

    pub download_and_validate_delegations-no_panic :
        (r r' : Repo tuf) (ds : List Text) (x : Result (Unit {0}))
        → ((d : Text) → In d ds → IsDelegated tuf d)
        → Has tuf targets r
        → Has tuf snapshot r
        → download_and_validate_delegations tuf arrive r ds ≡ some (x, r')
        → x ≢ panic
    unfolding download_and_validate_delegations
    download_and_validate_delegations-no_panic r r' ds x delegated t s h =
        of_started-no_panic r r' ds x (start_delegations tuf r ds) delegated t s
          (start_delegations-no_panic r ds t) h
