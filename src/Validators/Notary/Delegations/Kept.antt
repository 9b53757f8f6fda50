-- ===== src/Validators/Notary/Delegations/Kept.antt =====
-- The download of delegations leaves the base roles as they are.
use connaisseur.Prelude.{
  ◌≡◌, refl, sym, ap, subst, ◌∙◌, ◌⊎◌, inl, inr, false, some, List, ◌++◌, arith, Text, lit, text_eq,
  length, In, Result, ok, err, panic,
}
use mathlib.Core.Sum.{inl-injective}
use mathlib.Core.Option.{some-injective}
use connaisseur.Validators.Notary.{Tuf, find_at, set_at, Repo, TrustData, Arrival}
use connaisseur.Validators.Notary.Calls.{find_at-set_at_other}
use connaisseur.Validators.Notary.Download.{
  Loop, blocks, stops, ends, receive_all, with_checksum, store_delegation, IsFetched,
}
use connaisseur.Validators.Notary.Download.Rounds.{Leaves, receive_all-Leaves}
use connaisseur.Validators.Notary.Delegations.{
  start_delegations, received, of_started, download_and_validate_delegations,
}

module _ (tuf : Tuf) where
  -- The base roles of the two repositories are the same.
  pub record IsKept (r r' : Repo tuf) : Type 0 where
    pub root : r'.root ≡ r.root
    pub targets : find_at r'.targets (lit "targets") ≡ find_at r.targets (lit "targets")
    pub snapshot : r'.snapshot ≡ r.snapshot
    pub timestamp : r'.timestamp ≡ r.timestamp

  pub IsKept-refl : (r : Repo tuf) → IsKept r r
  IsKept-refl r = record { root = refl; targets = refl; snapshot = refl; timestamp = refl }

  -- What the body of the loop stored.
  record IsStored (t : TrustData tuf) (r r' : Repo tuf) : Type 0 where
    a : tuf.SignedTargets
    raw : Text
    left : with_checksum tuf t raw (record r { targets = set_at r.targets t.role a }) ≡ r'

  store_delegation-IsStored :
      (t : TrustData tuf) (r r' : Repo tuf) → store_delegation tuf t r ≡ inl r' → IsStored t r r'
  unfolding store_delegation
  store_delegation-IsStored t r r' h = of_content t.content h
    where
      of_targets :
          (raw : Text) (c : tuf.SignedTargets ⊎ Text)
          → elim c as (λ _. Repo tuf ⊎ Text) [
            | inr e ↦ inr (lit "error parsing delegation " ++ t.role)
            | inl a ↦
                inl (with_checksum tuf t raw (record r { targets = set_at r.targets t.role a }))
          ]
            ≡ inl r'
          → IsStored t r r'
      of_targets raw (inr e) k = absurd (ground arith)
      of_targets raw (inl a) k = record { a = a; raw = raw; left = inl-injective _ _ k }

      of_content :
          (c : (tuf.Signed × Text) ⊎ Text)
          → elim c as (λ _. Repo tuf ⊎ Text) [
            | inr e ↦ inr (lit "error downloading delegation " ++ (t.role ++ (lit ": " ++ e)))
            | inl (signed, raw) ↦
                elim (tuf.targets_from_signed signed t.role) as (λ _. Repo tuf ⊎ Text) [
                  | inr e ↦ inr (lit "error parsing delegation " ++ t.role)
                  | inl a ↦
                      inl
                        (with_checksum tuf t raw (record r { targets = set_at r.targets t.role a }))
                ]
          ]
            ≡ inl r'
          → IsStored t r r'
      of_content (inr e) k = absurd (ground arith)
      of_content (inl (signed, raw)) k = of_targets raw (tuf.targets_from_signed signed t.role) k

  -- No base role, so that its data are stored beside those of the targets role.
  abbrev pub IsDelegated : Text → Type 0
  IsDelegated d = text_eq d (lit "targets") ≡ false

  store_delegation-IsKept :
      (t : TrustData tuf) (r s s' : Repo tuf)
      → IsDelegated t.role
      → store_delegation tuf t s ≡ inl s'
      → IsKept r s
      → IsKept r s'
  store_delegation-IsKept t r s s' d h k =
      let i = store_delegation-IsStored t s s' h in
      subst (IsKept r) i.left (record {
        root = k.root;
        targets = find_at-set_at_other s.targets t.role (lit "targets") i.a d ∙ k.targets;
        snapshot = k.snapshot;
        timestamp = k.timestamp;
      })

  received-IsKept :
      (r r' : Repo tuf) (ds : List Text) (x : Result (Unit {0})) (l : Loop tuf)
      → Leaves tuf (store_delegation tuf) (IsKept r) l
      → received tuf ds l ≡ some (x, r')
      → IsKept r r'
  received-IsKept r r' ds x blocks k h = absurd (ground arith)
  received-IsKept r r' ds x (stops e s) k h =
      subst (IsKept r) (ap (λ (t : Result (Unit {0}) × Repo tuf). t.1) (some-injective _ _ h)) k
  received-IsKept r r' ds x (ends s) k h =
      subst (IsKept r) (ap (λ (t : Result (Unit {0}) × Repo tuf). t.1) (some-injective _ _ h)) k

  module _ (fetch : Text → TrustData tuf) (arrive : List Text → List (Arrival tuf))
      (named : (role : Text) → (fetch role).role ≡ role)
      (fetched : (roles : List Text) → IsFetched tuf fetch roles (arrive roles)) where
    pub receive_all-IsKept :
        (r : Repo tuf) (ds : List Text)
        → ((d : Text) → In d ds → IsDelegated d)
        → Leaves tuf
            (store_delegation tuf)
            (IsKept r)
            (receive_all tuf (store_delegation tuf) (length ds) (arrive ds) r)
    receive_all-IsKept r ds delegated =
        receive_all-Leaves tuf (store_delegation tuf) fetch (IsKept r) (length ds) ds (arrive ds) r
          (fetched ds)
          (λ role s s' m h k.
            store_delegation-IsKept (fetch role) r s s'
              (subst IsDelegated (sym (named role)) (delegated role m)) h k)
          (IsKept-refl r)

    of_started-IsKept :
        (r r' : Repo tuf) (ds : List Text) (x started : Result (Unit {0}))
        → ((d : Text) → In d ds → IsDelegated d)
        → of_started tuf arrive r ds started ≡ some (x, r')
        → IsKept r r'
    of_started-IsKept r r' ds x (ok _) delegated h =
        received-IsKept r r' ds x (receive_all tuf (store_delegation tuf) (length ds) (arrive ds) r)
          (receive_all-IsKept r ds delegated) h
    of_started-IsKept r r' ds x (err e) delegated h =
        subst (IsKept r) (ap (λ (t : Result (Unit {0}) × Repo tuf). t.1) (some-injective _ _ h))
          (IsKept-refl r)
    of_started-IsKept r r' ds x panic delegated h =
        subst (IsKept r) (ap (λ (t : Result (Unit {0}) × Repo tuf). t.1) (some-injective _ _ h))
          (IsKept-refl r)

    -- The repository that the download of delegations leaves, whether it succeeds or not, has the root, the
    -- targets, the snapshot and the timestamp that it had.
    pub download_and_validate_delegations-IsKept :
        (r r' : Repo tuf) (ds : List Text) (x : Result (Unit {0}))
        → ((d : Text) → In d ds → IsDelegated d)
        → download_and_validate_delegations tuf arrive r ds ≡ some (x, r')
        → IsKept r r'
    unfolding download_and_validate_delegations
    download_and_validate_delegations-IsKept r r' ds x delegated h =
        of_started-IsKept r r' ds x (start_delegations tuf r ds) delegated h
