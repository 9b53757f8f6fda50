-- ===== src/Validators/Notary/Delegations.antt =====
-- internal/validator/notaryv1/notaryserver/repo.go: the delegations of the targets role.
pub mod Kept
pub mod Checked
use connaisseur.Prelude.{
  Bool, true, false, not, Option, none, some, List, [], ◌∷◌, ◌++◌, Text, lit, if◌then◌else◌, length,
  is_empty, Result, ok, err, panic, ◌>>=◌,
}
use connaisseur.Utils.Lists.{has_key}
use connaisseur.Validators.Notary.{Tuf, find_at, deref, or_fail, check, for_each, Repo, Arrival}
use connaisseur.Validators.Notary.Base.{by_snapshot}
use connaisseur.Validators.Notary.Download.{
  Loop, blocks, stops, ends, receive_all, store_delegation,
}

module _ (tuf : Tuf) where
  unfoldable pub has_delegations : Repo tuf → Result Bool
  has_delegations r = do
    a ← deref (find_at r.targets (lit "targets"))
    ok (not (is_empty (tuf.delegation_roles a)))

  abbrev pub is_known : Repo tuf → Text → Result Bool
  is_known r d = do
    s ← deref r.snapshot
    ok (elim (find_at (tuf.snapshot_meta s) d) [ none ↦ false | some h ↦ true ])

  unfoldable pub has_delegation_hashes : Repo tuf → List Text → Result Bool
  has_delegation_hashes r [] = ok true
  has_delegation_hashes r (d ∷ ds) =
      let rest = has_delegation_hashes r ds in
      is_known r d >>= λ known. if known then rest else ok false

  -- the body of the first loop, without the start of the goroutine
  unfoldable pub check_available : List Text → Text → Result (Unit {0})
  unfolding has_key
  check_available roles d =
      if has_key roles d then ok tt else err (lit "delegation " ++ (d ++ lit " not found"))

  -- the body of the loop of validateDelegations
  unfoldable pub validate_delegation : Repo tuf → Text → Result (Unit {0})
  validate_delegation r d = do
    delegation_target ← elim (find_at r.targets d) [
      | none ↦ err (lit "delegation " ++ (d ++ lit " not found"))
      | some a ↦ ok a
    ]
    targets ← deref (find_at r.targets (lit "targets"))
    delegation_role ←
        or_fail (λ e. lit "error building delegation role " ++ (d ++ (lit ": " ++ e)))
          (tuf.build_delegation_role targets d)
    signed_obj ←
        or_fail
          (λ e.
            lit "serialization error from signedTarget to signed for delegation "
            ++ (d ++ (lit ": " ++ e)))
          (tuf.targets_to_signed delegation_target)
    _ ←
        check (λ e. lit "error validating delegation " ++ (d ++ lit " signatures"))
          (tuf.verify_signatures signed_obj delegation_role)
    _ ←
        check (λ e. d ++ lit " trust data expired")
          (tuf.verify_expiry (tuf.targets_common delegation_target) d)
    by_snapshot tuf r d

  unfoldable pub validate_delegations : Repo tuf → List Text → Result (Unit {0})
  unfolding for_each validate_delegation
  validate_delegations r = for_each (validate_delegation r)

  -- the fetches that are started
  unfoldable pub start_delegations : Repo tuf → List Text → Result (Unit {0})
  unfolding for_each check_available
  start_delegations r ds = do
    a ← deref (find_at r.targets (lit "targets"))
    for_each (check_available (tuf.delegation_roles a)) ds

  -- `none` where the call blocks for ever; else what it returns, and the repository
  abbrev pub received : List Text → Loop tuf → Option (Result (Unit {0}) × Repo tuf)
  received ds blocks = none
  received ds (stops e r) = some (err e, r)
  received ds (ends r) = some (validate_delegations r ds, r)

  abbrev pub of_started :
      (List Text → List (Arrival tuf))
      → Repo tuf
      → List Text
      → Result (Unit {0})
      → Option (Result (Unit {0}) × Repo tuf)
  of_started arrive r ds (ok _) =
      received ds (receive_all tuf (store_delegation tuf) (length ds) (arrive ds) r)
  of_started arrive r ds (err e) = some (err e, r)
  of_started arrive r ds panic = some (panic, r)

  -- Every round of the loop receives; the arrivals are those of the fetches of the delegations.
  unfoldable pub download_and_validate_delegations :
      (List Text → List (Arrival tuf))
      → Repo tuf
      → List Text
      → Option (Result (Unit {0}) × Repo tuf)
  unfolding start_delegations receive_all store_delegation validate_delegations
  download_and_validate_delegations arrive r ds = of_started arrive r ds (start_delegations r ds)
