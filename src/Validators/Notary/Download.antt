-- ===== src/Validators/Notary/Download.antt =====
-- internal/validator/notaryv1/notaryserver/repo.go: the two loops that receive trust data. A fetch of a
-- role runs in a goroutine of its own.
pub mod Rounds
pub mod Complete
pub mod Grows
use connaisseur.Prelude.{
  ℕ, zero, suc, ◌≡◌, ◌⊎◌, inl, inr, some, List, [], ◌∷◌, ◌++◌, Text, lit, text_eq, if◌then◌else◌,
  ◌>>=◌,
}
use connaisseur.Validators.Notary.{Tuf, Repo, TrustData, Arrival, cancelled, arrives, set_at}

module _ (tuf : Tuf) where
  -- how a loop ends: it waits for ever, it returns an error, or all data are stored
  pub data Loop : Type 0 where
    blocks : Loop
    stops : Text → Repo tuf → Loop
    ends : Repo tuf → Loop

  -- what is done with the data of one role: the changed repository, or an error
  abbrev pub Store : Type 0
  Store = TrustData tuf → Repo tuf → Repo tuf ⊎ Text

  -- In a round the context is looked at first; then the channel is read without looking at it again.
  unfoldable pub receive_all : Store → ℕ → List (Arrival tuf) → Repo tuf → Loop
  receive_all store zero arrivals r = ends r
  receive_all store (suc n) [] r = blocks
  receive_all store (suc n) (cancelled ∷ arrivals) r = stops (lit "context cancelled") r
  receive_all store (suc n) (arrives t ∷ arrivals) r = elim (store t r) [
    | inl r' ↦ receive_all store n arrivals r'
    | inr e ↦ stops e r
  ]

  abbrev pub with_checksum : TrustData tuf → Text → Repo tuf → Repo tuf
  with_checksum t raw r = record r {
    not_checked_checksums = set_at r.not_checked_checksums t.role raw;
  }

  abbrev parse_error : Text → Text → Text
  parse_error role e = lit "error parsing trust data for " ++ (role ++ (lit ": " ++ e))

  abbrev pub or_error : {A : Type 0} → Text → (A → Repo tuf) → A ⊎ Text → Repo tuf ⊎ Text
  or_error role put (inl a) = inl (put a)
  or_error role put (inr e) = inr (parse_error role e)

  -- the switch on the role
  unfoldable pub parse_base : Text → tuf.Signed → Repo tuf → Repo tuf ⊎ Text
  parse_base role signed r =
      if text_eq role (lit "root")
      then or_error role (λ a. record r { root = some a }) (tuf.root_from_signed signed)
      else if text_eq role (lit "targets")
      then or_error role (λ a. record r { targets = set_at r.targets (lit "targets") a })
          (tuf.targets_from_signed signed (lit "targets"))
      else if text_eq role (lit "snapshot")
      then or_error role (λ a. record r { snapshot = some a }) (tuf.snapshot_from_signed signed)
      else if text_eq role (lit "timestamp")
      then or_error role (λ a. record r { timestamp = some a }) (tuf.timestamp_from_signed signed)
      else inl r

  abbrev stored : TrustData tuf → Text → Repo tuf ⊎ Text → Repo tuf ⊎ Text
  stored t raw (inl r) = inl (with_checksum t raw r)
  stored t raw (inr e) = inr e

  -- the body of the loop of DownloadBaseTrustData
  unfoldable pub store_base : Store
  unfolding parse_base
  store_base t r = elim t.content [
    | inr e ↦ inr (lit "error acquiring trust data " ++ (t.role ++ (lit ": " ++ e)))
    | inl (signed, raw) ↦ stored t raw (parse_base t.role signed r)
  ]

  -- the body of the loop of DownloadAndValidateDelegations
  unfoldable pub store_delegation : Store
  store_delegation t r = elim t.content [
    | inr e ↦ inr (lit "error downloading delegation " ++ (t.role ++ (lit ": " ++ e)))
    | inl (signed, raw) ↦ elim (tuf.targets_from_signed signed t.role) [
      | inr e ↦ inr (lit "error parsing delegation " ++ t.role)
      | inl a ↦ inl (with_checksum t raw (record r { targets = set_at r.targets t.role a }))
    ]
  ]

  -- The arrivals of the fetches of the roles, each of which sends at most once: after a fetch has seen
  -- the cancelled context it sends nothing.
  pub data IsFetched (fetch : Text → TrustData tuf) : List Text → List (Arrival tuf) → Type 0 where
    quiet : {roles : List Text} → IsFetched fetch roles []
    stops_early :
        {roles : List Text} (rest : List (Arrival tuf)) → IsFetched fetch roles (cancelled ∷ rest)
    sends :
        {roles : List Text} {rest : List (Arrival tuf)} (before : List Text) (role : Text)
        (after : List Text)
        → roles ≡ before ++ role ∷ after
        → IsFetched fetch (before ++ after) rest
        → IsFetched fetch roles (arrives (fetch role) ∷ rest)
