-- ===== src/Validators/Notary/Validator/Total.antt =====
-- The Notary v1 validator returns, and dereferences no nil pointer.
use connaisseur.Validators.Notary.Client.Total.{new_notary_client-no_panic}
use connaisseur.Validators.TrustRoots.Total.{get_trust_roots-no_panic}
use connaisseur.Prelude.{
  ◌≤◌, ◌≡◌, refl, sym, subst, ◌≢◌, ◌⊎◌, inl, inr, true, false, not, ◌&&◌, Option, none, some, List,
  [], ◌∷◌, Text, lit, contains, length, is_empty, All-In, In-All, >>=-no_panic, map_err-no_panic,
  ok-no_panic, err-no_panic, if-no_panic, Result, ok, err, panic, map_err,
}
use connaisseur.Image.{Image}
use connaisseur.Image.Registry.{RegistryRepo, new_registry_repo}
use connaisseur.Policy.{RuleOptions}
use connaisseur.Validators.TrustRoots.{TrustRoot, get_trust_roots}
use connaisseur.Validators.Notary.{
  targets, snapshot, base_names, find_at, deref, or_fail, Repo, empty_repo, TrustData,
}
use connaisseur.Validators.Notary.Calls.{deref-no_panic, or_fail-no_panic}
use connaisseur.Validators.Notary.Client.{NotaryClient, new_notary_client}
use connaisseur.Validators.Notary.Download.{
  Loop, blocks, stops, ends, receive_all, store_base, store_delegation, IsFetched,
}
use connaisseur.Validators.Notary.Download.Rounds.{receive_all-returns}
use connaisseur.Validators.Notary.Download.Grows.{Has}
use connaisseur.Validators.Notary.Download.Complete.{IsComplete, receive_all-IsComplete}
use connaisseur.Validators.Notary.Base.{validate_base_trust_data}
use connaisseur.Validators.Notary.Base.Total.{validate_base_trust_data-no_panic}
use connaisseur.Validators.Notary.Delegations.{
  has_delegations, is_known, has_delegation_hashes, start_delegations, received, of_started,
  download_and_validate_delegations,
}
use connaisseur.Validators.Notary.Delegations.Kept.{download_and_validate_delegations-IsKept}
use connaisseur.Validators.Notary.Delegations.Checked.{
  IsValid, IsKept-Has_targets, IsKept-Has_snapshot, download_and_validate_delegations-IsValid,
  download_and_validate_delegations-no_panic,
}
use connaisseur.Validators.Notary.Search.Found.{search-no_panic}
use connaisseur.Validators.Notary.Validator.{
  NotaryV1Validator, asked, targets_only, Choice, canonical, delegated, World, decoded, public_key,
  public_keys, trust_root_keys, choose_targets, prepare, fall_back, of_delegations, fetch,
  of_choice, of_base, download_base_trust_data, of_client, validate_image,
}
use connaisseur.Validators.Notary.Validator.Prepared.{asked-IsDelegated, fetch-named, prepare-cases}

module _ (w : World) (nv : NotaryV1Validator) where
  public_key-no_panic : (tr : TrustRoot) → public_key w nv tr ≢ panic
  unfolding public_key
  public_key-no_panic tr =
      >>=-no_panic (decoded w nv tr (w.tuf.decode_pem tr.key)) _
        (decoded-no_panic (w.tuf.decode_pem tr.key))
        (λ block q.
          >>=-no_panic (or_fail _ (w.tuf.parse_public_key block.0)) _
            (or_fail-no_panic _ (w.tuf.parse_public_key block.0))
            (λ key_type q.
              if-no_panic (not (is_empty block.1)) _ _ (err-no_panic _) (ok-no_panic _)))
    where
      decoded-no_panic : (o : Option (Text × Text)) → decoded w nv tr o ≢ panic
      decoded-no_panic none = err-no_panic _
      decoded-no_panic (some b) = ok-no_panic b

  public_keys-no_panic : (trs : List TrustRoot) → public_keys w nv trs ≢ panic
  unfolding public_keys
  public_keys-no_panic [] = ok-no_panic _
  public_keys-no_panic (tr ∷ trs) =
      >>=-no_panic (public_key w nv tr) _ (public_key-no_panic tr) (λ key q.
        >>=-no_panic (public_keys w nv trs) _ (public_keys-no_panic trs) (λ keys q. ok-no_panic _))

  trust_root_keys-no_panic : (key_ref : Text) → trust_root_keys w nv key_ref ≢ panic
  unfolding trust_root_keys
  trust_root_keys-no_panic key_ref =
      >>=-no_panic (map_err _ (get_trust_roots (key_ref ∷ []) nv.trust_roots true)) _
        (map_err-no_panic _ (get_trust_roots (key_ref ∷ []) nv.trust_roots true)
          (get_trust_roots-no_panic (key_ref ∷ []) nv.trust_roots true))
        (λ trs q. public_keys-no_panic trs)

  has_delegations-no_panic :
      (r : Repo w.tuf) → Has w.tuf targets r → has_delegations w.tuf r ≢ panic
  unfolding has_delegations
  has_delegations-no_panic r (a, there) =
      >>=-no_panic (deref (find_at r.targets (lit "targets"))) _ (deref-no_panic _ a there)
        (λ b q. ok-no_panic _)

  has_delegation_hashes-no_panic :
      (r : Repo w.tuf) (ds : List Text)
      → Has w.tuf snapshot r
      → has_delegation_hashes w.tuf r ds ≢ panic
  unfolding has_delegation_hashes
  has_delegation_hashes-no_panic r [] has = ok-no_panic true
  has_delegation_hashes-no_panic r (d ∷ ds) (a, there) =
      >>=-no_panic (is_known w.tuf r d) _
        (>>=-no_panic (deref r.snapshot) _ (deref-no_panic r.snapshot a there)
          (λ b q. ok-no_panic _))
        (λ known q.
          if-no_panic known _ _ (has_delegation_hashes-no_panic r ds (a, there))
            (ok-no_panic false))

  prepare-no_panic :
      (args : RuleOptions) (r : Repo w.tuf) → IsComplete w.tuf r → prepare w nv args r ≢ panic
  unfolding prepare choose_targets
  prepare-no_panic args r c =
      >>=-no_panic (map_err _ (trust_root_keys w nv args.trust_root)) _
        (map_err-no_panic _ (trust_root_keys w nv args.trust_root)
          (trust_root_keys-no_panic args.trust_root))
        (λ keys q.
          >>=-no_panic (map_err _ (validate_base_trust_data w.tuf r keys)) _
            (map_err-no_panic _ (validate_base_trust_data w.tuf r keys)
              (validate_base_trust_data-no_panic w.tuf r keys c))
            (λ u q.
              >>=-no_panic (has_delegations w.tuf r) _
                (has_delegations-no_panic r (c.roles targets))
                (λ has q.
                  if-no_panic (is_empty args.delegations && not has) _ _ (ok-no_panic canonical)
                    (if-no_panic (not has) _ _ (err-no_panic _) (ok-no_panic _)))))

  fall_back-no_panic :
      (img : Image) (r : Repo w.tuf) (ds : List Text) (e : Text)
      → Has w.tuf targets r
      → Has w.tuf snapshot r
      → fall_back w nv img r ds e ≢ panic
  fall_back-no_panic img r ds e t s =
      if-no_panic (contains e (lit "error acquiring trust data")) _ _
        (>>=-no_panic (has_delegation_hashes w.tuf r ds) _ (has_delegation_hashes-no_panic r ds s)
          (λ has q.
            if-no_panic (not has) _ _ (search-no_panic w.tuf img nv.name r targets_only (t, tt))
              (err-no_panic _)))
        (err-no_panic _)

  -- The call returns a value or an error.
  abbrev pub Returns : Option (Result Text) → Type 0
  Returns o = (r : Result Text) × (o ≡ some r) × (r ≢ panic)

  module _
      (arrives : (f : Text → TrustData w.tuf) (roles : List Text)
        → IsFetched w.tuf f roles (w.arrive f roles)
          × (length roles ≤ length (w.arrive f roles))) where
    received-some :
        (ds : List Text) (l : Loop w.tuf)
        → l ≢ blocks
        → (y : Result (Unit {0}) × Repo w.tuf) × (received w.tuf ds l ≡ some y)
    received-some ds blocks n = absurd (n refl)
    received-some ds (stops e r) n = (_, refl)
    received-some ds (ends r) n = (_, refl)

    of_started-some :
        (f : Text → TrustData w.tuf) (r : Repo w.tuf) (ds : List Text) (started : Result (Unit {0}))
        → (y : Result (Unit {0}) × Repo w.tuf) × (of_started w.tuf (w.arrive f) r ds started
            ≡ some y)
    of_started-some f r ds (ok u) =
        received-some ds (receive_all w.tuf (store_delegation w.tuf) (length ds) (w.arrive f ds) r)
          (receive_all-returns w.tuf (store_delegation w.tuf) (length ds) (w.arrive f ds) r
            (arrives f ds).1)
    of_started-some f r ds (err e) = (_, refl)
    of_started-some f r ds panic = (_, refl)

    download-some :
        (nc : NotaryClient) (args : RuleOptions) (base : Repo w.tuf)
        → (y : Result (Unit {0}) × Repo w.tuf) × (download_and_validate_delegations w.tuf
              (w.arrive (fetch w nv nc))
              base
              (asked args)
            ≡ some y)
    unfolding download_and_validate_delegations
    download-some nc args base =
        of_started-some (fetch w nv nc) base (asked args)
          (start_delegations w.tuf base (asked args))

    of_delegations-Returns :
        (nc : NotaryClient) (args : RuleOptions) (img : Image) (base r : Repo w.tuf)
        (x : Result (Unit {0}))
        → IsComplete w.tuf base
        → download_and_validate_delegations w.tuf (w.arrive (fetch w nv nc)) base (asked args)
          ≡ some (x, r)
        → Returns (of_delegations w nv img (asked args) (some (x, r)))
    of_delegations-Returns nc args img base r panic c q = absurd (
        download_and_validate_delegations-no_panic w.tuf (fetch w nv nc) (w.arrive (fetch w nv nc))
          (fetch-named w nv nc) (λ ds. (arrives (fetch w nv nc) ds).0) base r (asked args) panic
          (asked-IsDelegated args) (c.roles targets) (c.roles snapshot) q refl)
    of_delegations-Returns nc args img base r (err e) c q =
        let kept =
          download_and_validate_delegations-IsKept w.tuf (fetch w nv nc) (w.arrive (fetch w nv nc))
            (fetch-named w nv nc) (λ ds. (arrives (fetch w nv nc) ds).0) base r (asked args) (err e)
            (asked-IsDelegated args) q in
        (
          _,
          refl,
          fall_back-no_panic img r (asked args) e
              (IsKept-Has_targets w.tuf base r kept (c.roles targets))
              (IsKept-Has_snapshot w.tuf base r kept (c.roles snapshot)),
        )
    of_delegations-Returns nc args img base r (ok u) c q =
        let valid =
          download_and_validate_delegations-IsValid w.tuf (w.arrive (fetch w nv nc)) base r
            (asked args) u q in
        (
          _,
          refl,
          search-no_panic w.tuf img nv.name r (asked args) (
              In-All _ (asked args)
                (λ d m. let v = All-In (IsValid w.tuf r) d (asked args) valid m in (v.a, v.found))),
        )

    of_choice-Returns :
        (nc : NotaryClient) (args : RuleOptions) (img : Image) (base : Repo w.tuf)
        (c : Result Choice)
        → IsComplete w.tuf base
        → c ≢ panic
        → ((x : Choice) → c ≡ ok x → (x ≡ canonical) ⊎ (x ≡ delegated (asked args)))
        → Returns (of_choice w nv nc img base c)
    of_choice-Returns nc args img base (err e) c n cases = (err e, refl, err-no_panic e)
    of_choice-Returns nc args img base panic c n cases = absurd (n refl)
    of_choice-Returns nc args img base (ok x) c n cases = elim (cases x refl) [
      | inl e ↦
          subst (λ y. Returns (of_choice w nv nc img base (ok y))) (sym e)
            (_, refl, search-no_panic w.tuf img nv.name base targets_only (c.roles targets, tt))
      | inr e ↦
          subst (λ y. Returns (of_choice w nv nc img base (ok y))) (sym e)
            (let ((y, r), q) = download-some nc args base in
              subst (λ o. Returns (of_delegations w nv img (asked args) o)) (sym q)
                (of_delegations-Returns nc args img base r y c q))
    ]

    of_base-Returns :
        (nc : NotaryClient) (args : RuleOptions) (img : Image) (l : Loop w.tuf)
        → download_base_trust_data w nv nc ≡ l
        → Returns (of_base w nv nc args img l)
    unfolding download_base_trust_data
    of_base-Returns nc args img blocks q = absurd (
        receive_all-returns w.tuf (store_base w.tuf) (length base_names)
          (w.arrive (fetch w nv nc) base_names) (empty_repo w.tuf)
          (arrives (fetch w nv nc) base_names).1 q)
    of_base-Returns nc args img (stops e r) q = (_, refl, err-no_panic _)
    of_base-Returns nc args img (ends r) q =
        let complete =
          receive_all-IsComplete w.tuf (fetch w nv nc) (w.arrive (fetch w nv nc) base_names)
            (empty_repo w.tuf) r (fetch-named w nv nc) (arrives (fetch w nv nc) base_names).0 q in
        of_choice-Returns nc args img r (prepare w nv args r) complete
          (prepare-no_panic args r complete)
          (λ x h. elim (prepare-cases w nv args r x h) [ inl (e, _, _) ↦ inl e | inr e ↦ inr e ])

    of_client-Returns :
        (args : RuleOptions) (img : Image) (c : Result NotaryClient)
        → c ≢ panic
        → Returns (of_client w nv args img c)
    of_client-Returns args img (err e) n = (_, refl, err-no_panic _)
    of_client-Returns args img panic n = absurd (n refl)
    of_client-Returns args img (ok nc) n =
        of_base-Returns nc args img (download_base_trust_data w nv nc) refl

    -- Let the data of each role that is fetched arrive at most once, in any order, and each round of a
    -- loop see the data of a role or the cancelled context; and let the host be one that a registry can be
    -- made of. Then the validator returns a digest or an error: it neither waits for ever nor dereferences
    -- a nil pointer.
    pub validate_image-Returns :
        (args : RuleOptions) (img : Image) (rr : RegistryRepo)
        → new_registry_repo w.names nv.host ≡ ok rr
        → Returns (validate_image w nv args img)
    unfolding validate_image
    validate_image-Returns args img rr h =
        of_client-Returns args img (new_notary_client w.http w.names nv.host nv.cert nv.auth img)
          (new_notary_client-no_panic w.http w.names nv.host nv.cert nv.auth img rr h)
