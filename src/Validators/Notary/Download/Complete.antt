-- ===== src/Validators/Notary/Download/Complete.antt =====
-- The base trust data are complete once the loop of DownloadBaseTrustData has ended.
use connaisseur.Validators.Notary.Download.Grows.{
  Has, HasBytes, store_base-Grows, with_checksum-Has, parse_base-Has, store_base-IsStored,
}
use connaisseur.Prelude.{◌≡◌, refl, ap, subst, ◌∙◌, inl, inr, List, Text, length, In}
use connaisseur.Validators.Notary.{
  Arrival, base_names, Role, root, targets, snapshot, timestamp, role_name, Tuf, Repo, TrustData,
}
use connaisseur.Validators.Notary.Calls.{find_at-set_at}
use connaisseur.Validators.Notary.Download.Rounds.{receive_all-Puts}
use connaisseur.Validators.Notary.Download.{ends, receive_all, IsFetched, parse_base, store_base}

module _ (tuf : Tuf) where
  -- What the data of the role put: its part of the repository, and its bytes.
  abbrev Puts : Text → Repo tuf → Type 0
  Puts name r = ((role : Role) → role_name role ≡ name → Has tuf role r) × HasBytes tuf name r

  store_base-Puts :
      (t : TrustData tuf) (r r' : Repo tuf) → store_base tuf t r ≡ inl r' → Puts t.role r'
  store_base-Puts t r r' h =
      let i = store_base-IsStored tuf t r r' h in
      subst (Puts t.role) i.left (
        λ role e. with_checksum-Has tuf t role i.raw i.parsed (
            parse_base-Has tuf role i.signed r i.parsed
              (ap (λ name. parse_base tuf name i.signed r) e ∙ i.parse)),
        (i.raw, find_at-set_at i.parsed.not_checked_checksums t.role i.raw),
      )

  -- Every base role has its data and its bytes.
  pub record IsComplete (r : Repo tuf) : Type 0 where
    pub roles : (role : Role) → Has tuf role r
    pub bytes : (role : Role) → HasBytes tuf (role_name role) r

  role_name-In : (role : Role) → In (role_name role) base_names
  role_name-In root = inl refl
  role_name-In targets = inr (inl refl)
  role_name-In snapshot = inr (inr (inl refl))
  role_name-In timestamp = inr (inr (inr (inl refl)))

  -- Let each base role be fetched once, in whatever order the data arrive. Where the loop over the base
  -- roles ends without an error, the root, the targets, the snapshot and the timestamp are all there, each
  -- with its bytes.
  pub receive_all-IsComplete :
      (fetch : Text → TrustData tuf) (arrivals : List (Arrival tuf)) (r r' : Repo tuf)
      → ((name : Text) → (fetch name).role ≡ name)
      → IsFetched tuf fetch base_names arrivals
      → receive_all tuf (store_base tuf) (length base_names) arrivals r ≡ ends r'
      → IsComplete r'
  receive_all-IsComplete fetch arrivals r r' named fetched h =
      let put =
        receive_all-Puts tuf (store_base tuf) fetch Puts
          (λ name other s s' k p.
            let g = store_base-Grows tuf (fetch other) s s' k in
            (λ role e. g.roles role (p.0 role e), g.bytes name p.1))
          (λ name s s' k. subst (λ n. Puts n s') (named name) (store_base-Puts (fetch name) s s' k))
          (length base_names) base_names arrivals r r' fetched refl h in
      record {
        roles = λ role. (put (role_name role) (role_name-In role)).0 role refl;
        bytes = λ role. (put (role_name role) (role_name-In role)).1;
      }
