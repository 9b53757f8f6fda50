-- ===== src/Validators/Notary/Validator/Prepared.antt =====
-- The choice of the files, and what it is made on.
use connaisseur.Prelude.{
  ◌≡◌, refl, sym, ap, subst, ◌∙◌, ◌⊎◌, inl, inr, Bool, true, false, not, ◌&&◌, List, [], ◌∷◌, ◌++◌,
  map, arith, Text, lit, text_eq, text_eq_iff, has_prefix, if◌then◌else◌, Bool-cases, is_empty, In,
  ok, err, map_err, >>=-eq-ok, map_err-eq-ok, ok-injective,
}
use connaisseur.Policy.{RuleOptions}
use connaisseur.Validators.Notary.{Repo}
use connaisseur.Validators.Notary.Client.{NotaryClient, fetch_trust_data}
use connaisseur.Validators.Notary.Base.{validate_base_trust_data}
use connaisseur.Validators.Notary.Base.Checked.{IsTrusted, validate_base_trust_data-IsTrusted}
use connaisseur.Validators.Notary.Delegations.{has_delegations}
use connaisseur.Validators.Notary.Validator.{
  NotaryV1Validator, to_delegation_string, asked, listed, Choice, canonical, delegated, World,
  trust_root_keys, choose_targets, prepare, fetch,
}

to_delegation_string-IsDelegated :
    (s : Text) → text_eq (to_delegation_string s) (lit "targets") ≡ false
unfolding to_delegation_string has_prefix text_eq lit
to_delegation_string-IsDelegated s = elim (Bool-cases (has_prefix s (lit "targets/"))) [
  | inl e ↦ rw e (elim (Bool-cases (text_eq s (lit "targets"))) [
    | inl f ↦ absurd (
        ground (
          arith,
          ap (λ t. has_prefix t (lit "targets/")) (sym ((text_eq_iff s (lit "targets")).0 f)) ∙ e,
        ))
    | inr f ↦ f
  ])
  | inr e ↦ rw e refl
]

In-map :
    {A B : Type 0} (P : B → Type 0) (f : A → B) (xs : List A)
    → ((a : A) → P (f a))
    → (b : B) → In b (map f xs)
    → P b
In-map P f [] h b m = absurd m
In-map P f (x ∷ xs) h b (inl e) = subst P (sym e) (h x)
In-map P f (x ∷ xs) h b (inr m) = In-map P f xs h b m

pub asked-IsDelegated :
    (args : RuleOptions) (d : Text) → In d (asked args) → text_eq d (lit "targets") ≡ false
asked-IsDelegated args d m = elim (Bool-cases (is_empty args.delegations)) [
  | inl e ↦ elim (rw e at m) [
    | inl same ↦
        ap (λ t. text_eq t (lit "targets")) same ∙ to_delegation_string-IsDelegated (lit "releases")
    | inr n ↦ absurd n
  ]
  | inr e ↦
      In-map (λ t. text_eq t (lit "targets") ≡ false) to_delegation_string args.delegations
        to_delegation_string-IsDelegated d (rw e at m)
]

pub fetch-named :
    (w : World) (nv : NotaryV1Validator) (nc : NotaryClient) (role : Text)
    → (fetch w nv nc role).role ≡ role
unfolding fetch_trust_data
fetch-named w nv nc role = refl

module _ (w : World) (nv : NotaryV1Validator) (args : RuleOptions) where
  choose_targets-cases :
      (r : Repo w.tuf) (c : Choice)
      → choose_targets w nv args r ≡ ok c
      → ((c ≡ canonical)
          × (is_empty args.delegations ≡ true)
          × (has_delegations w.tuf r ≡ ok false))
        ⊎ (c ≡ delegated (asked args))
  unfolding choose_targets
  choose_targets-cases r c h =
      let (has, a, k) = >>=-eq-ok (has_delegations w.tuf r) _ h in
      of_tests (is_empty args.delegations) has k a refl
    where
      of_tests :
          (b has : Bool)
          → (if b && not has
              then ok canonical
              else if not has
              then err (
                  lit "no delegations found for validator "
                  ++ (nv.name ++ (lit ", but following were required: " ++ listed args.required)))
              else ok (delegated (asked args)))
            ≡ ok c
          → has_delegations w.tuf r ≡ ok has
          → is_empty args.delegations ≡ b
          → ((c ≡ canonical)
              × (is_empty args.delegations ≡ true)
              × (has_delegations w.tuf r ≡ ok false))
            ⊎ (c ≡ delegated (asked args))
      of_tests true false k a e = inl (sym (ok-injective k), e, a)
      of_tests false false k a e = absurd (ground arith)
      of_tests true true k a e = inr (sym (ok-injective k))
      of_tests false true k a e = inr (sym (ok-injective k))

  -- What the choice of the files is made on: the keys of the trust root vouch for the base roles.
  pub record IsPrepared (r : Repo w.tuf) (c : Choice) : Type 0 where
    pub keys : List w.tuf.PublicKey
    pub loaded : trust_root_keys w nv args.trust_root ≡ ok keys
    pub trusted : IsTrusted w.tuf r keys
    pub chosen : choose_targets w nv args r ≡ ok c

  pub prepare-IsPrepared :
      (r : Repo w.tuf) (c : Choice) → prepare w nv args r ≡ ok c → IsPrepared r c
  unfolding prepare
  prepare-IsPrepared r c h =
      let (keys, a, k) = >>=-eq-ok (map_err _ (trust_root_keys w nv args.trust_root)) _ h in
      let (u, b, chosen) = >>=-eq-ok (map_err _ (validate_base_trust_data w.tuf r keys)) _ k in
      record {
        keys = keys;
        loaded = map_err-eq-ok _ (trust_root_keys w nv args.trust_root) a;
        trusted =
            validate_base_trust_data-IsTrusted w.tuf r keys
              (map_err-eq-ok _ (validate_base_trust_data w.tuf r keys) b);
        chosen = chosen;
      }

  -- The targets role is chosen only where no delegation is asked for and none is there.
  pub prepare-cases :
      (r : Repo w.tuf) (c : Choice)
      → prepare w nv args r ≡ ok c
      → ((c ≡ canonical)
          × (is_empty args.delegations ≡ true)
          × (has_delegations w.tuf r ≡ ok false))
        ⊎ (c ≡ delegated (asked args))
  prepare-cases r c h = choose_targets-cases r c (prepare-IsPrepared r c h).chosen
