-- ===== src/Image/Registry.antt =====
-- internal/image/registry.go: registry and repository of a credential's key. The two parsers are a
-- library's, and parameters here.
use connaisseur.Prelude.{
  String, ℕ, zero, suc, ◌≡◌, refl, sym, ap, subst, ◌∙◌, ◌≢◌, ◌⊎◌, inl, inr, Bool, true, false, ◌&&◌,
  Option, none, some, [], ◌∷◌, ◌++◌, arith, Text, lit, text_eq, text_eq_iff, has_prefix,
  trim_prefix, has_suffix, trim_suffix, index, ◌==◌, if◌then◌else◌, Bool-cases, Option-cases,
  length, take, drop, is_empty, Result, ok, err, ◌>>=◌, >>=-eq-ok, ok-injective, has_prefix-append,
  has_prefix-eq, index-parts, has_suffix-eq, has_suffix-append,
}
use connaisseur.Constants.{empty_auth_registry}
use connaisseur.Utils.Strings.{has_prefixes, trim_prefixes}

pub record RegistryRepo : Type 0 where
  pub original : Text
  pub registry : Text
  pub repo : Text

-- name.NewRegistry and name.NewRepository, of which only the error is used
pub record NameChecks : Type 0 where
  pub new_registry : Text → Option Text
  pub new_repository : Text → Option Text

unfoldable pub strip_host : Text → Text
strip_host s =
    let t = trim_prefixes s (lit "https://" ∷ lit "http://" ∷ []) in
    if has_prefixes t (lit "index.docker.io" ∷ lit "docker.io" ∷ []) && has_suffix t (lit "/v1/")
    then trim_suffix t (lit "/v1/")
    else t

unfoldable pub cut_at_slash : Text → Text × Text
cut_at_slash s = elim (index s b'/') [ none ↦ (s, []) | some i ↦ (take i s, drop (suc i) s) ]

abbrev checked : String → Text → Option Text → Result (Unit {0})
checked what s none = ok tt
checked what s (some e) =
    err (lit "unable to parse " ++ (lit what ++ (lit " " ++ (s ++ (lit ": " ++ e)))))

unfoldable pub new_registry_repo : NameChecks → Text → Result RegistryRepo
new_registry_repo names s =
    if text_eq s empty_auth_registry
    then ok (record { original = s; registry = s; repo = [] })
    else do
      let (registry, repo) = cut_at_slash (strip_host s)
      _ ← checked "registry" registry (names.new_registry registry)
      _ ← if is_empty repo then ok tt else checked "repository" repo (names.new_repository repo)
      ok (record { original = s; registry = registry; repo = repo })

-- String()
unfoldable pub to_string : RegistryRepo → Text
to_string r = if is_empty r.repo then r.registry else r.registry ++ (lit "/" ++ r.repo)

cut_at_slash-none : (s : Text) → index s b'/' ≡ none → cut_at_slash s ≡ (s, [])
unfolding cut_at_slash
cut_at_slash-none s e = ground arith

cut_at_slash-some :
    (s : Text) (i : ℕ) → index s b'/' ≡ some i → cut_at_slash s ≡ (take i s, drop (suc i) s)
unfolding cut_at_slash
cut_at_slash-some s i e = ground arith

cut_at_slash-join :
    (orig s : Text)
    → let (registry, repo) = cut_at_slash s in
      let joined = to_string (record { original = orig; registry = registry; repo = repo }) in
      (joined ≡ s) ⊎ (joined ++ lit "/" ≡ s)
unfolding to_string lit
cut_at_slash-join orig s = elim (Option-cases (index s b'/')) [
  | inl e ↦ rw (cut_at_slash-none s e) (inl refl)
  | inr (i, e) ↦
      rw (cut_at_slash-some s i e) (go (take i s) (drop (suc i) s) (index-parts s b'/' i e))
]
  where
    go :
        (p r : Text)
        → p ++ b'/' ∷ r ≡ s
        → ((if is_empty r then p else p ++ b'/' ∷ r) ≡ s)
          ⊎ ((if is_empty r then p else p ++ b'/' ∷ r) ++ b'/' ∷ [] ≡ s)
    go p [] q = inr q
    go p (c ∷ r) q = inl q

-- A prefix is taken off where it is there.
abbrev pub IsTrimmed : Text → Text → Text → Type 0
IsTrimmed p s t = (s ≡ p ++ t) ⊎ ((t ≡ s) × ((u : Text) → s ≢ p ++ u))

abbrev pub IsHub : Text → Type 0
IsHub s =
    ((u : Text) × (s ≡ lit "index.docker.io" ++ u)) ⊎ ((u : Text) × (s ≡ lit "docker.io" ++ u))

-- The scheme is taken off, and then "/v1/" at the end of a text that begins with Docker Hub's name.
abbrev pub IsStripped : Text → Text → Type 0
IsStripped s t =
    (a : Text) × IsTrimmed (lit "https://") s a
    × (b : Text) × IsTrimmed (lit "http://") a b
    × ((IsHub b × (b ≡ t ++ lit "/v1/"))
        ⊎ ((t ≡ b) × ¬ (IsHub b × (u : Text) × (b ≡ u ++ lit "/v1/"))))

trim_prefix-IsTrimmed : (s p : Text) → IsTrimmed p s (trim_prefix s p)
unfolding trim_prefix
trim_prefix-IsTrimmed s p = elim (Bool-cases (has_prefix s p)) [
  | inl e ↦ inl (has_prefix-eq s p e ∙ ap (λ t. p ++ t) (sym (rw e refl)))
  | inr e ↦ inr (rw e refl, λ u q. cc (e, ap (λ t. has_prefix t p) q ∙ has_prefix-append p u))
]

has_prefixes-IsHub :
    (s : Text) → has_prefixes s (lit "index.docker.io" ∷ lit "docker.io" ∷ []) ≡ true → IsHub s
unfolding has_prefixes
has_prefixes-IsHub s h = elim (Bool-cases (has_prefix s (lit "index.docker.io"))) [
  | inl e ↦ inl (drop (length (lit "index.docker.io")) s, has_prefix-eq s (lit "index.docker.io") e)
  | inr e ↦
      inr (
        drop (length (lit "docker.io")) s,
        has_prefix-eq s (lit "docker.io") (ground (arith, e, h)),
      )
]

IsHub-has_prefixes :
    (s : Text) → IsHub s → has_prefixes s (lit "index.docker.io" ∷ lit "docker.io" ∷ []) ≡ true
unfolding has_prefixes
IsHub-has_prefixes s (inl (u, q)) =
    rw
      (ap (λ t. has_prefix t (lit "index.docker.io")) q
        ∙ has_prefix-append (lit "index.docker.io") u)
      refl
IsHub-has_prefixes s (inr (u, q)) =
    let hub : has_prefix s (lit "docker.io") ≡ true =
      ap (λ t. has_prefix t (lit "docker.io")) q ∙ has_prefix-append (lit "docker.io") u in
    ground arith

strip_host-IsStripped : (s : Text) → IsStripped s (strip_host s)
unfolding strip_host trim_prefixes
strip_host-IsStripped s =
    let a = trim_prefix s (lit "https://") in
    let b = trim_prefix a (lit "http://") in
    (
      a,
      trim_prefix-IsTrimmed s (lit "https://"),
      b,
      trim_prefix-IsTrimmed a (lit "http://"),
      of_tests b,
    )
  where
    of_tests :
        (b : Text)
        → (let t =
              if has_prefixes b (lit "index.docker.io" ∷ lit "docker.io" ∷ [])
                && has_suffix b (lit "/v1/")
              then trim_suffix b (lit "/v1/")
              else b in
            (IsHub b × (b ≡ t ++ lit "/v1/"))
            ⊎ ((t ≡ b) × ¬ (IsHub b × (u : Text) × (b ≡ u ++ lit "/v1/"))))
    of_tests b = elim (Bool-cases (has_prefixes b (lit "index.docker.io" ∷ lit "docker.io" ∷ []))) [
      | inr e ↦ inr (rw e refl, λ (hub, u, q). cc (e, IsHub-has_prefixes b hub))
      | inl e ↦ elim (Bool-cases (has_suffix b (lit "/v1/"))) [
        | inl d ↦ rw (e, d) (inl (has_prefixes-IsHub b e, has_suffix-eq b (lit "/v1/") d))
        | inr d ↦ inr (
          rw (e, d) refl,
          λ (hub, u, q).
              cc (d, ap (λ t. has_suffix t (lit "/v1/")) q ∙ has_suffix-append u (lit "/v1/")),
        )
      ]
    ]

index-take : (s : Text) (c i : ℕ) → index s c ≡ some i → index (take i s) c ≡ none
unfolding index
index-take [] c i h = absurd (ground arith)
index-take (d ∷ s) c zero h = refl
index-take (d ∷ s) c (suc i) h = elim (Bool-cases (d == c)) [
  | inl e ↦ absurd (ground (arith, e, h))
  | inr e ↦ elim (Option-cases (index s c)) [
    | inl n ↦ absurd (ground (arith, e, n, h))
    | inr (j, q) ↦
        let same : j ≡ i = ground (arith, e, q, h) in
        rw (e, index-take s c i (q ∙ ap some same)) refl
  ]
]

cut_at_slash-registry : (s : Text) → index (cut_at_slash s).0 b'/' ≡ none
cut_at_slash-registry s = elim (Option-cases (index s b'/')) [
  | inl e ↦ rw (cut_at_slash-none s e) e
  | inr (i, e) ↦ rw (cut_at_slash-some s i e) (index-take s b'/' i e)
]

checked-none :
    (what : String) (s : Text) (o : Option Text) (u : Unit {0}) → checked what s o ≡ ok u → o ≡ none
checked-none what s none u h = refl
checked-none what s (some e) u h = absurd (ground arith)

unless_empty :
    (b : Bool) (x : Result (Unit {0})) (u : Unit {0})
    → (if b then ok tt else x) ≡ ok u
    → (b ≡ true) ⊎ (x ≡ ok u)
unless_empty true x u h = inl refl
unless_empty false x u h = inr h

-- The registry ends before the first slash, and the library's checks accept it and the repository.
pub record IsParsed (names : NameChecks) (r : RegistryRepo) : Type 0 where
  pub no_slash : index r.registry b'/' ≡ none
  pub registry : names.new_registry r.registry ≡ none
  pub repository : (is_empty r.repo ≡ true) ⊎ (names.new_repository r.repo ≡ none)

new_registry_repo-IsParsed :
    (names : NameChecks) (s : Text) (r : RegistryRepo)
    → s ≢ empty_auth_registry
    → new_registry_repo names s ≡ ok r
    → (record {
      original = s;
      registry = (cut_at_slash (strip_host s)).0;
      repo = (cut_at_slash (strip_host s)).1;
    }
        ≡ r)
      × IsParsed names r
unfolding new_registry_repo
new_registry_repo-IsParsed names s r n h =
    let other : text_eq s empty_auth_registry ≡ false =
      ground (arith, text_eq_iff s empty_auth_registry) in
    let parts = cut_at_slash (strip_host s) in
    let (u, a, k) =
      >>=-eq-ok (checked "registry" parts.0 (names.new_registry parts.0)) _ (rw other at h) in
    let (v, b, made) =
      >>=-eq-ok
        (if is_empty parts.1
          then ok tt
          else checked "repository" parts.1 (names.new_repository parts.1))
        _ k in
    (
      ok-injective made,
      subst (IsParsed names) (ok-injective made) (record {
        no_slash = cut_at_slash-registry (strip_host s);
        registry = checked-none "registry" parts.0 (names.new_registry parts.0) u a;
        repository = elim (unless_empty (is_empty parts.1) _ v b) [
          | inl e ↦ inl e
          | inr q ↦ inr (checked-none "repository" parts.1 (names.new_repository parts.1) v q)
        ];
      }),
    )

-- The key of a credential that is read from a file: on success, for any text but the placeholder for no
-- registry, the registry has no slash, the library accepts it and the repository, and the key is the text without its scheme and, where it then begins with the name of Docker Hub,
-- without "/v1/" at its end, but for a slash at the end.
pub to_string-new_registry_repo :
    (names : NameChecks) (s : Text) {r : RegistryRepo}
    → s ≢ empty_auth_registry
    → new_registry_repo names s ≡ ok r
    → (r.original ≡ s)
      × IsParsed names r
      × (stripped : Text) × IsStripped s stripped
      × ((to_string r ≡ stripped) ⊎ (to_string r ++ lit "/" ≡ stripped))
unfolding new_registry_repo
to_string-new_registry_repo names s {r} n h =
    let (same, parsed) = new_registry_repo-IsParsed names s r n h in
    let (stripped, its, key) =
      subst
        (λ q.
          (stripped : Text) × IsStripped s stripped
          × ((to_string q ≡ stripped) ⊎ (to_string q ++ lit "/" ≡ stripped)))
        same (strip_host s, strip_host-IsStripped s, cut_at_slash-join s (strip_host s)) in
    (sym (ap (λ (q : RegistryRepo). q.original) same), parsed, stripped, its, key)
