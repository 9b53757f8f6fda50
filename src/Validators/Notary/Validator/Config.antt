-- ===== src/Validators/Notary/Validator/Config.antt =====
-- internal/validator/notaryv1/notaryv1_validator.go: UnmarshalYAML. The fields that the YAML decoder
-- fills are an argument; the parsers of URLs and certificates are parameters, of which only the error is
-- used.
use connaisseur.Prelude.{
  ◌≡◌, refl, sym, ap, subst, ◌∙◌, ◌⊎◌, inl, inr, Bool, true, false, not, ◌&&◌, Option, none, some,
  [], ◌∷◌, ◌++◌, arith, Text, lit, text_eq, text_eq_iff, has_prefix, to_lower, if◌then◌else◌,
  Bool-cases, length, is_empty, guarded-ok, unless-ok, Result, ok, err, ◌>>=◌, map_err, >>=-eq-ok,
  map_err-eq-ok, ok-injective,
}
use connaisseur.Constants.{default_notary_host, empty_auth_registry}
use connaisseur.Utils.Strings.{has_prefixes}
use connaisseur.Image.Registry.{NameChecks, RegistryRepo, new_registry_repo, to_string}
use connaisseur.Validators.Auth.{AuthEntry, AuthConfigs}
use connaisseur.Validators.Notary.{check}
use connaisseur.Validators.Notary.Validator.{NotaryV1Validator}

pub record Parsers : Type 0 where
  pub parse_request_uri : Text → Option Text
  pub append_certs : Text → Bool

-- https is used where no protocol is given
unfoldable pub with_scheme : Text → Text
with_scheme host =
    if has_prefixes (to_lower host) (lit "http://" ∷ lit "https://" ∷ [])
    then host
    else lit "https://" ++ host

unfoldable pub checked_host : Parsers → Text → Result Text
unfolding with_scheme
checked_host parsers host =
    if not (is_empty host)
    then (check (λ e. lit "invalid url for notary host: " ++ e)
          (parsers.parse_request_uri (with_scheme host))
        >>= λ _. ok (with_scheme host))
    else ok (lit "https://" ++ default_notary_host)

-- a single credential without a registry is one of the host
unfoldable pub registry_credential : NameChecks → Text → AuthConfigs → Result AuthConfigs
registry_credential names host [] = ok []
registry_credential names host ((k, v) ∷ []) =
    if text_eq k empty_auth_registry
    then (map_err (λ e. lit "unable to parse registry " ++ (host ++ (lit ": " ++ e)))
          (new_registry_repo names host)
        >>= λ rr. ok ((to_string rr, v) ∷ []))
    else ok ((k, v) ∷ [])
registry_credential names host (a ∷ b ∷ m) = ok (a ∷ b ∷ m)

unfoldable pub unmarshal_yaml : NameChecks → Parsers → NotaryV1Validator → Result NotaryV1Validator
unfolding checked_host registry_credential
unmarshal_yaml names parsers y =
    if is_empty y.trust_roots
    then err (lit "no trust roots provided for validator " ++ y.name)
    else (checked_host parsers y.host >>= λ host.
        registry_credential names host y.auth.auth_configs >>= λ configs.
        if not (is_empty y.cert) && not (parsers.append_certs y.cert)
        then err (lit "invalid certificate for validator " ++ y.name)
        else ok (record y { host = host; auth = record y.auth { auth_configs = configs } }))

-- A single credential without a registry has the one that the host was parsed to; all others are kept.
abbrev pub HasRegistry : NameChecks → Text → AuthConfigs → AuthConfigs → Type 0
HasRegistry names host given configs =
    ((v : AuthEntry) × (rr : RegistryRepo) × (given ≡ (empty_auth_registry, v) ∷ [])
      × (new_registry_repo names host ≡ ok rr)
      × (configs ≡ (to_string rr, v) ∷ []))
    ⊎ ((configs ≡ given) × ((v : AuthEntry) → ¬ (given ≡ (empty_auth_registry, v) ∷ [])))

abbrev key_of : Text → AuthConfigs → Text
key_of k [] = k
key_of k ((i, w) ∷ m) = i

cons-key : (k j : Text) (v u : AuthEntry) → Path AuthConfigs ((k, v) ∷ []) ((j, u) ∷ []) → k ≡ j
cons-key k j v u q = ap (key_of k) q

registry_credential-HasRegistry :
    (names : NameChecks) (host : Text) (given configs : AuthConfigs)
    → registry_credential names host given ≡ ok configs
    → HasRegistry names host given configs
unfolding registry_credential
registry_credential-HasRegistry names host [] configs h =
    inr (sym (ok-injective h), λ v q. absurd (omega (arith, ap length q)))
registry_credential-HasRegistry names host (a ∷ b ∷ m) configs h =
    inr (sym (ok-injective h), λ v q. absurd (omega (arith, ap length q)))
registry_credential-HasRegistry names host ((k, v) ∷ []) configs h =
    elim (Bool-cases (text_eq k empty_auth_registry)) [
      | inl e ↦
          let (rr, a, b) = >>=-eq-ok (map_err _ (new_registry_repo names host)) _ (rw e at h) in
          inl (
            v,
            rr,
            ap (λ t. (t, v) ∷ []) ((text_eq_iff k empty_auth_registry).0 e),
            map_err-eq-ok _ (new_registry_repo names host) a,
            sym (ok-injective b),
          )
      | inr e ↦ inr (
        sym (ok-injective (rw e at h)),
        λ u q.
            absurd (
              cc (e, (text_eq_iff k empty_auth_registry).1 (cons-key k empty_auth_registry v u q))),
      )
    ]

-- The host has a scheme, in upper or lower case, and what it was made of passed the parser of URLs.
abbrev pub HasScheme : Text → Type 0
HasScheme host = has_prefixes (to_lower host) (lit "http://" ∷ lit "https://" ∷ []) ≡ true

with_scheme-HasScheme : (host : Text) → HasScheme (with_scheme host)
unfolding with_scheme has_prefixes lit has_prefix to_lower
with_scheme-HasScheme host =
    elim (Bool-cases (has_prefixes (to_lower host) (lit "http://" ∷ lit "https://" ∷ []))) [
      | inl e ↦ rw e e
      | inr e ↦ rw e refl
    ]

-- The host of what was given: the default one, or the given one, with https where it has no scheme, which
-- passed the parser of URLs.
abbrev pub IsHostOf : Parsers → Text → Text → Type 0
IsHostOf parsers given host =
    ((is_empty given ≡ true) × (host ≡ lit "https://" ++ default_notary_host))
    ⊎ ((is_empty given ≡ false)
        × (parsers.parse_request_uri host ≡ none)
        × ((HasScheme given × (host ≡ given))
            ⊎ (¬ HasScheme given × (host ≡ lit "https://" ++ given))))

with_scheme-cases :
    (given : Text)
    → (HasScheme given × (with_scheme given ≡ given))
      ⊎ (¬ HasScheme given × (with_scheme given ≡ lit "https://" ++ given))
unfolding with_scheme
with_scheme-cases given =
    elim (Bool-cases (has_prefixes (to_lower given) (lit "http://" ∷ lit "https://" ∷ []))) [
      | inl e ↦ inl (e, rw e refl)
      | inr e ↦ inr (λ h. cc (e, h), rw e refl)
    ]

check-none :
    (message : Text → Text) (o : Option Text) (u : Unit {0}) → check message o ≡ ok u → o ≡ none
check-none message none u h = refl
check-none message (some e) u h = absurd (ground arith)

checked_host-IsHostOf :
    (parsers : Parsers) (given host : Text)
    → checked_host parsers given ≡ ok host
    → IsHostOf parsers given host
unfolding checked_host
checked_host-IsHostOf parsers given host h = elim (unless-ok (is_empty given) _ _ host h) [
  | inl (empty, e) ↦ inl (empty, sym (ok-injective e))
  | inr (full, k) ↦
      let (u, a, e) = >>=-eq-ok (check _ (parsers.parse_request_uri (with_scheme given))) _ k in
      let same : with_scheme given ≡ host = ok-injective e in
      inr (
        full,
        ap parsers.parse_request_uri (sym same)
            ∙ check-none _ (parsers.parse_request_uri (with_scheme given)) u a,
        elim (with_scheme-cases given) [
          | inl (s, q) ↦ inl (s, sym same ∙ q)
          | inr (s, q) ↦ inr (s, sym same ∙ q)
        ],
      )
]

checked_host-HasScheme :
    (parsers : Parsers) (given host : Text) → checked_host parsers given ≡ ok host → HasScheme host
unfolding checked_host lit has_prefixes has_prefix to_lower
checked_host-HasScheme parsers given host h = elim (unless-ok (is_empty given) _ _ host h) [
  | inl (_, e) ↦ subst HasScheme (ok-injective e) (with_scheme-HasScheme default_notary_host)
  | inr (_, k) ↦
      let (u, a, e) = >>=-eq-ok (check _ (parsers.parse_request_uri (with_scheme given))) _ k in
      subst HasScheme (ok-injective e) (with_scheme-HasScheme given)
]

-- The validator that is left by the decoding: it has trust roots, which are those that were given, its
-- host has a scheme, its certificate can be parsed, and its credentials are those that were given, or the
-- single one that had no registry under the key of the host's.
pub record IsConfigured (names : NameChecks) (parsers : Parsers) (given nv : NotaryV1Validator)
    : Type 0 where
  pub trust_roots : nv.trust_roots ≡ given.trust_roots
  pub not_empty : is_empty nv.trust_roots ≡ false
  pub scheme : HasScheme nv.host
  pub host : IsHostOf parsers given.host nv.host
  pub same_cert : nv.cert ≡ given.cert
  pub cert : (is_empty nv.cert ≡ true) ⊎ (parsers.append_certs nv.cert ≡ true)
  pub credentials : HasRegistry names nv.host given.auth.auth_configs nv.auth.auth_configs

-- Where the decoding succeeds, the validator has a trust root, those that were given; its host has the
-- scheme http or https, and is the one that was given and passed the parser of URLs, with https where it
-- had no scheme, or the default one where none was given; its certificate is empty or can be parsed; and its credentials are those that were
-- given, or the single one that had no registry, under the registry that its host was parsed to.
pub unmarshal_yaml-IsConfigured :
    (names : NameChecks) (parsers : Parsers) (given nv : NotaryV1Validator)
    → unmarshal_yaml names parsers given ≡ ok nv
    → IsConfigured names parsers given nv
unfolding unmarshal_yaml
unmarshal_yaml-IsConfigured names parsers given nv h =
    let (some_root, h1) = guarded-ok (is_empty given.trust_roots) _ _ nv h in
    let (host, a, h2) = >>=-eq-ok (checked_host parsers given.host) _ h1 in
    let (configs, b, h3) =
      >>=-eq-ok (registry_credential names host given.auth.auth_configs) _ h2 in
    let (cert, h4) =
      guarded-ok (not (is_empty given.cert) && not (parsers.append_certs given.cert)) _ _ nv h3 in
    subst (IsConfigured names parsers given) (ok-injective h4) (record {
      trust_roots = refl;
      not_empty = some_root;
      scheme = checked_host-HasScheme parsers given.host host a;
      host = checked_host-IsHostOf parsers given.host host a;
      same_cert = refl;
      cert = cert_parsed (is_empty given.cert) (parsers.append_certs given.cert) cert;
      credentials = registry_credential-HasRegistry names host given.auth.auth_configs configs b;
    })
  where
    cert_parsed : (a b : Bool) → (not a && not b) ≡ false → (a ≡ true) ⊎ (b ≡ true)
    cert_parsed true b q = inl refl
    cert_parsed false true q = inr refl
    cert_parsed false false q = absurd (ground arith)
