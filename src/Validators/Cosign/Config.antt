-- ===== src/Validators/Cosign/Config.antt =====
-- internal/validator/cosignvalidator/cosign_validator.go: UnmarshalYAML. The fields that the YAML decoder
-- fills are an argument, and the parsers of keys and certificates are parameters.
use connaisseur.Prelude.{
  ◌≡◌, refl, sym, ap, subst, ◌⊎◌, inl, inr, true, false, Option, none, some, List, [], ◌∷◌, ◌++◌,
  arith, Text, lit, if◌then◌else◌, is_empty, guarded-ok, Result, ok, err, ◌>>=◌, >>=-eq-ok,
  ok-injective,
}
use connaisseur.Constants.{default_rekor_host}
use connaisseur.Utils.Strings.{string_default}
use connaisseur.Validators.TrustRoots.{TrustRoot}
use connaisseur.Validators.Auth.{Auth}
use connaisseur.Validators.Cosign.{Library, CosignValidator}

pub record CosignValidatorYaml : Type 0 where
  pub name : Text
  pub rekor : Text
  pub rekor_pubkey : Text
  pub fulcio_cert : Text
  pub ct_log_pubkey : Text
  pub cert : Text
  pub auth : Auth
  pub trust_roots : List TrustRoot

-- what is parsed only where it is given
abbrev pub optional : {A : Type 0} → (Text → Text) → (Text → A ⊎ Text) → Text → Result (Option A)
optional message parse [] = ok none
optional message parse (c ∷ s) = elim (parse (c ∷ s)) [
  | inl a ↦ ok (some a)
  | inr e ↦ err (message e)
]

module _ (lib : Library) where
  -- rekor.NewClient, AddTransparencyLogPubKey, and AppendCertsFromPEM, whose error has no text
  pub record Parsers : Type 0 where
    pub new_client : Text → lib.Rekor ⊎ Text
    pub add_log_key : Text → lib.Logs ⊎ Text
    pub append_certs : Text → lib.Certs ⊎ Text

  abbrev of_client : Text → lib.Rekor ⊎ Text → Result lib.Rekor
  of_client host (inl client) = ok client
  of_client host (inr e) =
      err (lit "unable to create Rekor client for " ++ (host ++ (lit ": " ++ e)))

  unfoldable pub unmarshal_yaml : Parsers → CosignValidatorYaml → Result (CosignValidator lib)
  unmarshal_yaml parsers y = do
    let host = string_default y.rekor default_rekor_host
    rekor ← of_client host (parsers.new_client host)
    rekor_pubkey ←
        optional (λ e. lit "error adding rekor public key: " ++ e) parsers.add_log_key
          y.rekor_pubkey
    _ ←
        if is_empty y.trust_roots
        then err (lit "no trust roots provided for validator " ++ y.name)
        else ok (tt {0})
    cert ←
        optional (λ e. lit "invalid certificate for validator " ++ y.name) parsers.append_certs
          y.cert
    fulcio_cert ←
        optional (λ e. lit "invalid fulcio certificate for validator " ++ y.name)
          parsers.append_certs y.fulcio_cert
    ct_log_pubkey ←
        optional (λ e. lit "error adding ct log public key: " ++ e) parsers.add_log_key
          y.ct_log_pubkey
    ok (record {
      name = y.name;
      rekor = rekor;
      rekor_pubkey = rekor_pubkey;
      fulcio_cert = fulcio_cert;
      ct_log_pubkey = ct_log_pubkey;
      cert = cert;
      auth = y.auth;
      trust_roots = y.trust_roots;
    })

  -- The text is empty and there is nothing, or it is not empty and what there is was parsed from it.
  abbrev pub IsOptional : {A : Type 0} → (Text → A ⊎ Text) → Text → Option A → Type 0
  IsOptional {A} parse t o =
      ((is_empty t ≡ true) × (o ≡ none))
      ⊎ ((is_empty t ≡ false) × (a : A) × (parse t ≡ inl a) × (o ≡ some a))

  optional-IsOptional :
      {A : Type 0} (message : Text → Text) (parse : Text → A ⊎ Text) (t : Text) (o : Option A)
      → optional message parse t ≡ ok o
      → IsOptional parse t o
  optional-IsOptional message parse [] o h = inl (refl, sym (ok-injective h))
  optional-IsOptional {A} message parse (c ∷ s) o h = of_call (parse (c ∷ s)) refl h
    where
      of_call :
          (x : A ⊎ Text)
          → parse (c ∷ s) ≡ x
          → elim x as (λ _. Result (Option A)) [ inl a ↦ ok (some a) | inr e ↦ err (message e) ]
            ≡ ok o
          → IsOptional parse (c ∷ s) o
      of_call (inl a) q k = inr (refl, a, q, sym (ok-injective k))
      of_call (inr e) q k = absurd (ground arith)

  of_client-ok :
      (host : Text) (c : lib.Rekor ⊎ Text) (rekor : lib.Rekor)
      → of_client host c ≡ ok rekor
      → c ≡ inl rekor
  of_client-ok host (inl r) rekor h = ap inl (ok-injective h)
  of_client-ok host (inr e) rekor h = absurd (ground arith)

  host-cases :
      (parsers : Parsers) (given : Text) (rekor : lib.Rekor)
      → parsers.new_client (string_default given default_rekor_host) ≡ inl rekor
      → ((is_empty given ≡ true) × (parsers.new_client default_rekor_host ≡ inl rekor))
        ⊎ ((is_empty given ≡ false) × (parsers.new_client given ≡ inl rekor))
  unfolding string_default
  host-cases parsers [] rekor h = inl (refl, h)
  host-cases parsers (c ∷ s) rekor h = inr (refl, h)

  -- The validator that the decoding leaves.
  pub record IsReady (parsers : Parsers) (y : CosignValidatorYaml) (cv : CosignValidator lib)
      : Type 0 where
    pub not_empty : is_empty cv.trust_roots ≡ false
    pub trust_roots : cv.trust_roots ≡ y.trust_roots
    pub auth : cv.auth ≡ y.auth
    pub rekor :
        ((is_empty y.rekor ≡ true) × (parsers.new_client default_rekor_host ≡ inl cv.rekor))
        ⊎ ((is_empty y.rekor ≡ false) × (parsers.new_client y.rekor ≡ inl cv.rekor))
    pub rekor_pubkey : IsOptional parsers.add_log_key y.rekor_pubkey cv.rekor_pubkey
    pub ct_log_pubkey : IsOptional parsers.add_log_key y.ct_log_pubkey cv.ct_log_pubkey
    pub fulcio_cert : IsOptional parsers.append_certs y.fulcio_cert cv.fulcio_cert
    pub cert : IsOptional parsers.append_certs y.cert cv.cert

  -- A Cosign validator that is decoded has its trust roots, one at least, and its credentials; its client
  -- is that of the Rekor host, or of the default host where none is given; and each key and certificate
  -- is there exactly where it is given, and was parsed from its own text.
  pub unmarshal_yaml-IsReady :
      (parsers : Parsers) (y : CosignValidatorYaml) (cv : CosignValidator lib)
      → unmarshal_yaml parsers y ≡ ok cv
      → IsReady parsers y cv
  unfolding unmarshal_yaml
  unmarshal_yaml-IsReady parsers y cv h =
      let host = string_default y.rekor default_rekor_host in
      let (r, h1, k1) = >>=-eq-ok (of_client host (parsers.new_client host)) _ h in
      let (rk, h2, k2) = >>=-eq-ok (optional _ parsers.add_log_key y.rekor_pubkey) _ k1 in
      let (u, h3, k3) = >>=-eq-ok (if is_empty y.trust_roots then _ else ok (tt {0})) _ k2 in
      let (c, h4, k4) = >>=-eq-ok (optional _ parsers.append_certs y.cert) _ k3 in
      let (f, h5, k5) = >>=-eq-ok (optional _ parsers.append_certs y.fulcio_cert) _ k4 in
      let (ct, h6, k6) = >>=-eq-ok (optional _ parsers.add_log_key y.ct_log_pubkey) _ k5 in
      subst (IsReady parsers y) (ok-injective k6) (record {
        not_empty = (guarded-ok (is_empty y.trust_roots) _ _ u h3).0;
        trust_roots = refl;
        auth = refl;
        rekor = host-cases parsers y.rekor r (of_client-ok host (parsers.new_client host) r h1);
        rekor_pubkey = optional-IsOptional _ parsers.add_log_key y.rekor_pubkey rk h2;
        ct_log_pubkey = optional-IsOptional _ parsers.add_log_key y.ct_log_pubkey ct h6;
        fulcio_cert = optional-IsOptional _ parsers.append_certs y.fulcio_cert f h5;
        cert = optional-IsOptional _ parsers.append_certs y.cert c h4;
      })
