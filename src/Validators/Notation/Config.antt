-- ===== src/Validators/Notation/Config.antt =====
-- What a Notation validator has that is decoded.
use connaisseur.Validators.Notation.Stored.{IsStored, new_in_memory_trust_store-IsStored}
use connaisseur.Prelude.{
  ◌≡◌, refl, subst, ◌⊎◌, inl, inr, Bool, true, false, Option, none, some, arith, Text, lit,
  if◌then◌else◌, is_empty, guarded-ok, Result, ok, err, map_err, >>=-eq-ok, map_err-eq-ok,
  ok-injective,
}
use connaisseur.Validators.Notation.{
  NotationValidatorYaml, NotationValidator, unmarshal_yaml, InMemoryTrustStore, Library,
  new_in_memory_trust_store,
}

module _ (lib : Library) where
  -- What the decoding leaves: trust roots, a trust store made of them, and the certificate's pool.
  pub record IsDecoded (append_certs : Text → Option lib.Certs) (y : NotationValidatorYaml)
      (nv : NotationValidator lib) : Type 0 where
    pub not_empty : is_empty y.trust_roots ≡ false
    pub stored : IsStored lib y.trust_roots nv.trust_store
    pub root_ca :
        ((is_empty y.cert ≡ true) × (nv.root_ca ≡ none))
        ⊎ ((pool : lib.Certs) × (append_certs y.cert ≡ some pool) × (nv.root_ca ≡ some pool))

  -- A Notation validator that is decoded has a trust root; its trust store gives, for each trust root, a
  -- certificate, and one for timestamps where the trust root has one, and nothing but certificates that
  -- were parsed from a trust root of the name; and it has the pool of its certificate, if it has one.
  pub unmarshal_yaml-IsDecoded :
      (append_certs : Text → Option lib.Certs) (y : NotationValidatorYaml)
      (nv : NotationValidator lib)
      → unmarshal_yaml lib append_certs y ≡ ok nv
      → IsDecoded append_certs y nv
  unfolding unmarshal_yaml
  unmarshal_yaml-IsDecoded append_certs y nv h =
      let (some_root, h1) = guarded-ok (is_empty y.trust_roots) _ _ nv h in
      let (imts, a, h2) =
        >>=-eq-ok (map_err _ (new_in_memory_trust_store lib y.trust_roots)) _ h1 in
      let stored =
        new_in_memory_trust_store-IsStored lib y.trust_roots imts
          (map_err-eq-ok _ (new_in_memory_trust_store lib y.trust_roots) a) in
      of_cert imts stored some_root (is_empty y.cert) refl (append_certs y.cert) refl h2
    where
      of_cert :
          (imts : InMemoryTrustStore lib.Cert)
          → IsStored lib y.trust_roots imts
          → is_empty y.trust_roots ≡ false
          → (b : Bool) → is_empty y.cert ≡ b
          → (o : Option lib.Certs) → append_certs y.cert ≡ o
          → (if b
              then ok (record { name = y.name; auth = y.auth; root_ca = none; trust_store = imts })
              else elim o as (λ _. Result (NotationValidator lib)) [
                | none ↦ err (lit "failed to parse certificate")
                | some pool ↦ ok (record {
                  name = y.name;
                  auth = y.auth;
                  root_ca = some pool;
                  trust_store = imts;
                })
              ])
            ≡ ok nv
          → IsDecoded append_certs y nv
      of_cert imts stored given true e o q k =
          subst (IsDecoded append_certs y) (ok-injective k)
            (record { not_empty = given; stored = stored; root_ca = inl (e, refl) })
      of_cert imts stored given false e none q k = absurd (ground arith)
      of_cert imts stored given false e (some pool) q k =
          subst (IsDecoded append_certs y) (ok-injective k)
            (record { not_empty = given; stored = stored; root_ca = inr (pool, q, refl) })
