-- ===== src/Validators/Notation/Stored.antt =====
-- The trust store has the certificates of the trust roots that it was made of.
use connaisseur.Validators.Notation.Keys.{same_key-eq, find_cert-set_cert, find_cert-set_cert_other}
use connaisseur.Prelude.{
  ◌≡◌, refl, sym, ap, subst, ◌∙◌, ◌⊎◌, inl, inr, true, false, List, [], ◌∷◌, ◌++◌, arith, Text,
  Bool-cases, is_empty, In, In-append_left, In-append_right, In-append_cases, guarded-ok, unless-ok,
  ok, >>=-eq-ok, map_err-eq-ok, ok-injective,
}
use mathlib.Core.List.{append_assoc, append-nil}
use connaisseur.Validators.TrustRoots.{TrustRoot}
use connaisseur.Validators.Notation.{
  StoreType, ca, tsa, CertsOf, InMemoryTrustStore, Library, same_key, set_cert, find_cert,
  get_certificates, parse_pem, parsed, add_root, add_roots, new_in_memory_trust_store,
}

module _ (lib : Library) where
  -- The certificate's text of a trust root, by the type of the store.
  abbrev pub text_of : StoreType → TrustRoot → Text
  text_of ca tr = tr.cert
  text_of tsa tr = tr.ts_cert

  -- The certificate that is found is parsed from a trust root of the list with the name.
  abbrev pub IsParsed : List TrustRoot → StoreType → Text → lib.Cert → Type 0
  IsParsed trs t n c =
      (tr : TrustRoot) × In tr trs
      × (tr.name ≡ n)
      × (parse_pem lib (lib.decode_pem (text_of t tr)) ≡ ok c)

  abbrev IsFound : CertsOf lib.Cert → StoreType → Text → Type 0
  IsFound certs t n = (c : lib.Cert) × (find_cert certs t n ≡ ok c)

  record Holds (certs : CertsOf lib.Cert) (done : List TrustRoot) : Type 0 where
    there : (tr : TrustRoot) → In tr done → IsFound certs ca tr.name
    stamped :
        (tr : TrustRoot) → In tr done → is_empty tr.ts_cert ≡ false → IsFound certs tsa tr.name
    from :
        (t : StoreType) (n : Text) (c : lib.Cert) → find_cert certs t n ≡ ok c → IsParsed done t n c

  set_cert-IsFound :
      (certs : CertsOf lib.Cert) (n n' : Text) (t t' : StoreType) (c : lib.Cert)
      → IsFound certs t' n'
      → IsFound (set_cert certs (n, t) c) t' n'
  set_cert-IsFound certs n n' t t' c (d, q) = elim (Bool-cases (same_key (n, t) (n', t'))) [
    | inl e ↦ (
      c,
      subst (λ (k : Text × StoreType). find_cert (set_cert certs (n, t) c) (k.1) (k.0) ≡ ok c)
          (same_key-eq (n, t) (n', t') e) (find_cert-set_cert certs n t c),
    )
    | inr e ↦ (d, find_cert-set_cert_other certs n n' t t' c e ∙ q)
  ]

  set_cert-IsParsed :
      (certs : CertsOf lib.Cert) (done : List TrustRoot) (tr : TrustRoot) (t : StoreType)
      (c : lib.Cert)
      → parse_pem lib (lib.decode_pem (text_of t tr)) ≡ ok c
      → In tr done
      → ((u : StoreType) (n : Text) (d : lib.Cert)
          → find_cert certs u n ≡ ok d
          → IsParsed done u n d)
      → (u : StoreType) (n : Text) (d : lib.Cert)
      → find_cert (set_cert certs (tr.name, t) c) u n ≡ ok d
      → IsParsed done u n d
  set_cert-IsParsed certs done tr t c parse listed from u n d h =
      elim (Bool-cases (same_key (tr.name, t) (n, u))) [
        | inr e ↦ from u n d (sym (find_cert-set_cert_other certs tr.name n t u c e) ∙ h)
        | inl e ↦
            let same = same_key-eq (tr.name, t) (n, u) e in
            let found =
              subst
                (λ (k : Text × StoreType).
                  find_cert (set_cert certs (tr.name, t) c) (k.1) (k.0) ≡ ok c)
                same (find_cert-set_cert certs tr.name t c) in
            (
              tr,
              listed,
              ap (λ (k : Text × StoreType). k.0) same,
              ap (λ (k : Text × StoreType). parse_pem lib (lib.decode_pem (text_of (k.1) tr)))
                    (sym same)
                  ∙ (parse ∙ (sym found ∙ h)),
            )
      ]

  abbrev snoc : List TrustRoot → TrustRoot → List TrustRoot
  snoc done tr = done ++ tr ∷ []

  In-snoc_cases :
      (x tr : TrustRoot) (done : List TrustRoot) → In x (snoc done tr) → In x done ⊎ (x ≡ tr)
  In-snoc_cases x tr done m = elim (In-append_cases x done (tr ∷ []) m) [
    | inl a ↦ inl a
    | inr (inl e) ↦ inr e
    | inr (inr n) ↦ absurd n
  ]

  widen :
      (done : List TrustRoot) (tr : TrustRoot) (t : StoreType) (n : Text) (c : lib.Cert)
      → IsParsed done t n c
      → IsParsed (snoc done tr) t n c
  widen done tr t n c (x, m, e, q) = (x, In-append_left x done (tr ∷ []) m, e, q)

  -- The certificates after one trust root.
  abbrev Stores : CertsOf lib.Cert → TrustRoot → CertsOf lib.Cert → Type 0
  Stores certs tr after =
      (c : lib.Cert) × (parse_pem lib (lib.decode_pem tr.cert) ≡ ok c)
      × (((is_empty tr.ts_cert ≡ true) × (after ≡ set_cert certs (tr.name, ca) c))
          ⊎ ((d : lib.Cert) × (parse_pem lib (lib.decode_pem tr.ts_cert) ≡ ok d)
              × (after ≡ set_cert (set_cert certs (tr.name, ca) c) (tr.name, tsa) d)))

  add_root-Stores :
      (certs after : CertsOf lib.Cert) (tr : TrustRoot)
      → add_root lib certs tr ≡ ok after
      → Stores certs tr after
  unfolding add_root
  add_root-Stores certs after tr h =
      let (given, h1) = guarded-ok (is_empty tr.cert) _ _ after h in
      let (c, a, h2) =
        >>=-eq-ok (parsed lib "failed to parse certificate for trust root " tr tr.cert) _ h1 in
      let parse = map_err-eq-ok _ (parse_pem lib (lib.decode_pem tr.cert)) a in
      elim (unless-ok (is_empty tr.ts_cert) _ _ after h2) [
        | inl (e, k) ↦ (c, parse, inl (e, sym (ok-injective k)))
        | inr (e, k) ↦
            let (d, b, k2) =
              >>=-eq-ok
                (parsed lib "failed to parse timestamp certificate for trust root " tr tr.ts_cert) _
                k in
            (
              c,
              parse,
              inr (
                d,
                map_err-eq-ok _ (parse_pem lib (lib.decode_pem tr.ts_cert)) b,
                sym (ok-injective k2),
              ),
            )
      ]

  set_ca-Holds :
      (certs : CertsOf lib.Cert) (done : List TrustRoot) (tr : TrustRoot) (c : lib.Cert)
      → Holds certs done
      → parse_pem lib (lib.decode_pem tr.cert) ≡ ok c
      → let after = set_cert certs (tr.name, ca) c in
        ((x : TrustRoot) → In x (snoc done tr) → IsFound after ca x.name)
        × ((u : StoreType) (n : Text) (d : lib.Cert)
            → find_cert after u n ≡ ok d
            → IsParsed (snoc done tr) u n d)
  set_ca-Holds certs done tr c i parse = (
    λ x m. elim (In-snoc_cases x tr done m) [
      | inl old ↦ set_cert-IsFound certs tr.name x.name ca ca c (i.there x old)
      | inr new ↦
          subst (λ n. IsFound (set_cert certs (tr.name, ca) c) ca n)
            (ap (λ (y : TrustRoot). y.name) (sym new)) (c, find_cert-set_cert certs tr.name ca c)
    ],
    set_cert-IsParsed certs (snoc done tr) tr ca c parse
        (In-append_right tr done (tr ∷ []) (inl refl))
        (λ u n d h. widen done tr u n d (i.from u n d h)),
  )

  Stores-Holds :
      (certs after : CertsOf lib.Cert) (done : List TrustRoot) (tr : TrustRoot)
      → Holds certs done
      → Stores certs tr after
      → Holds after (snoc done tr)
  Stores-Holds certs after done tr i (c, parse, inl (e, q)) =
      let (there, from) = set_ca-Holds certs done tr c i parse in
      subst (λ m. Holds m (snoc done tr)) (sym q)
        (record {
          there = there;
          stamped = λ x m given. elim (In-snoc_cases x tr done m) [
            | inl old ↦ set_cert-IsFound certs tr.name x.name ca tsa c (i.stamped x old given)
            | inr new ↦
                absurd
                  (ground (arith, sym given ∙ (ap (λ (y : TrustRoot). is_empty y.ts_cert) new ∙ e)))
          ];
          from = from;
        })
  Stores-Holds certs after done tr i (c, parse, inr (d, stamp, q)) =
      let (there, from) = set_ca-Holds certs done tr c i parse in
      let first = set_cert certs (tr.name, ca) c in
      subst (λ m. Holds m (snoc done tr)) (sym q)
        (record {
          there = λ x m. set_cert-IsFound first tr.name x.name tsa ca d (there x m);
          stamped = λ x m given. elim (In-snoc_cases x tr done m) [
            | inl old ↦
                set_cert-IsFound first tr.name x.name tsa tsa d
                  (set_cert-IsFound certs tr.name x.name ca tsa c (i.stamped x old given))
            | inr new ↦
                subst (λ n. IsFound (set_cert first (tr.name, tsa) d) tsa n)
                  (ap (λ (y : TrustRoot). y.name) (sym new))
                  (d, find_cert-set_cert first tr.name tsa d)
          ];
          from =
              set_cert-IsParsed first (snoc done tr) tr tsa d stamp
                (In-append_right tr done (tr ∷ []) (inl refl)) from;
        })

  add_roots-Holds :
      (trs done : List TrustRoot) (certs after : CertsOf lib.Cert)
      → Holds certs done
      → add_roots lib certs trs ≡ ok after
      → Holds after (done ++ trs)
  unfolding add_roots
  add_roots-Holds [] done certs after i h =
      subst (Holds after) (sym (append-nil done)) (subst (λ m. Holds m done) (ok-injective h) i)
  add_roots-Holds (tr ∷ trs) done certs after i h =
      let (next, a, k) = >>=-eq-ok (add_root lib certs tr) _ h in
      subst (Holds after) (append_assoc done (tr ∷ []) trs) (
        add_roots-Holds trs (snoc done tr) next after
          (Stores-Holds certs next done tr i (add_root-Stores certs next tr a)) k)

  -- What the store gives back: for every trust root a certificate under its name, and one for timestamps
  -- where it has one, and nothing but certificates that were parsed from a trust root of the name.
  pub record IsStored (trs : List TrustRoot) (store : InMemoryTrustStore lib.Cert) : Type 0 where
    pub there :
        (tr : TrustRoot)
        → In tr trs
        → (c : lib.Cert) × (get_certificates store ca tr.name ≡ ok c) × IsParsed trs ca tr.name c
    pub stamped :
        (tr : TrustRoot)
        → In tr trs
        → is_empty tr.ts_cert ≡ false
        → (c : lib.Cert) × (get_certificates store tsa tr.name ≡ ok c) × IsParsed trs tsa tr.name c
    pub from :
        (t : StoreType) (n : Text) (c : lib.Cert)
        → get_certificates store t n ≡ ok c
        → IsParsed trs t n c

  -- Where a trust store is made of trust roots, it gives a certificate for the name of each of them, and a
  -- certificate for timestamps where the trust root has one; and each certificate that it gives for a name
  -- was parsed from the text of a trust root of this name.
  pub new_in_memory_trust_store-IsStored :
      (trs : List TrustRoot) (store : InMemoryTrustStore lib.Cert)
      → new_in_memory_trust_store lib trs ≡ ok store
      → IsStored trs store
  unfolding new_in_memory_trust_store get_certificates find_cert
  new_in_memory_trust_store-IsStored trs store h =
      let (certs, a, k) = >>=-eq-ok (add_roots lib [] trs) _ h in
      let i =
        add_roots-Holds trs [] [] certs
          (record {
            there = λ tr m. absurd m;
            stamped = λ tr m e. absurd m;
            from = λ t n c q. absurd (ground arith);
          })
          a in
      subst (IsStored trs) (ok-injective k) (record {
        there = λ tr m. let (c, q) = i.there tr m in (c, q, i.from ca tr.name c q);
        stamped = λ tr m e. let (c, q) = i.stamped tr m e in (c, q, i.from tsa tr.name c q);
        from = i.from;
      })
