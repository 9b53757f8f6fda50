-- ===== src/Validators/Notation/Keys.antt =====
-- The map of the trust store's certificates, and its keys.
use connaisseur.Prelude.{
  ◌≡◌, refl, sym, ap, ◌∙◌, inl, inr, true, false, ◌&&◌, [], ◌∷◌, arith, Text, text_eq, text_eq_iff,
  text_eq_refl, Bool-cases, ok,
}
use connaisseur.Validators.Notation.{
  StoreType, ca, tsa, CertsOf, same_type, same_key, set_cert, find_cert,
}

same_type-eq : (t u : StoreType) → same_type t u ≡ true → t ≡ u
same_type-eq ca ca h = refl
same_type-eq ca tsa h = absurd (ground arith)
same_type-eq tsa ca h = absurd (ground arith)
same_type-eq tsa tsa h = refl

same_type_refl : (t : StoreType) → same_type t t ≡ true
same_type_refl ca = refl
same_type_refl tsa = refl

pub same_key-eq : (j k : Text × StoreType) → same_key j k ≡ true → j ≡ k
same_key-eq (n, t) (m, u) h = elim (Bool-cases (text_eq n m)) [
  | inl e ↦
      ap (λ x. (x, t)) ((text_eq_iff n m).0 e)
      ∙ ap (λ x. (m, x)) (same_type-eq t u (ap (λ b. b && same_type t u) (sym e) ∙ h))
  | inr e ↦ absurd (ground (arith, ap (λ b. b && same_type t u) (sym e) ∙ h))
]

same_key_refl : (k : Text × StoreType) → same_key k k ≡ true
same_key_refl (n, t) = ap (λ b. b && same_type t t) (text_eq_refl n) ∙ same_type_refl t

module _ {Cert : Type 0} where
  pub find_cert-set_cert :
      (m : CertsOf Cert) (n : Text) (t : StoreType) (c : Cert)
      → find_cert (set_cert m (n, t) c) t n ≡ ok c
  unfolding find_cert set_cert
  find_cert-set_cert [] n t c = rw (same_key_refl (n, t)) refl
  find_cert-set_cert ((j, d) ∷ m) n t c = elim (Bool-cases (same_key j (n, t))) [
    | inl e ↦ rw (e, e) refl
    | inr e ↦ rw (e, e) (find_cert-set_cert m n t c)
  ]

  pub find_cert-set_cert_other :
      (m : CertsOf Cert) (n n' : Text) (t t' : StoreType) (c : Cert)
      → same_key (n, t) (n', t') ≡ false
      → find_cert (set_cert m (n, t) c) t' n' ≡ find_cert m t' n'
  unfolding find_cert set_cert
  find_cert-set_cert_other [] n n' t t' c h = rw h refl
  find_cert-set_cert_other ((j, d) ∷ m) n n' t t' c h = elim (Bool-cases (same_key j (n, t))) [
    | inl e ↦ rw (e, ap (λ k. same_key k (n', t')) (same_key-eq j (n, t) e) ∙ h) refl
    | inr e ↦ rw e (elim (Bool-cases (same_key j (n', t'))) [
      | inl f ↦ rw f refl
      | inr f ↦ rw f (find_cert-set_cert_other m n n' t t' c h)
    ])
  ]
