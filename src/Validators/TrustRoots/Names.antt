-- ===== src/Validators/TrustRoots/Names.antt =====
-- The trust roots that are found are those of the names that are asked for.
use connaisseur.Prelude.{
  ℕ, ◌+◌, ◌≡◌, refl, sym, ap, subst, ◌∙◌, ◌≢◌, ◌↔◌, ◌⊎◌, inl, inr, Bool, true, false, List, [], ◌∷◌,
  ◌++◌, map, arith, Text, lit, text_eq, text_eq_iff, text_eq_refl, Bool-cases, length, is_empty,
  length-append, All, All-append, In, ok, >>=-eq-ok, ok-injective,
}
use mathlib.Core.List.{append_assoc, append-nil, map-append}
use connaisseur.Validators.TrustRoots.{
  no_key_ref, TrustRoot, append_root, collect_roots, effective_refs, is_wildcard, or_undefined,
  get_trust_roots,
}

abbrev pub names : List TrustRoot → List Text
names = map (λ tr. tr.name)

-- Either no root has the name, or one of the list is appended that has.
append_root-cases :
    (trs : List TrustRoot) (ref : Text) (found : List TrustRoot)
    → (append_root trs ref found ≡ found)
      ⊎ ((tr : TrustRoot) × (append_root trs ref found ≡ found ++ tr ∷ [])
          × (tr.name ≡ ref)
          × In tr trs)
unfolding append_root
append_root-cases [] ref found = inl refl
append_root-cases (tr ∷ trs) ref found = elim (Bool-cases (text_eq tr.name ref)) [
  | inl e ↦ inr (tr, rw e refl, (text_eq_iff tr.name ref).0 e, inl refl)
  | inr e ↦ elim (append_root-cases trs ref found) [
    | inl q ↦ inl (rw e q)
    | inr (t, q, n, i) ↦ inr (t, rw e q, n, inr i)
  ]
]

module _ (roots : List TrustRoot) where
  abbrev FromRoots : List TrustRoot → Type 0
  FromRoots = All (λ tr. In tr roots)

  collect_roots-names :
      (idx : ℕ) (refs : List Text) (found : List TrustRoot) (result : List TrustRoot)
      → length found ≡ idx
      → FromRoots found
      → collect_roots roots idx refs found ≡ ok result
      → (names result ≡ names found ++ refs) × FromRoots result
  unfolding collect_roots
  collect_roots-names idx [] found result n f h =
      subst (λ r. (names r ≡ names found ++ []) × FromRoots r) (ok-injective h)
        (sym (append-nil (names found)), f)
  collect_roots-names idx (ref ∷ refs) found result n f h =
      elim (append_root-cases roots ref found) [
        | inl q ↦ absurd (ground (arith, q))
        | inr (tr, q, same, i) ↦
            let n' : length (found ++ tr ∷ []) ≡ idx + 1 =
              omega (arith, length-append found (tr ∷ [])) in
            let h' : collect_roots roots (idx + 1) refs (found ++ tr ∷ []) ≡ ok result =
              ground (arith, q, n') in
            let (a, b) =
              collect_roots-names (idx + 1) refs (found ++ tr ∷ []) result n'
                (All-append (λ t. In t roots) found (tr ∷ []) f (i, tt)) h' in
            (a ∙ rw (map-append, same) (append_assoc (names found) (ref ∷ []) refs), b)
      ]

or_undefined-ok :
    (refs : List Text) (found : List TrustRoot) {result : List TrustRoot}
    → or_undefined refs found ≡ ok result
    → (found ≡ result) × (is_empty found ≡ false)
or_undefined-ok refs [] h = absurd (ground arith)
or_undefined-ok refs (t ∷ ts) h = (ok-injective h, refl)

abbrev IsUnnamed : List Text → Type 0
IsUnnamed refs = (refs ≡ []) ⊎ (refs ≡ [] ∷ [])

-- The names that are asked for: "default" where none is given and the default is in use, or those given.
abbrev pub IsAsked : List Text → Bool → List Text → Type 0
IsAsked refs use_default asked =
    ((use_default ≡ true) × IsUnnamed refs × (asked ≡ lit "default" ∷ []))
    ⊎ (¬ ((use_default ≡ true) × IsUnnamed refs) × (asked ≡ refs))

no_key_ref-IsUnnamed : (refs : List Text) → no_key_ref refs ≡ true → IsUnnamed refs
no_key_ref-IsUnnamed [] h = inl refl
no_key_ref-IsUnnamed ([] ∷ []) h = inr refl
no_key_ref-IsUnnamed ((c ∷ s) ∷ []) h = absurd (ground arith)
no_key_ref-IsUnnamed (r ∷ t ∷ rs) h = absurd (ground arith)

IsUnnamed-no_key_ref : (refs : List Text) → IsUnnamed refs → no_key_ref refs ≡ true
IsUnnamed-no_key_ref refs (inl e) = rw e refl
IsUnnamed-no_key_ref refs (inr e) = rw e refl

effective_refs-IsAsked :
    (refs : List Text) (use_default : Bool)
    → IsAsked refs use_default (effective_refs refs use_default)
effective_refs-IsAsked refs use_default = elim (Bool-cases (no_key_ref refs)) [
  | inr e ↦ inr (λ (on, u). cc (e, IsUnnamed-no_key_ref refs u), rw e refl)
  | inl e ↦ of_default use_default e
]
  where
    of_default : (b : Bool) → no_key_ref refs ≡ true → IsAsked refs b (effective_refs refs b)
    of_default true e = inl (refl, no_key_ref-IsUnnamed refs e, rw e refl)
    of_default false e = inr (λ (on, u). absurd (ground arith), rw e refl)

is_wildcard_iff : (refs : List Text) → (is_wildcard refs ≡ true) ↔ (refs ≡ lit "*" ∷ [])
is_wildcard_iff [] = (λ h. absurd (ground arith), λ q. absurd (omega (arith, ap length q)))
is_wildcard_iff (r ∷ []) = (
  λ h. ap (λ t. t ∷ []) ((text_eq_iff r (lit "*")).0 h),
  λ q. ap is_wildcard q ∙ text_eq_refl (lit "*"),
)
is_wildcard_iff (r ∷ t ∷ rs) =
    (λ h. absurd (ground arith), λ q. absurd (omega (arith, ap length q)))

-- The same, with the functions that the code calls.
pub get_trust_roots-effective :
    (refs : List Text) (roots : List TrustRoot) (use_default : Bool) (result : List TrustRoot)
    → get_trust_roots refs roots use_default ≡ ok result
    → ((is_wildcard (effective_refs refs use_default) ≡ true) × (result ≡ roots))
      ⊎ ((is_wildcard (effective_refs refs use_default) ≡ false)
          × (names result ≡ effective_refs refs use_default)
          × All (λ tr. In tr roots) result
          × (is_empty result ≡ false))
unfolding get_trust_roots
get_trust_roots-effective refs roots use_default result h =
    elim (Bool-cases (is_wildcard (effective_refs refs use_default))) [
      | inl e ↦ inl (e, sym (ok-injective (rw e at h)))
      | inr e ↦
          let (found, a, b) =
            >>=-eq-ok (collect_roots roots 0 (effective_refs refs use_default) []) _ (rw e at h) in
          let (same, full) = or_undefined-ok (effective_refs refs use_default) found b in
          inr (
            subst
              (λ r.
                (is_wildcard (effective_refs refs use_default) ≡ false)
                × (names r ≡ effective_refs refs use_default)
                × All (λ t. In t roots) r
                × (is_empty r ≡ false))
              same
              (
                e,
                (collect_roots-names roots 0 (effective_refs refs use_default) [] found refl tt
                    a).0,
                (collect_roots-names roots 0 (effective_refs refs use_default) [] found refl tt
                    a).1,
                full,
              ))
    ]

-- On success the names that are asked for are those given, or "default" where none is given and the
-- default is in use. Where that is the all-quantifier alone, all trust roots are returned; and else one
-- trust root of the validator for each name, in order.
pub get_trust_roots-names :
    (refs : List Text) (roots : List TrustRoot) (use_default : Bool) (result : List TrustRoot)
    → get_trust_roots refs roots use_default ≡ ok result
    → (asked : List Text) × IsAsked refs use_default asked
      × (((asked ≡ lit "*" ∷ []) × (result ≡ roots))
          ⊎ ((asked ≢ lit "*" ∷ [])
              × (names result ≡ asked)
              × All (λ tr. In tr roots) result
              × (is_empty result ≡ false)))
get_trust_roots-names refs roots use_default result h =
    let asked = effective_refs refs use_default in
    (
      asked,
      effective_refs-IsAsked refs use_default,
      elim (get_trust_roots-effective refs roots use_default result h) [
        | inl (w, e) ↦ inl ((is_wildcard_iff asked).0 w, e)
        | inr (w, n, all, full) ↦ inr (λ q. cc (w, (is_wildcard_iff asked).1 q), n, all, full)
      ],
    )
