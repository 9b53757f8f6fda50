-- ===== src/Utils/Lists/Subtract.antt =====
-- `set_subtract` is the difference of two sets.
use connaisseur.Prelude.{
  ◌≡◌, refl, sym, subst, ◌↔◌, ◌⊎◌, inl, inr, true, List, [], ◌∷◌, ◌++◌, arith, Text, text_eq,
  text_eq_iff, Bool-cases, In, In-append_left, In-append_right, In-append_cases,
}
use connaisseur.Utils.Lists.{has_key, set_key, keys_from, uniq, without, set_subtract}

pub has_key-In : (ks : List Text) (v : Text) → has_key ks v ≡ true → In v ks
unfolding has_key
has_key-In [] v h = ground arith
has_key-In (k ∷ ks) v h = elim (Bool-cases (text_eq k v)) [
  | inl e ↦ inl (sym ((text_eq_iff k v).0 e))
  | inr e ↦ inr (has_key-In ks v (rw e at h))
]

pub In-has_key : (ks : List Text) (v : Text) → In v ks → has_key ks v ≡ true
unfolding has_key
In-has_key [] v m = absurd m
In-has_key (k ∷ ks) v (inl e) = rw ((text_eq_iff k v).1 (sym e)) refl
In-has_key (k ∷ ks) v (inr m) = elim (Bool-cases (text_eq k v)) [
  | inl e ↦ rw e refl
  | inr e ↦ rw e (In-has_key ks v m)
]

pub In-set_key_old : (ks : List Text) (v x : Text) → In x ks → In x (set_key ks v)
unfolding set_key
In-set_key_old ks v x m = elim (Bool-cases (has_key ks v)) [
  | inl e ↦ rw e m
  | inr e ↦ rw e (In-append_left x ks (v ∷ []) m)
]

pub In-set_key_new : (ks : List Text) (v : Text) → In v (set_key ks v)
unfolding set_key
In-set_key_new ks v = elim (Bool-cases (has_key ks v)) [
  | inl e ↦ rw e (has_key-In ks v e)
  | inr e ↦ rw e (In-append_right v ks (v ∷ []) (inl refl))
]

set_key_In : (ks : List Text) (v x : Text) → In x (set_key ks v) → In x ks ⊎ (x ≡ v)
unfolding set_key
set_key_In ks v x m = elim (Bool-cases (has_key ks v)) [
  | inl e ↦ inl (rw e at m)
  | inr e ↦
      let m' : In x (ks ++ v ∷ []) = rw e at m in
      elim (In-append_cases x ks (v ∷ []) m') [
        | inl a ↦ inl a
        | inr (inl b) ↦ inr b
        | inr (inr b) ↦ absurd b
      ]
]

In-keys_from : (hash vs : List Text) (x : Text) → In x hash ⊎ In x vs → In x (keys_from hash vs)
unfolding keys_from
In-keys_from hash [] x (inl m) = m
In-keys_from hash [] x (inr m) = absurd m
In-keys_from hash (v ∷ vs) x (inl m) =
    In-keys_from (set_key hash v) vs x (inl (In-set_key_old hash v x m))
In-keys_from hash (v ∷ vs) x (inr (inl e)) =
    In-keys_from (set_key hash v) vs x
      (inl (subst (λ y. In y (set_key hash v)) (sym e) (In-set_key_new hash v)))
In-keys_from hash (v ∷ vs) x (inr (inr m)) = In-keys_from (set_key hash v) vs x (inr m)

pub keys_from_In : (hash vs : List Text) (x : Text) → In x (keys_from hash vs) → In x hash ⊎ In x vs
unfolding keys_from
keys_from_In hash [] x m = inl m
keys_from_In hash (v ∷ vs) x m = elim (keys_from_In (set_key hash v) vs x m) [
  | inl a ↦ elim (set_key_In hash v x a) [ inl b ↦ inl b | inr b ↦ inr (inl b) ]
  | inr a ↦ inr (inr a)
]

pub In-uniq_iff : (a : List Text) (x : Text) → In x (uniq a) ↔ In x a
unfolding uniq
In-uniq_iff a x = (
  λ m. elim (keys_from_In [] a x m) [ inl b ↦ absurd b | inr b ↦ b ],
  λ m. In-keys_from [] a x (inr m),
)

In-without : (hash vs : List Text) (x : Text) → In x vs → ¬ In x hash → In x (without hash vs)
unfolding without
In-without hash [] x m n = absurd m
In-without hash (v ∷ vs) x m n = elim (Bool-cases (has_key hash v)) [
  | inl e ↦ rw e (elim m [
    | inl p ↦ absurd (n (subst (λ y. In y hash) (sym p) (has_key-In hash v e)))
    | inr p ↦ In-without hash vs x p n
  ])
  | inr e ↦ rw e (elim m [ inl p ↦ inl p | inr p ↦ inr (In-without hash vs x p n) ])
]

without_In : (hash vs : List Text) (x : Text) → In x (without hash vs) → In x vs × (¬ In x hash)
unfolding without
without_In hash [] x m = absurd m
without_In hash (v ∷ vs) x m = elim (Bool-cases (has_key hash v)) [
  | inl e ↦
      let m' : In x (without hash vs) = rw e at m in
      let r = without_In hash vs x m' in (inr r.0, r.1)
  | inr e ↦
      let m' : In x (v ∷ without hash vs) = rw e at m in
      elim m' [
        | inl p ↦ (inl p, λ i. cc (e, In-has_key hash v (subst (λ y. In y hash) p i)))
        | inr p ↦ let r = without_In hash vs x p in (inr r.0, r.1)
      ]
]

-- A text stands in the difference exactly when it stands in the first list and not in the second.
pub In-set_subtract_iff :
    (a b : List Text) (x : Text) → In x (set_subtract a b) ↔ (In x a × (¬ In x b))
unfolding set_subtract
In-set_subtract_iff a b x = (
  λ m.
      let r = without_In (uniq b) (uniq a) x m in
      ((In-uniq_iff a x).0 r.0, λ i. r.1 ((In-uniq_iff b x).1 i)),
  λ h. In-without (uniq b) (uniq a) x ((In-uniq_iff a x).1 h.0) (λ i. h.1 ((In-uniq_iff b x).0 i)),
)
