-- ===== src/Validators/Auth/LookUp.antt =====
-- The credentials for an image are those of the longest key that begins its repository.
use connaisseur.Prelude.{
  ℕ, ◌≤◌, ◌≡◌, refl, sym, ap, subst, ◌∙◌, ◌≢◌, ◌⊎◌, inl, inr, true, false, [], ◌∷◌, arith, Text,
  text_eq, text_eq_iff, has_prefix, ltb, if◌then◌else◌, Bool-cases, length, is_empty, All, In,
  All-In,
}
use connaisseur.Validators.Auth.{
  AuthEntry, AuthConfigs, Auth, no_entry, better_hit, best_hit, entry_at, look_up,
}

-- No key that begins the image is longer than n.
abbrev pub Bounded : Text → ℕ → AuthConfigs → Type 0
Bounded img n = All (λ (e : Text × AuthEntry). has_prefix img e.0 ≡ true → length e.0 ≤ n)

better_hit-cases :
    (img hit k : Text)
    → (better_hit img hit k ≡ hit) ⊎ ((better_hit img hit k ≡ k) × (has_prefix img k ≡ true))
unfolding better_hit
better_hit-cases img hit k = elim (Bool-cases (ltb (length hit) (length k))) [
  | inl e ↦ elim (Bool-cases (has_prefix img k)) [
    | inl d ↦ inr (ground (arith, e, d), d)
    | inr d ↦ inl (ground (arith, e, d))
  ]
  | inr e ↦ inl (ground (arith, e))
]

better_hit-grows : (img hit k : Text) → length hit ≤ length (better_hit img hit k)
unfolding better_hit
better_hit-grows img hit k = ground arith

better_hit-reaches :
    (img hit k : Text) → has_prefix img k ≡ true → length k ≤ length (better_hit img hit k)
unfolding better_hit
better_hit-reaches img hit k h = ground arith

best_hit-grows : (img hit : Text) (m : AuthConfigs) → length hit ≤ length (best_hit img hit m)
unfolding best_hit
best_hit-grows img hit [] = omega arith
best_hit-grows img hit ((k, e) ∷ m) =
    omega (arith, better_hit-grows img hit k, best_hit-grows img (better_hit img hit k) m)

best_hit-Bounded : (img hit : Text) (m : AuthConfigs) → Bounded img (length (best_hit img hit m)) m
unfolding best_hit
best_hit-Bounded img hit [] = tt
best_hit-Bounded img hit ((k, e) ∷ m) = (
  λ h. omega (arith, better_hit-reaches img hit k h, best_hit-grows img (better_hit img hit k) m),
  best_hit-Bounded img (better_hit img hit k) m,
)

best_hit-cases :
    (img hit : Text) (m : AuthConfigs)
    → (best_hit img hit m ≡ hit)
      ⊎ ((e : AuthEntry) × In (best_hit img hit m, e) m
          × (has_prefix img (best_hit img hit m) ≡ true))
unfolding best_hit
best_hit-cases img hit [] = inl refl
best_hit-cases img hit ((k, e) ∷ m) = elim (best_hit-cases img (better_hit img hit k) m) [
  | inr (f, i, p) ↦ inr (f, inr i, p)
  | inl q ↦ elim (better_hit-cases img hit k) [
    | inl s ↦ inl (q ∙ s)
    | inr (s, p) ↦
        inr
          (e, inl (ap (λ t. (t, e)) (q ∙ s)), subst (λ t. has_prefix img t ≡ true) (sym (q ∙ s)) p)
  ]
]

-- The keys of a Go map are distinct.
abbrev pub HasKeysOnce : AuthConfigs → Type 0
HasKeysOnce [] = Unit
HasKeysOnce ((k, e) ∷ m) = All (λ (f : Text × AuthEntry). f.0 ≢ k) m × HasKeysOnce m

entry_at-In :
    (m : AuthConfigs) (k : Text) (e : AuthEntry) → HasKeysOnce m → In (k, e) m → entry_at m k ≡ e
unfolding entry_at
entry_at-In [] k e u i = absurd i
entry_at-In ((j, f) ∷ m) k e u (inl q) =
    rw ((text_eq_iff j k).1 (sym (ap (λ (p : Text × AuthEntry). p.0) q)))
      (sym (ap (λ (p : Text × AuthEntry). p.1) q))
entry_at-In ((j, f) ∷ m) k e u (inr i) =
    let other : k ≢ j = All-In (λ (f : Text × AuthEntry). f.0 ≢ j) (k, e) m u.0 i in
    let skip : text_eq j k ≡ false = ground (arith, text_eq_iff j k) in
    rw skip (entry_at-In m k e u.1 i)

-- For a map of distinct keys, in whatever order it is iterated over: the result is the entry of a key
-- that is not empty and begins the image, and no longer key begins it; or the result is the empty entry, and no key
-- but the empty one begins the image.
pub look_up-longest :
    (a : Auth) (img : Text)
    → HasKeysOnce a.auth_configs
    → ((k : Text) × (is_empty k ≡ false)
        × In (k, look_up a img) a.auth_configs
        × (has_prefix img k ≡ true)
        × Bounded img (length k) a.auth_configs)
      ⊎ ((look_up a img ≡ no_entry) × Bounded img 0 a.auth_configs)
unfolding look_up
look_up-longest a img u = go (best_hit img [] a.auth_configs) refl
  where
    go :
        (hit : Text)
        → best_hit img [] a.auth_configs ≡ hit
        → ((k : Text) × (is_empty k ≡ false)
            × In (k, if is_empty hit then no_entry else entry_at a.auth_configs hit) a.auth_configs
            × (has_prefix img k ≡ true)
            × Bounded img (length k) a.auth_configs)
          ⊎ (((if is_empty hit then no_entry else entry_at a.auth_configs hit) ≡ no_entry)
              × Bounded img 0 a.auth_configs)
    go [] q = inr (refl, rw q at (best_hit-Bounded img [] a.auth_configs))
    go (c ∷ s) q = elim (best_hit-cases img [] a.auth_configs) [
      | inl e ↦ absurd (cc (e, q))
      | inr (e, i, p) ↦
          let i' : In (c ∷ s, e) a.auth_configs = rw q at i in
          inl (
            c ∷ s,
            refl,
            rw (entry_at-In a.auth_configs (c ∷ s) e u i') i',
            rw q at p,
            rw q at (best_hit-Bounded img [] a.auth_configs),
          )
    ]
