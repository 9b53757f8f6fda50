-- ===== src/Validators/Notary/Calls.antt =====
-- What a chain of calls that succeeds says of each call, and when a chain cannot panic.
use connaisseur.Prelude.{
  ◌≡◌, refl, ap, ◌∙◌, ◌≢◌, ◌⊎◌, inl, inr, false, Option, none, some, List, [], ◌∷◌, arith, Text,
  text_eq, text_eq_iff, text_eq_refl, Bool-cases, All, In, >>=-no_panic, ok-no_panic, err-no_panic,
  Result, ok, panic, >>=-eq-ok, ok-injective,
}
use connaisseur.Validators.Notary.{find_at, set_at, deref, or_fail, check, for_each}

pub deref-ok : {A : Type 0} (o : Option A) (a : A) → deref o ≡ ok a → o ≡ some a
deref-ok none a h = absurd (ground arith)
deref-ok (some b) a h = ap some (ok-injective h)

pub or_fail-ok :
    {A : Type 0} (message : Text → Text) (c : A ⊎ Text) (a : A)
    → or_fail message c ≡ ok a
    → c ≡ inl a
or_fail-ok message (inl b) a h = ap inl (ok-injective h)
or_fail-ok message (inr e) a h = absurd (ground arith)

pub check-ok :
    (message : Text → Text) (o : Option Text) (u : Unit {0}) → check message o ≡ ok u → o ≡ none
check-ok message none u h = refl
check-ok message (some e) u h = absurd (ground arith)

pub for_each-All :
    {A : Type 0} (f : A → Result (Unit {0})) (xs : List A) (u : Unit {0})
    → for_each f xs ≡ ok u
    → All (λ x. f x ≡ ok tt) xs
unfolding for_each
for_each-All f [] u h = tt
for_each-All f (x ∷ xs) u h = let (v, a, b) = >>=-eq-ok (f x) _ h in (a, for_each-All f xs u b)

pub deref-no_panic : {A : Type 0} (o : Option A) (a : A) → o ≡ some a → deref o ≢ panic
deref-no_panic none a h = absurd (ground arith)
deref-no_panic (some b) a h = ok-no_panic b

pub or_fail-no_panic :
    {A : Type 0} (message : Text → Text) (c : A ⊎ Text) → or_fail message c ≢ panic
or_fail-no_panic message (inl a) = ok-no_panic a
or_fail-no_panic message (inr e) = err-no_panic (message e)

pub check-no_panic : (message : Text → Text) (o : Option Text) → check message o ≢ panic
check-no_panic message none = ok-no_panic tt
check-no_panic message (some e) = err-no_panic (message e)

pub for_each-no_panic :
    {A : Type 0} (f : A → Result (Unit {0})) (xs : List A)
    → ((x : A) → In x xs → f x ≢ panic)
    → for_each f xs ≢ panic
unfolding for_each
for_each-no_panic f [] h = ok-no_panic tt
for_each-no_panic f (x ∷ xs) h =
    >>=-no_panic (f x) _ (h x (inl refl)) (λ u q. for_each-no_panic f xs (λ y m. h y (inr m)))

-- The map after an assignment has the value under its key, and the old ones under the others.
pub find_at-set_at :
    {A : Type 0} (m : List (Text × A)) (key : Text) (a : A) → find_at (set_at m key a) key ≡ some a
unfolding set_at
find_at-set_at [] key a = rw (text_eq_refl key) refl
find_at-set_at ((k, b) ∷ m) key a = elim (Bool-cases (text_eq k key)) [
  | inl e ↦ rw (e, e) refl
  | inr e ↦ rw (e, e) (find_at-set_at m key a)
]

pub find_at-set_at_other :
    {A : Type 0} (m : List (Text × A)) (key other : Text) (a : A)
    → text_eq key other ≡ false
    → find_at (set_at m key a) other ≡ find_at m other
unfolding set_at
find_at-set_at_other [] key other a h = rw h refl
find_at-set_at_other ((k, b) ∷ m) key other a h = elim (Bool-cases (text_eq k key)) [
  | inl e ↦ rw (e, ap (λ t. text_eq t other) ((text_eq_iff k key).0 e) ∙ h) refl
  | inr e ↦ rw e (elim (Bool-cases (text_eq k other)) [
    | inl f ↦ rw f refl
    | inr f ↦ rw f (find_at-set_at_other m key other a h)
  ])
]
