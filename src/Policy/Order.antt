-- ===== src/Policy/Order.antt =====
-- `compare` chooses by a lexicographic order on the numbers of a match.
use connaisseur.Prelude.{
  ℕ, ◌≤◌, ◌≡◌, refl, ap, subst, ◌∙◌, inl, inr, Bool, true, false, List, [], ◌∷◌, ◌++◌, arith, ltb,
  if◌then◌else◌, Bool-cases, length, ok,
}
use mathlib.Core.List.{append-nil}
use connaisseur.Utils.Strings.{text_le}
use connaisseur.Utils.Strings.Sorting.{text_le_refl}
use connaisseur.Policy.{Match, Verdict, first, second, tie, compare_lengths, compare, decide_on}

-- What `compare` looks at, in the order in which it looks.
abbrev pub key : Match → List ℕ
key m = m.component_count ∷ (m.prefix_lengths ++ m.component_lengths)

pub record IsMatch (m : Match) : Type 0 where
  pub prefixes_counted : length m.prefix_lengths ≡ m.component_count
  pub lengths_counted : length m.component_lengths ≡ m.component_count
  pub not_empty : 1 ≤ m.component_count

abbrev Shows : Verdict → List ℕ → List ℕ → Type 0
Shows first xs ys = (us vs : List ℕ) → text_le (ys ++ vs) (xs ++ us) ≡ true
Shows second xs ys = (us vs : List ℕ) → text_le (ys ++ vs) (xs ++ us) ≡ false
Shows tie xs ys = xs ≡ ys

Shows-cons : (v : Verdict) (x : ℕ) (xs ys : List ℕ) → Shows v xs ys → Shows v (x ∷ xs) (x ∷ ys)
unfolding text_le
Shows-cons first x xs ys h = λ us vs. ground (arith, h us vs)
Shows-cons second x xs ys h = λ us vs. ground (arith, h us vs)
Shows-cons tie x xs ys h = ap (λ t. x ∷ t) h

compare_lengths-Shows :
    (xs ys : List ℕ)
    → length xs ≡ length ys
    → (v : Verdict) × (compare_lengths xs ys ≡ ok v) × Shows v xs ys
unfolding compare_lengths text_le
compare_lengths-Shows [] [] h = (tie, refl, refl)
compare_lengths-Shows [] (y ∷ ys) h = absurd (omega arith)
compare_lengths-Shows (x ∷ xs) [] h = absurd (omega arith)
compare_lengths-Shows (x ∷ xs) (y ∷ ys) h = elim (Bool-cases (ltb y x)) [
  | inl e ↦ (first, rw e, λ us vs. ground arith)
  | inr e ↦ elim (Bool-cases (ltb x y)) [
    | inl d ↦ (second, rw (e, d), λ us vs. ground arith)
    | inr d ↦
        let (v, q, s) = compare_lengths-Shows xs ys (omega arith) in
        let same : x ≡ y = ground arith in
        (v, rw (e, d) q, subst (λ z. Shows v (x ∷ xs) (z ∷ ys)) same (Shows-cons v x xs ys s))
  ]
]

text_le-append : (ps xs ys : List ℕ) → text_le (ps ++ xs) (ps ++ ys) ≡ text_le xs ys
unfolding text_le
text_le-append [] xs ys = refl
text_le-append (p ∷ ps) xs ys = ground (arith, text_le-append ps xs ys)

-- The order of the appended lists is decided by the verdicts, the first list's before the second's.
abbrev says : Verdict → Bool → Bool
says first next = true
says second next = false
says tie next = next

Shows-append :
    (v w : Verdict) (xs ys us vs : List ℕ)
    → Shows v xs ys
    → Shows w us vs
    → text_le (ys ++ vs) (xs ++ us) ≡ says v (says w true)
Shows-append first w xs ys us vs h k = h us vs
Shows-append second w xs ys us vs h k = h us vs
Shows-append tie first xs ys us vs h k =
    rw h (text_le-append ys vs us ∙ simp append-nil at (k [] []))
Shows-append tie second xs ys us vs h k =
    rw h (text_le-append ys vs us ∙ simp append-nil at (k [] []))
Shows-append tie tie xs ys us vs h k = rw (h, k) (text_le_refl (ys ++ vs))

decide_on-says :
    (v w : Verdict) (m1 m2 : Match)
    → decide_on v m1 m2 (decide_on w m1 m2 (ok m1)) ≡ ok (if says v (says w true) then m1 else m2)
decide_on-says first w m1 m2 = refl
decide_on-says second w m1 m2 = refl
decide_on-says tie first m1 m2 = refl
decide_on-says tie second m1 m2 = refl
decide_on-says tie tie m1 m2 = refl

-- The part of `compare` for equal numbers of components.
compare-equal_count :
    (m1 m2 : Match)
    → IsMatch m1
    → IsMatch m2
    → m1.component_count ≡ m2.component_count
    → compare m1 m2 ≡ ok (if text_le (key m2) (key m1) then m1 else m2)
compare-equal_count m1 m2 w1 w2 same =
    let (v, q, h) = compare_lengths-Shows m1.prefix_lengths m2.prefix_lengths (omega arith) in
    let (w, r, k) = compare_lengths-Shows m1.component_lengths m2.component_lengths (omega arith) in
    let by_key = Shows-append v w _ _ _ _ h k in
    let keys : text_le (key m2) (key m1) ≡ says v (says w true) =
      unfold text_le in ground (arith, by_key) in
    unfold compare in rw keys (ground (arith, q, r, decide_on-says v w m1 m2))

-- On two well-formed matches the comparison returns: the match it is called on if its key is at least
-- that of the other, else the other.
pub compare-key :
    (m1 m2 : Match)
    → IsMatch m1
    → IsMatch m2
    → compare m1 m2 ≡ ok (if text_le (key m2) (key m1) then m1 else m2)
unfolding compare text_le
compare-key m1 m2 w1 w2 = elim (Bool-cases (ltb m2.component_count m1.component_count)) [
  | inl e ↦ ground arith
  | inr e ↦ elim (Bool-cases (ltb m1.component_count m2.component_count)) [
    | inl d ↦ ground arith
    | inr d ↦ compare-equal_count m1 m2 w1 w2 (ground arith)
  ]
]
