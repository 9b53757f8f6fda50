-- ===== src/Utils/Strings/Sorting.antt =====
-- The order on texts, and what `sort` gives: every text lies between the first and the last.
use connaisseur.Prelude.{
  ◌≡◌, refl, subst, inl, inr, true, false, List, [], ◌∷◌, arith, Text, Bool-cases, All, In,
}
use connaisseur.Utils.Strings.{text_le, insert_sorted, sort, last_of}

pub text_le_refl : (s : Text) → text_le s s ≡ true
unfolding text_le
text_le_refl [] = refl
text_le_refl (c ∷ s) = ground (arith, text_le_refl s)

pub text_le_trans : (s t u : Text) → text_le s t ≡ true → text_le t u ≡ true → text_le s u ≡ true
unfolding text_le
text_le_trans [] t u h k = refl
text_le_trans (c ∷ s) [] u h k = ground arith
text_le_trans (c ∷ s) (d ∷ t) [] h k = ground arith
text_le_trans (c ∷ s) (d ∷ t) (e ∷ u) h k = ground (arith, text_le_trans s t u)

pub text_le_total : (s t : Text) → text_le s t ≡ false → text_le t s ≡ true
unfolding text_le
text_le_total [] t h = ground arith
text_le_total (c ∷ s) [] h = refl
text_le_total (c ∷ s) (d ∷ t) h = ground (arith, text_le_total s t)

abbrev AllAtLeast : Text → List Text → Type 0
AllAtLeast s ts = All (λ t. text_le s t ≡ true) ts

abbrev IsSorted : List Text → Type 0
IsSorted [] = Unit
IsSorted (s ∷ ss) = AllAtLeast s ss × IsSorted ss

AllAtLeast-trans :
    (s t : Text) (ts : List Text) → text_le s t ≡ true → AllAtLeast t ts → AllAtLeast s ts
AllAtLeast-trans s t [] h k = tt
AllAtLeast-trans s t (u ∷ ts) h k = (text_le_trans s t u h k.0, AllAtLeast-trans s t ts h k.1)

AllAtLeast-insert_sorted :
    (s t : Text) (ts : List Text)
    → text_le s t ≡ true
    → AllAtLeast s ts
    → AllAtLeast s (insert_sorted t ts)
unfolding insert_sorted
AllAtLeast-insert_sorted s t [] h k = (h, tt)
AllAtLeast-insert_sorted s t (u ∷ ts) h k = elim (Bool-cases (text_le t u)) [
  | inl e ↦ rw e (h, k)
  | inr e ↦ rw e (k.0, AllAtLeast-insert_sorted s t ts h k.1)
]

insert_sorted-IsSorted : (s : Text) (ts : List Text) → IsSorted ts → IsSorted (insert_sorted s ts)
unfolding insert_sorted
insert_sorted-IsSorted s [] h = (tt, tt)
insert_sorted-IsSorted s (t ∷ ts) h = elim (Bool-cases (text_le s t)) [
  | inl e ↦ rw e ((e, AllAtLeast-trans s t ts e h.0), h)
  | inr e ↦
      rw e
        (AllAtLeast-insert_sorted t s ts (text_le_total s t e) h.0, insert_sorted-IsSorted s ts h.1)
]

sort-IsSorted : (ss : List Text) → IsSorted (sort ss)
unfolding sort
sort-IsSorted [] = tt
sort-IsSorted (s ∷ ss) = insert_sorted-IsSorted s (sort ss) (sort-IsSorted ss)

In-insert_sorted : (x s : Text) (ts : List Text) → In x (s ∷ ts) → In x (insert_sorted s ts)
unfolding insert_sorted
In-insert_sorted x s [] h = h
In-insert_sorted x s (t ∷ ts) h = elim (Bool-cases (text_le s t)) [
  | inl e ↦ rw e h
  | inr e ↦ rw e (elim h [
    | inl p ↦ inr (In-insert_sorted x s ts (inl p))
    | inr (inl p) ↦ inl p
    | inr (inr p) ↦ inr (In-insert_sorted x s ts (inr p))
  ])
]

pub In-sort : (x : Text) (ss : List Text) → In x ss → In x (sort ss)
unfolding sort
In-sort x [] h = h
In-sort x (s ∷ ss) (inl p) = In-insert_sorted x s (sort ss) (inl p)
In-sort x (s ∷ ss) (inr h) = In-insert_sorted x s (sort ss) (inr (In-sort x ss h))

insert_sorted_In : (x s : Text) (ts : List Text) → In x (insert_sorted s ts) → In x (s ∷ ts)
unfolding insert_sorted
insert_sorted_In x s [] h = h
insert_sorted_In x s (t ∷ ts) h = elim (Bool-cases (text_le s t)) [
  | inl e ↦ rw e at h
  | inr e ↦
      let h' : In x (t ∷ insert_sorted s ts) = rw e at h in
      elim h' [
        | inl p ↦ inr (inl p)
        | inr q ↦ elim (insert_sorted_In x s ts q) [ inl p ↦ inl p | inr p ↦ inr (inr p) ]
      ]
]

pub sort_In : (x : Text) (ss : List Text) → In x (sort ss) → In x ss
unfolding sort
sort_In x [] h = h
sort_In x (s ∷ ss) h = elim (insert_sorted_In x s (sort ss) h) [
  | inl p ↦ inl p
  | inr q ↦ inr (sort_In x ss q)
]

-- Between the two ends of a sorted list lie all its texts.
between_ends :
    (x s : Text) (ss : List Text)
    → IsSorted (s ∷ ss)
    → In x (s ∷ ss)
    → (text_le s x ≡ true) × (text_le x (last_of s ss) ≡ true)
between_ends x s [] h (inl p) = rw p (text_le_refl s, text_le_refl s)
between_ends x s [] h (inr m) = absurd m
between_ends x s (t ∷ ts) h (inl p) =
    let (a, b) = between_ends t t ts h.1 (inl refl) in
    rw p (text_le_refl s, text_le_trans s t _ h.0.0 b)
between_ends x s (t ∷ ts) h (inr m) =
    let (a, b) = between_ends x t ts h.1 m in (text_le_trans s t x h.0.0 a, b)

pub between_ends_sort :
    (x s : Text) (ss ts : List Text)
    → sort ts ≡ s ∷ ss
    → In x ts
    → (text_le s x ≡ true) × (text_le x (last_of s ss) ≡ true)
between_ends_sort x s ss ts e m =
    between_ends x s ss (subst IsSorted e (sort-IsSorted ts)) (subst (In x) e (In-sort x ts m))
