-- ===== src/Utils/Strings/Prefix.antt =====
-- What `longest_common_prefix` computes: it never reads past the end of a text, and on ASCII texts
-- its result is the greatest common prefix.

use connaisseur.Prelude.{
  ◌<◌, ◌≡◌, refl, sym, subst, inl, inr, true, List, [], ◌∷◌, arith, Text, has_prefix, ◌==◌,
  if◌then◌else◌, Bool-cases, All, In, All-In, ok,
}
use connaisseur.Utils.Strings.{
  text_le, insert_sorted, sort, last_of, common_bytes, longest_common_prefix,
}
use connaisseur.Utils.Strings.Sorting.{sort_In, between_ends_sort}

abbrev pub IsAscii : Text → Type 0
IsAscii = All (λ c. c < 128)

-- The longest common prefix of two texts.
abbrev common : Text → Text → Text
common [] t = []
common (c ∷ s) [] = []
common (c ∷ s) (d ∷ t) = let rest = common s t in if d == c then c ∷ rest else []

-- The loop stays in range where `first` comes first in the order.
common_bytes-common :
    (f l : Text) → IsAscii f → text_le f l ≡ true → common_bytes f l ≡ ok (common f l)
unfolding common_bytes text_le
common_bytes-common [] l a h = refl
common_bytes-common (c ∷ f) [] a h = ground arith
common_bytes-common (c ∷ f) (d ∷ l) a h = elim (Bool-cases (d == c)) [
  | inl e ↦ ground (arith, common_bytes-common f l a.1)
  | inr e ↦ ground arith
]

common-prefix_left : (s t : Text) → has_prefix s (common s t) ≡ true
unfolding has_prefix
common-prefix_left [] t = refl
common-prefix_left (c ∷ s) [] = refl
common-prefix_left (c ∷ s) (d ∷ t) = ground (arith, common-prefix_left s t)

-- What both ends begin with, everything between them begins with.
common-prefix_between :
    (s x t : Text) → text_le s x ≡ true → text_le x t ≡ true → has_prefix x (common s t) ≡ true
unfolding has_prefix text_le
common-prefix_between [] x t h k = refl
common-prefix_between (c ∷ s) x [] h k = refl
common-prefix_between (c ∷ s) [] (d ∷ t) h k = ground arith
common-prefix_between (c ∷ s) (b ∷ x) (d ∷ t) h k = ground (arith, common-prefix_between s x t)

has_prefix-common :
    (s t q : Text)
    → has_prefix s q ≡ true
    → has_prefix t q ≡ true
    → has_prefix (common s t) q ≡ true
unfolding has_prefix
has_prefix-common s t [] h k = ground arith
has_prefix-common [] t (b ∷ q) h k = ground arith
has_prefix-common (c ∷ s) [] (b ∷ q) h k = ground arith
has_prefix-common (c ∷ s) (d ∷ t) (b ∷ q) h k = ground (arith, has_prefix-common s t q)

-- `p` is the longest text with which every text of the list begins.
pub record IsCommonPrefix (p : Text) (strs : List Text) : Type 0 where
  pub common_to : (x : Text) → In x strs → has_prefix x p ≡ true
  pub longest :
      (q : Text) → ((x : Text) → In x strs → has_prefix x q ≡ true) → has_prefix p q ≡ true

last_of-In : (s : Text) (ss : List Text) → In (last_of s ss) (s ∷ ss)
last_of-In s [] = inl refl
last_of-In s (t ∷ ts) = inr (last_of-In t ts)

sort-nonempty :
    (s : Text) (ss : List Text) → (t : Text) × (ts : List Text) × (sort (s ∷ ss) ≡ t ∷ ts)
unfolding sort
sort-nonempty s ss = go (sort ss)
  where
    go : (us : List Text) → (t : Text) × (ts : List Text) × (insert_sorted s us ≡ t ∷ ts)
    go [] = (s, [], refl)
    go (u ∷ us) = elim (Bool-cases (text_le s u)) [
      | inl e ↦ (s, u ∷ us, rw e refl)
      | inr e ↦ (u, insert_sorted s us, rw e refl)
    ]

-- For a non-empty list of ASCII texts the function returns, and what it returns is a prefix of every
-- text of the list, and the longest such.
pub longest_common_prefix-IsCommonPrefix :
    (s : Text) (ss : List Text)
    → All IsAscii (s ∷ ss)
    → (p : Text) × (longest_common_prefix (s ∷ ss) ≡ ok p) × IsCommonPrefix p (s ∷ ss)
unfolding longest_common_prefix
longest_common_prefix-IsCommonPrefix s ss ascii =
    let (t, ts, e) = sort-nonempty s ss in
    let strs = s ∷ ss in
    let first_in : In t strs = sort_In t strs (subst (In t) (sym e) (inl refl)) in
    let last_in : In (last_of t ts) strs =
      sort_In (last_of t ts) strs (subst (In (last_of t ts)) (sym e) (last_of-In t ts)) in
    let (_, below) = between_ends_sort t t ts strs e first_in in
    (
      common t (last_of t ts),
      rw e (common_bytes-common t (last_of t ts) (All-In IsAscii t strs ascii first_in) below),
      record {
        common_to = λ x m.
            let (a, b) = between_ends_sort x t ts strs e m in
            common-prefix_between t x (last_of t ts) a b;
        longest = λ q all.
            has_prefix-common t (last_of t ts) q (all t first_in) (all (last_of t ts) last_in);
      },
    )
