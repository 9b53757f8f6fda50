-- ===== src/Utils/Strings/Overlap.antt =====
-- What `string_overlap` finds: the longest text that ends the first and begins the second.
use mathlib.Core.List.{append_assoc}
use connaisseur.Prelude.{
  ℕ, zero, suc, ◌+◌, ◌-◌, ◌≤◌, ◌≡◌, refl, sym, ap, ◌∙◌, inl, inr, true, [], ◌∷◌, ◌++◌, arith, Text,
  has_prefix, Bool-cases, length, drop, length-append,
}
use connaisseur.Utils.Strings.{overlap_from, string_overlap}

-- `w` ends `a`.
abbrev pub Ends : Text → Text → Type 0
Ends w a = (u : Text) × (u ++ w ≡ a)

length-has_prefix : (s p : Text) → has_prefix s p ≡ true → length p ≤ length s
unfolding has_prefix
length-has_prefix s [] h = omega arith
length-has_prefix [] (c ∷ p) h = ground arith
length-has_prefix (d ∷ s) (c ∷ p) h = ground (arith, length-has_prefix s p)

drop-Ends : (n : ℕ) (a : Text) → Ends (drop n a) a
drop-Ends zero a = ([], refl)
drop-Ends (suc n) [] = ([], refl)
drop-Ends (suc n) (c ∷ a) = let (u, e) = drop-Ends n a in (c ∷ u, ap (λ t. c ∷ t) e)

overlap_from-Ends : (a b : Text) → Ends (overlap_from a b) a
unfolding overlap_from
overlap_from-Ends [] b = ([], refl)
overlap_from-Ends (c ∷ a) b = elim (Bool-cases (has_prefix b (c ∷ a))) [
  | inl e ↦ rw e ([], refl)
  | inr e ↦ let (u, q) = overlap_from-Ends a b in rw e (c ∷ u, ap (λ t. c ∷ t) q)
]

has_prefix-overlap_from : (a b : Text) → has_prefix b (overlap_from a b) ≡ true
unfolding overlap_from
has_prefix-overlap_from [] b = unfold has_prefix in refl
has_prefix-overlap_from (c ∷ a) b = elim (Bool-cases (has_prefix b (c ∷ a))) [
  | inl e ↦ rw e e
  | inr e ↦ rw e (has_prefix-overlap_from a b)
]

-- No longer suffix of `a` begins `b`.
overlap_from-longest :
    (u w b : Text) → has_prefix b w ≡ true → length w ≤ length (overlap_from (u ++ w) b)
unfolding overlap_from
overlap_from-longest [] [] b h = omega arith
overlap_from-longest [] (c ∷ w) b h = rw h (omega arith)
overlap_from-longest (c ∷ u) w b h = elim (Bool-cases (has_prefix b (c ∷ (u ++ w)))) [
  | inl e ↦ rw e (omega (arith, length-append u w))
  | inr e ↦ rw e (overlap_from-longest u w b h)
]

drop-append : (u w : Text) (n : ℕ) → n ≤ length u → drop n (u ++ w) ≡ drop n u ++ w
drop-append u w zero h = refl
drop-append [] w (suc n) h = absurd (omega arith)
drop-append (c ∷ u) w (suc n) h = drop-append u w n (omega arith)

-- `w` is the longest text that ends `a` and begins `b`.
pub record IsOverlap (w a b : Text) : Type 0 where
  pub ends : Ends w a
  pub begins : has_prefix b w ≡ true
  pub longest : (u v : Text) → u ++ v ≡ a → has_prefix b v ≡ true → length v ≤ length w

-- For all texts a and b, the result ends a, begins b, and no longer text does both.
pub string_overlap-IsOverlap : (a b : Text) → IsOverlap (string_overlap a b) a b
unfolding string_overlap
string_overlap-IsOverlap a b =
    let n = length a - length b in
    record {
      ends =
          let (u, e) = drop-Ends n a in
          let (v, d) = overlap_from-Ends (drop n a) b in
          (u ++ v, append_assoc u v _ ∙ ap (λ t. u ++ t) d ∙ e);
      begins = has_prefix-overlap_from (drop n a) b;
      longest = λ u v e h.
          let short : length v ≤ length b = length-has_prefix b v h in
          let total : length u + length v ≡ length a = sym (length-append u v) ∙ ap length e in
          let split : drop n a ≡ drop n u ++ v =
            sym (ap (drop n) e) ∙ drop-append u v n (omega arith) in
          rw split (overlap_from-longest (drop n u) v b h);
    }
