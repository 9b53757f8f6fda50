-- ===== src/Policy/Build.antt =====
-- `new_match` builds a well-formed match, without a panic where the pattern has no more components
-- than the image.
use connaisseur.Prelude.{
  ℕ, suc, ◌≤◌, ◌<◌, ◌≡◌, refl, ap, inl, inr, true, List, [], ◌∷◌, ◌++◌, map, arith, Text, split,
  push, ◌==◌, Bool-cases, length, All, ok, panic,
}
use connaisseur.Utils.Strings.Prefix.{IsAscii, longest_common_prefix-IsCommonPrefix}
use connaisseur.Utils.Strings.{text_le, longest_common_prefix}
use connaisseur.Policy.{Rule, empty_rule, Match, shared_lengths, new_match}
use connaisseur.Policy.Order.{key, IsMatch}

length-map {ℓ κ} :
    {A : Type ℓ} {B : Type κ} (xs : List A) (f : A → B) → length (map f xs) ≡ length xs
length-map [] f = refl
length-map (x ∷ xs) f = ap suc (length-map xs f)

-- The components of a pattern and an image between which the prefixes are taken.
pub record Fits (pattern image : Text) : Type 0 where
  pub pattern_ascii : All IsAscii (split pattern b'/')
  pub image_ascii : All IsAscii (split image b'/')
  pub enough : length (split pattern b'/') ≤ length (split image b'/')

length-split : (s : Text) (sep : ℕ) → 1 ≤ length (split s sep)
unfolding split
length-split [] sep = omega arith
length-split (c ∷ s) sep = elim (Bool-cases (c == sep)) [
  | inl e ↦ rw e (omega arith)
  | inr e ↦ rw e (go (split s sep))
]
  where
    go : (ws : List Text) → 1 ≤ length (push c ws)
    go [] = omega arith
    go (w ∷ ws) = omega arith

shared_lengths-total :
    (cs is : List Text)
    → All IsAscii cs
    → All IsAscii is
    → length cs ≤ length is
    → (pl : List ℕ) × (shared_lengths cs is ≡ ok pl) × (length pl ≡ length cs)
unfolding shared_lengths
shared_lengths-total [] is a b h = ([], refl, refl)
shared_lengths-total (c ∷ cs) [] a b h = absurd (omega arith)
shared_lengths-total (c ∷ cs) (i ∷ is) a b h =
    let (p, e, _) = longest_common_prefix-IsCommonPrefix c (i ∷ []) (a.0, (b.0, tt)) in
    let (pl, d, n) = shared_lengths-total cs is a.1 b.1 (omega arith) in
    (length p ∷ pl, rw (e, d) refl, ap suc n)

-- A pattern that fits the image gives a well-formed match for its rule.
pub new_match-Fits :
    (rule : Rule) (image : Text)
    → Fits rule.pattern image
    → (m : Match) × (new_match rule image ≡ ok m) × IsMatch m × (m.rule ≡ rule)
unfolding new_match
new_match-Fits rule image f =
    let (pl, e, n) =
      shared_lengths-total (split rule.pattern b'/') (split image b'/') f.pattern_ascii
        f.image_ascii f.enough in
    (
      record {
        rule = rule;
        component_count = length (split rule.pattern b'/');
        component_lengths = map length (split rule.pattern b'/');
        prefix_lengths = pl;
      },
      rw e refl,
      record {
        prefixes_counted = n;
        lengths_counted = length-map _ length;
        not_empty = length-split rule.pattern b'/';
      },
      refl,
    )

shared_lengths-short :
    (cs is : List Text)
    → All IsAscii cs
    → All IsAscii is
    → length is < length cs
    → shared_lengths cs is ≡ panic
unfolding shared_lengths
shared_lengths-short [] is a b h = absurd (omega arith)
shared_lengths-short (c ∷ cs) [] a b h = refl
shared_lengths-short (c ∷ cs) (i ∷ is) a b h =
    let (p, e, _) = longest_common_prefix-IsCommonPrefix c (i ∷ []) (a.0, (b.0, tt)) in
    rw (e, shared_lengths-short cs is a.1 b.1 (omega arith)) refl

-- A pattern with more components than the image makes `new_match` panic.
pub new_match-panic :
    (rule : Rule) (image : Text)
    → All IsAscii (split rule.pattern b'/')
    → All IsAscii (split image b'/')
    → length (split image b'/') < length (split rule.pattern b'/')
    → new_match rule image ≡ panic
unfolding new_match
new_match-panic rule image a b h = rw (shared_lengths-short _ _ a b h) refl

-- The match with which the search for a rule begins.
pub start_match :
    (m : Match) × (new_match empty_rule [] ≡ ok m)
    × IsMatch m
    × (key m ≡ 1 ∷ 0 ∷ 0 ∷ [])
    × (m.rule ≡ empty_rule)
unfolding new_match longest_common_prefix split
start_match = (
  record {
    rule = empty_rule;
    component_count = 1;
    component_lengths = 0 ∷ [];
    prefix_lengths = 0 ∷ [];
  },
  refl,
  record { prefixes_counted = refl; lengths_counted = refl; not_empty = omega arith },
  refl,
  refl,
)

least_key :
    (n : ℕ) (ps ls : List ℕ)
    → 1 ≤ n
    → length ps ≡ n
    → length ls ≡ n
    → text_le (1 ∷ 0 ∷ 0 ∷ []) (n ∷ (ps ++ ls)) ≡ true
unfolding text_le
least_key n [] ls h p l = absurd (omega arith)
least_key n (a ∷ ps) [] h p l = absurd (omega arith)
least_key n (a ∷ []) (b ∷ ls) h p l = ground arith
least_key n (a ∷ b ∷ ps) (c ∷ ls) h p l = ground arith

-- Every match is at least as specific as the first.
pub start_least : (m : Match) → IsMatch m → text_le (1 ∷ 0 ∷ 0 ∷ []) (key m) ≡ true
start_least m w =
    least_key m.component_count m.prefix_lengths m.component_lengths w.not_empty w.prefixes_counted
      w.lengths_counted
