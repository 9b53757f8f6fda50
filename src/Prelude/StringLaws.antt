-- ===== src/Prelude/StringLaws.antt =====
-- Laws of the functions on texts.
use Prim.Native.Nat.{ℕ, zero, suc, ◌-◌}
use mathlib.Core.Path.{◌≡◌, refl, ap, ◌∙◌}
use mathlib.Core.Bool.{true}
use mathlib.Core.Option.{some}
use mathlib.Core.List.{[], ◌∷◌, ◌++◌}
use native.Mathlib.Omega.{arith}
use connaisseur.Prelude.Tests.{leb}
use connaisseur.Prelude.Lists.{length, take, drop, length-append}
use connaisseur.Prelude.Strings.{
  Text, text_eq_iff, has_suffix, text_eq_refl, has_prefix, trim_prefix, trim_suffix, index,
}

pub has_prefix-append : (p s : Text) → has_prefix (p ++ s) p ≡ true
unfolding has_prefix
has_prefix-append [] s = refl
has_prefix-append (c ∷ p) s = ground (arith, has_prefix-append p s)

pub drop-append_length : (p s : Text) → drop (length p) (p ++ s) ≡ s
drop-append_length [] s = refl
drop-append_length (c ∷ p) s = drop-append_length p s

pub take-append_length : (p s : Text) → take (length p) (p ++ s) ≡ p
take-append_length [] s = refl
take-append_length (c ∷ p) s = ap (λ t. c ∷ t) (take-append_length p s)

pub trim_prefix-append : (p s : Text) → trim_prefix (p ++ s) p ≡ s
unfolding trim_prefix
trim_prefix-append p s = rw (has_prefix-append p s) (drop-append_length p s)

-- A text begins with `p` exactly when it is `p` and a rest.
pub has_prefix-eq : (s p : Text) → has_prefix s p ≡ true → s ≡ p ++ drop (length p) s
unfolding has_prefix
has_prefix-eq s [] h = refl
has_prefix-eq [] (c ∷ p) h = ground arith
has_prefix-eq (d ∷ s) (c ∷ p) h = ground (arith, has_prefix-eq s p)

pub trim_suffix-append : (s p : Text) → trim_suffix (s ++ p) p ≡ s
unfolding trim_suffix
trim_suffix-append s p =
    let n : length (s ++ p) - length p ≡ length s = omega (arith, length-append s p) in
    let fits : leb (length p) (length (s ++ p)) ≡ true = ground (arith, length-append s p) in
    rw (n, fits, drop-append_length s p, text_eq_refl p) (take-append_length s p)

pub has_suffix-append : (s p : Text) → has_suffix (s ++ p) p ≡ true
unfolding has_suffix
has_suffix-append s p =
    let n : length (s ++ p) - length p ≡ length s = omega (arith, length-append s p) in
    let fits : leb (length p) (length (s ++ p)) ≡ true = ground (arith, length-append s p) in
    rw (n, fits, drop-append_length s p) (text_eq_refl p)

take-drop : (n : ℕ) (s : Text) → s ≡ take n s ++ drop n s
take-drop zero s = refl
take-drop (suc n) [] = refl
take-drop (suc n) (c ∷ s) = ap (λ t. c ∷ t) (take-drop n s)

-- A text that ends with `p` is what is left without it, and `p`.
pub has_suffix-eq : (s p : Text) → has_suffix s p ≡ true → s ≡ trim_suffix s p ++ p
unfolding has_suffix trim_suffix
has_suffix-eq s p h =
    let n = length s - length p in
    let rest : drop n s ≡ p = (text_eq_iff (drop n s) p).0 (ground arith) in
    rw h (take-drop n s ∙ ap (λ t. take n s ++ t) rest)

-- The parts before and after the byte that `index` finds.
pub index-parts : (s : Text) (c i : ℕ) → index s c ≡ some i → take i s ++ c ∷ drop (suc i) s ≡ s
unfolding index
index-parts [] c i h = ground arith
index-parts (d ∷ s) c zero h = ground arith
index-parts (d ∷ s) c (suc i) h = ground (arith, index-parts s c i)
