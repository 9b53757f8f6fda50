-- ===== src/Prelude/Parts.antt =====
-- A list with one element taken out.
use mathlib.Core.Path.{◌≡◌}
use mathlib.Core.Logic.{◌⊎◌, inl, inr}
use mathlib.Core.List.{List, ◌∷◌, ◌++◌}
use Prim.Native.Nat.{suc}
use native.Mathlib.Omega.{arith}
use connaisseur.Prelude.Lists.{
  length, length-append, In, In-append_cases, In-append_left, In-append_right,
}

pub In-parts :
    {A : Type 0} (x y : A) (before after : List A)
    → In x (before ++ y ∷ after)
    → (x ≡ y) ⊎ In x (before ++ after)
In-parts x y before after h = elim (In-append_cases x before (y ∷ after) h) [
  | inl a ↦ inr (In-append_left x before after a)
  | inr (inl e) ↦ inl e
  | inr (inr a) ↦ inr (In-append_right x before after a)
]

pub length-parts :
    {A : Type 0} (y : A) (before after : List A)
    → length (before ++ y ∷ after) ≡ suc (length (before ++ after))
length-parts y before after =
    omega (arith, length-append before (y ∷ after), length-append before after)

pub parts-In :
    {A : Type 0} (x y : A) (before after : List A)
    → In x (before ++ after)
    → In x (before ++ y ∷ after)
parts-In x y before after h = elim (In-append_cases x before after h) [
  | inl a ↦ In-append_left x before (y ∷ after) a
  | inr b ↦ In-append_right x before (y ∷ after) (inr b)
]
