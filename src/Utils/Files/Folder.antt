-- ===== src/Utils/Files/Folder.antt =====
-- filepath.Dir of a clean path is the path without its last element.
use connaisseur.Prelude.{
  ℕ, ◌≡◌, refl, sym, ap, subst, ◌∙◌, ◌⊎◌, inl, inr, true, false, ◌||◌, List, [], ◌∷◌, ◌++◌, arith,
  Text, lit, text_eq, has_prefix, split, join, index, ◌==◌, if◌then◌else◌, Bool-cases, Option-cases,
  is_empty, All,
}
use mathlib.Core.List.{append_assoc, append-nil}
use connaisseur.Utils.Files.{to_parent, leave, clean_parts, clean, up_to_last, dir}
use connaisseur.Utils.Files.Clean.{HasNoSlash, IsPlain, IsAbsolute}

-- The elements of the path but the last, or the root itself.
abbrev pub IsFolderOf : Text → Text → Type 0
IsFolderOf path folder =
    ((path ≡ lit "/") × (folder ≡ lit "/"))
    ⊎ ((cs : List Text) × (c : Text) × All IsPlain (cs ++ c ∷ [])
        × (path ≡ lit "/" ++ join (cs ++ c ∷ []) (lit "/"))
        × (folder ≡ lit "/" ++ join cs (lit "/")))

no_slash-tail : (c : ℕ) (s : Text) → HasNoSlash (c ∷ s) → ((c == b'/') ≡ false) × HasNoSlash s
unfolding index
no_slash-tail c s h = elim (Bool-cases (c == b'/')) [
  | inl e ↦ absurd (ground (arith, rw e at h))
  | inr e ↦ (
    e,
    elim (Option-cases (index s b'/')) [
      | inl n ↦ n
      | inr (i, q) ↦ absurd (ground (arith, rw (e, q) at h))
    ],
  )
]

split-no_slash : (s : Text) → HasNoSlash s → split s b'/' ≡ s ∷ []
unfolding split
split-no_slash [] h = refl
split-no_slash (c ∷ s) h = let (e, n) = no_slash-tail c s h in rw (e, split-no_slash s n) refl

split-slash : (s rest : Text) → HasNoSlash s → split (s ++ b'/' ∷ rest) b'/' ≡ s ∷ split rest b'/'
unfolding split
split-slash [] rest h = refl
split-slash (c ∷ s) rest h = let (e, n) = no_slash-tail c s h in rw (e, split-slash s rest n) refl

All-no_slash : (cs : List Text) → All IsPlain cs → All HasNoSlash cs
All-no_slash [] h = tt
All-no_slash (c ∷ cs) ((a, b, p, n), h) = (n, All-no_slash cs h)

split-join :
    (c : Text) (cs : List Text)
    → All HasNoSlash (c ∷ cs)
    → split (join (c ∷ cs) (lit "/")) b'/' ≡ c ∷ cs
unfolding join lit
split-join c [] (n, h) = split-no_slash c n
split-join c (d ∷ cs) (n, h) =
    split-slash c (join (d ∷ cs) (b'/' ∷ [])) n ∙ ap (λ t. c ∷ t) (split-join d cs h)

split-join_slash :
    (c : Text) (cs : List Text)
    → All HasNoSlash (c ∷ cs)
    → split (join (c ∷ cs) (lit "/") ++ lit "/") b'/' ≡ (c ∷ cs) ++ [] ∷ []
unfolding join lit split
split-join_slash c [] (n, h) = split-slash c [] n
split-join_slash c (d ∷ cs) (n, h) =
    ap (λ t. split t b'/') (append_assoc c (b'/' ∷ join (d ∷ cs) (b'/' ∷ [])) (b'/' ∷ []))
    ∙ (split-slash c (join (d ∷ cs) (b'/' ∷ []) ++ b'/' ∷ []) n
        ∙ ap (λ t. c ∷ t) (split-join_slash d cs h))

kept-plain :
    (c : Text) (done : List Text)
    → is_empty c ≡ false
    → text_eq c (lit ".") ≡ false
    → text_eq c (lit "..") ≡ false
    → (if is_empty c || text_eq c (lit ".")
        then done
        else if text_eq c (lit "..")
        then to_parent true done
        else done ++ c ∷ [])
      ≡ done ++ c ∷ []
kept-plain c done a b p = rw (a, b, p) refl

clean_parts-plain :
    (cs done : List Text) → All IsPlain cs → clean_parts true done (cs ++ [] ∷ []) ≡ done ++ cs
unfolding clean_parts
clean_parts-plain [] done h = sym (append-nil done)
clean_parts-plain (c ∷ cs) done ((a, b, p, n), h) =
    ap (λ t. clean_parts true t (cs ++ [] ∷ [])) (kept-plain c done a b p)
    ∙ (clean_parts-plain cs (done ++ c ∷ []) h ∙ append_assoc done (c ∷ []) cs)

-- A clean path with a slash at its end is cleaned to itself.
clean-slash :
    (c : Text) (cs : List Text)
    → All IsPlain (c ∷ cs)
    → clean (lit "/" ++ (join (c ∷ cs) (lit "/") ++ lit "/")) ≡ lit "/" ++ join (c ∷ cs) (lit "/")
unfolding clean lit has_prefix split clean_parts
clean-slash c cs h =
    ap (λ t. b'/' ∷ join (clean_parts true [] t) (b'/' ∷ []))
      (split-join_slash c cs (All-no_slash (c ∷ cs) h))
    ∙ ap (λ t. b'/' ∷ join t (b'/' ∷ [])) (clean_parts-plain (c ∷ cs) [] h)

leave-last : (cs : List Text) (c : Text) → leave (cs ++ c ∷ []) ≡ cs
unfolding leave
leave-last [] c = refl
leave-last (d ∷ []) c = refl
leave-last (d ∷ e ∷ cs) c = ap (λ t. d ∷ t) (leave-last (e ∷ cs) c)

last-parts : (x : Text) (xs : List Text) → (cs : List Text) × (c : Text) × (x ∷ xs ≡ cs ++ c ∷ [])
last-parts x [] = ([], x, refl)
last-parts x (y ∷ ys) = let (cs, c, e) = last-parts y ys in (x ∷ cs, c, ap (λ t. x ∷ t) e)

All-before : (cs : List Text) (c : Text) → All IsPlain (cs ++ c ∷ []) → All IsPlain cs
All-before [] c h = tt
All-before (d ∷ cs) c (p, h) = (p, All-before cs c h)

folder_of :
    (cs : List Text) (x : Text) (xs : List Text)
    → All IsPlain cs
    → leave ([] ∷ x ∷ xs) ≡ [] ∷ cs
    → clean (up_to_last ([] ∷ x ∷ xs)) ≡ lit "/" ++ join cs (lit "/")
unfolding clean lit has_prefix split clean_parts join
folder_of [] x xs h e = ap (λ t. clean (join t (lit "/") ++ lit "/")) e
folder_of (c ∷ cs) x xs h e = ap (λ t. clean (join t (lit "/") ++ lit "/")) e ∙ clean-slash c cs h

pub dir-IsFolderOf : (path : Text) → IsAbsolute path → IsFolderOf path (dir path)
unfolding dir lit split join has_prefix
dir-IsFolderOf path ([], h, e) = inl (e, ap dir e)
dir-IsFolderOf path (x ∷ xs, h, e) =
    let (cs, c, q) = last-parts x xs in
    let plain : All IsPlain (cs ++ c ∷ []) = subst (All IsPlain) q h in
    let parts : split path b'/' ≡ [] ∷ x ∷ xs =
      ap (λ t. split t b'/') e ∙ ap (λ t. [] ∷ t) (split-join x xs (All-no_slash (x ∷ xs) h)) in
    inr (
      cs,
      c,
      plain,
      e ∙ ap (λ t. lit "/" ++ join t (lit "/")) q,
      ap (λ t. clean (up_to_last t)) parts
          ∙ folder_of cs x xs (All-before cs c plain)
              (ap (λ t. leave ([] ∷ t)) q ∙ leave-last ([] ∷ cs) c),
    )
