-- ===== src/Utils/Files/Clean.antt =====
-- What filepath.Clean makes of an absolute path.
use connaisseur.Prelude.{
  ℕ, ◌≡◌, refl, ap, inl, inr, Bool, true, false, ◌||◌, none, List, [], ◌∷◌, ◌++◌, arith, Text, lit,
  text_eq, split, push, join, index, ◌==◌, if◌then◌else◌, Bool-cases, is_empty, All, All-append,
}
use connaisseur.Utils.Files.{
  or_here, last_is_parent, leave, to_parent, clean_parts, is_rooted, clean,
}

-- An element that names something: neither empty nor "." nor "..", and without a slash.
abbrev pub IsPlain : Text → Type 0
IsPlain c =
    (is_empty c ≡ false)
    × (text_eq c (lit ".") ≡ false)
    × (text_eq c (lit "..") ≡ false)
    × (index c b'/' ≡ none)

abbrev pub HasNoSlash : Text → Type 0
HasNoSlash c = index c b'/' ≡ none

push-HasNoSlash :
    (c : ℕ) (ws : List Text) → (c == b'/') ≡ false → All HasNoSlash ws → All HasNoSlash (push c ws)
unfolding index
push-HasNoSlash c [] e h = (ground arith, tt)
push-HasNoSlash c (w ∷ ws) e (n, h) = (ground arith, h)

split-HasNoSlash : (s : Text) → All HasNoSlash (split s b'/')
unfolding split index
split-HasNoSlash [] = (refl, tt)
split-HasNoSlash (c ∷ s) = elim (Bool-cases (c == b'/')) [
  | inl e ↦ rw e (refl, split-HasNoSlash s)
  | inr e ↦ rw e (push-HasNoSlash c (split s b'/') e (split-HasNoSlash s))
]

leave-All : (cs : List Text) → All IsPlain cs → All IsPlain (leave cs)
unfolding leave
leave-All [] h = tt
leave-All (c ∷ []) h = tt
leave-All (c ∷ d ∷ cs) (p, h) = (p, leave-All (d ∷ cs) h)

to_parent-All : (cs : List Text) → All IsPlain cs → All IsPlain (to_parent true cs)
unfolding to_parent
to_parent-All cs h = if_same (is_empty cs || last_is_parent cs)
  where
    if_same : (b : Bool) → All IsPlain (if b then leave cs else leave cs)
    if_same true = leave-All cs h
    if_same false = leave-All cs h

clean_parts-IsPlain :
    (cs done : List Text)
    → All HasNoSlash cs
    → All IsPlain done
    → All IsPlain (clean_parts true done cs)
unfolding clean_parts
clean_parts-IsPlain [] done n h = h
clean_parts-IsPlain (c ∷ cs) done n h =
    clean_parts-IsPlain cs _ n.1
      (of_element (is_empty c) (text_eq c (lit ".")) (text_eq c (lit "..")) refl refl refl)
  where
    of_element :
        (a b p : Bool)
        → is_empty c ≡ a
        → text_eq c (lit ".") ≡ b
        → text_eq c (lit "..") ≡ p
        → All IsPlain (if a || b then done else if p then to_parent true done else done ++ c ∷ [])
    of_element true b p q r s = h
    of_element false true p q r s = h
    of_element false false true q r s = to_parent-All done h
    of_element false false false q r s = All-append IsPlain done (c ∷ []) h ((q, r, s, n.0), tt)

-- A rooted path without "." and "..": the slash, and the elements between slashes, joined by it.
abbrev pub IsAbsolute : Text → Type 0
IsAbsolute path = (cs : List Text) × All IsPlain cs × (path ≡ lit "/" ++ join cs (lit "/"))

pub clean-IsAbsolute : (path : Text) → is_rooted path ≡ true → IsAbsolute (clean path)
unfolding clean
clean-IsAbsolute path h =
    let cs = split path b'/' in
    (
      clean_parts true [] cs,
      clean_parts-IsPlain cs [] (split-HasNoSlash path) tt,
      ap
          (λ b.
            if b
            then lit "/" ++ join (clean_parts b [] cs) (lit "/")
            else or_here (join (clean_parts b [] cs) (lit "/")))
          h,
    )
