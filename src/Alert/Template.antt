-- ===== src/Alert/Template.antt =====
-- internal/alert/template.go: the templates are rewritten from Jinja to Go. The regular expression
-- `{{[^{}]*}}` is matched by hand, and strcase.ToCamel is a parameter.
use connaisseur.Prelude.{
  ℕ, zero, suc, ◌-◌, ◌≡◌, refl, ap, ◌∙◌, ◌⊎◌, inl, inr, Bool, false, ◌||◌, Option, none, some, [],
  ◌∷◌, ◌++◌, arith, Text, lit, has_prefix, contains, ◌==◌, if◌then◌else◌, Bool-cases, length, drop,
  Result, ok, err, ◌>>=◌, map_err,
}
use connaisseur.Constants.{alert_template_dir}
use connaisseur.Utils.Files.{FileSystem, safe_file_name}

abbrev is_brace : ℕ → Bool
is_brace c = (c == b'{') || (c == b'}')

-- the longest run of bytes that are no braces, and the rest
unfoldable pub plain_run : Text → Text × Text
plain_run [] = ([], [])
plain_run (c ∷ s) =
    let (run, rest) = plain_run s in if is_brace c then ([], c ∷ s) else (c ∷ run, rest)

abbrev closed : Text × Text → Option Text
closed (run, rest) =
    if has_prefix rest (lit "}}") then some (lit "{{" ++ (run ++ lit "}}")) else none

-- the match that begins here
unfoldable pub match_at : Text → Option Text
unfolding plain_run
match_at s = if has_prefix s (lit "{{") then closed (plain_run (drop 2 s)) else none

abbrev after_first : Text → ℕ
after_first m = length m - 1

-- ReplaceAllFunc; `skip` bytes belong to the last match
unfoldable pub replace_all : (Text → Text) → ℕ → Text → Text
unfolding match_at
replace_all f skip [] = []
replace_all f (suc skip) (c ∷ s) = replace_all f skip s
replace_all f zero (c ∷ s) = elim (match_at (c ∷ s)) [
  | none ↦ c ∷ replace_all f 0 s
  | some m ↦ f m ++ replace_all f (after_first m) s
]

-- strings.TrimSpace leaves a match as it is, since it begins and ends with braces
abbrev pub transform_jinja_to_go : (Text → Text) → Text → Text
transform_jinja_to_go to_camel match = lit "{{ ." ++ (to_camel match ++ lit " }}")

unfoldable pub transform_template :
    FileSystem → (Text → Text ⊎ Text) → (Text → Text) → Text → Result Text
unfolding replace_all
transform_template fs read_file to_camel template =
    map_err (λ e. lit "unable to get template file: " ++ e)
      (safe_file_name fs alert_template_dir ((template ++ lit ".json") ∷ []))
    >>= λ path. elim (read_file path) [
      | inr e ↦ err (lit "failed to read template file: " ++ e)
      | inl bytes ↦ ok (replace_all (transform_jinja_to_go to_camel) 0 bytes)
    ]

contains-false :
    (c : ℕ) (s p : Text)
    → contains (c ∷ s) p ≡ false
    → (has_prefix (c ∷ s) p ≡ false) × (contains s p ≡ false)
unfolding contains
contains-false c s p h = elim (Bool-cases (has_prefix (c ∷ s) p)) [
  | inl e ↦ absurd (ground (arith, rw e at h))
  | inr e ↦ (e, rw e at h)
]

-- A text without two opening braces after one another is left as it is.
pub replace_all-unchanged :
    (f : Text → Text) (s : Text) → contains s (lit "{{") ≡ false → replace_all f 0 s ≡ s
unfolding replace_all match_at
replace_all-unchanged f [] h = refl
replace_all-unchanged f (c ∷ s) h =
    let (here, later) = contains-false c s (lit "{{") h in
    ap
      (λ b. elim (if b then closed (plain_run (drop 2 (c ∷ s))) else none) as (λ _. Text) [
        | none ↦ c ∷ replace_all f 0 s
        | some m ↦ f m ++ replace_all f (after_first m) s
      ])
      here
    ∙ ap (λ t. c ∷ t) (replace_all-unchanged f s later)
