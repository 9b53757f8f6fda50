-- ===== src/Tests/Utils.antt =====
-- The helpers on texts and lists.
use connaisseur.Prelude.{
  ◌≡◌, refl, subst, ◌↔◌, true, List, [], ◌∷◌, Text, lit, text_eq, has_prefix, split, join, index,
  In, ok, ok-injective,
}
use connaisseur.Utils.Logging.{Level, IsLevelOf, redirected, streams_at, redirected-severity}
use connaisseur.Alert.Template.{replace_all, transform_jinja_to_go}
use connaisseur.Utils.Files.{FileSystem, safe_file_name}
use connaisseur.Utils.Files.Clean.{IsAbsolute}
use connaisseur.Utils.Files.Within.{IsWithin, safe_file_name-IsWithin}
use connaisseur.Utils.Strings.{longest_common_prefix, string_overlap}
use connaisseur.Utils.Strings.Prefix.{IsCommonPrefix, longest_common_prefix-IsCommonPrefix}
use connaisseur.Utils.Strings.Overlap.{IsOverlap, string_overlap-IsOverlap}
use connaisseur.Utils.Lists.{set_subtract}
use connaisseur.Utils.Lists.Subtract.{In-set_subtract_iff}
use connaisseur.Tests.Samples.{no_env, is_ascii, is_ascii-IsAscii}

abbrev registry : Text
registry = lit "docker.io/library"

abbrev repository : Text
repository = lit "library/nginx"

string_overlap_example : IsOverlap (string_overlap registry repository) registry repository
string_overlap_example = string_overlap-IsOverlap registry repository

registry_ascii : is_ascii registry ≡ true
unfolding is_ascii lit
registry_ascii = refl

repository_ascii : is_ascii repository ≡ true
unfolding is_ascii lit
repository_ascii = refl

longest_common_prefix_example :
    (p : Text) × (longest_common_prefix (registry ∷ repository ∷ []) ≡ ok p)
    × IsCommonPrefix p (registry ∷ repository ∷ [])
longest_common_prefix_example =
    longest_common_prefix-IsCommonPrefix registry (repository ∷ [])
      (is_ascii-IsAscii registry registry_ascii, (is_ascii-IsAscii repository repository_ascii, tt))

abbrev some_names : List Text
some_names = lit "alice" ∷ lit "bob" ∷ lit "alice" ∷ []

set_subtract_example :
    In (lit "bob") (set_subtract some_names (lit "alice" ∷ []))
    ↔ (In (lit "bob") some_names × (¬ In (lit "bob") (lit "alice" ∷ [])))
set_subtract_example = In-set_subtract_iff some_names (lit "alice" ∷ []) (lit "bob")

set_subtract_run : set_subtract some_names (lit "alice" ∷ []) ≡ lit "bob" ∷ []
unfolding set_subtract lit text_eq
set_subtract_run = refl

-- an absolute base directory, and no symbolic links
abbrev plain_files : FileSystem
plain_files = record { abs = λ dir. ok (lit "/app/secrets"); eval_symlinks = λ path. ok path }

abs_secrets : (dir base : Text) → plain_files.abs dir ≡ ok base → IsAbsolute base
unfolding lit text_eq join connaisseur.Prelude.index
abs_secrets dir base h = subst IsAbsolute (ok-injective h) (
  lit "app" ∷ lit "secrets" ∷ [],
  ((refl, refl, refl, refl), ((refl, refl, refl, refl), tt)),
  refl,
)

safe_file_name_example : IsWithin plain_files (lit "secrets") (lit "/app/secrets/a/b.yaml")
unfolding safe_file_name connaisseur.Prelude.has_prefix lit join connaisseur.Prelude.split text_eq
safe_file_name_example =
    safe_file_name-IsWithin plain_files (lit "secrets") (lit "a" ∷ lit "x/../b.yaml" ∷ [])
      (lit "/app/secrets/a/b.yaml") abs_secrets refl

-- a folder beside the base directory whose name begins with the base's
sibling_run :
    safe_file_name plain_files (lit "secrets") (lit "../secrets-of-others/key" ∷ [])
    ≡ ok (lit "/app/secrets-of-others/key")
unfolding safe_file_name connaisseur.Prelude.has_prefix lit join connaisseur.Prelude.split text_eq
sibling_run = refl

logging_example : (l : Level) × IsLevelOf [] l × (redirected no_env ≡ streams_at l)
logging_example = redirected-severity no_env

-- a template of Jinja, and what it becomes
template_run :
    replace_all
      (transform_jinja_to_go (λ m. lit "AlertMessage"))
      0
      (lit "{\"a\":\"{{ alert_message }}\"}")
    ≡ lit "{\"a\":\"{{ .AlertMessage }}\"}"
unfolding lit replace_all has_prefix
template_run = refl
