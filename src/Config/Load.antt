-- ===== src/Config/Load.antt =====
-- internal/config/config.go, Load. The file, the YAML decoder, which knows the fields, and the validation
-- of the struct are parameters.
use connaisseur.Prelude.{
  ◌≡◌, refl, sym, ap, ◌∙◌, ◌⊎◌, inl, inr, Option, none, List, ◌++◌, map, arith, Text, lit, join,
  Result, ok, err, panic,
}
use connaisseur.Utils.Validation.{StructError, validate_struct, validate_struct-ok}
use connaisseur.Utils.Files.{FileSystem, safe_file_name}
use connaisseur.Utils.Files.Clean.{IsAbsolute}
use connaisseur.Utils.Files.Within.{IsWithin, safe_file_name-IsWithin}

pub record Loader (A : Type 0) : Type 0 where
  -- os.Open, with the content
  pub open_file : Text → Text ⊎ Text
  pub decode : Text → A ⊎ Text
  -- the name of A, and what validate.Struct finds in a value
  pub type_name : Text
  pub struct_errors : A → Option StructError
  -- what `%+q` writes for a string
  pub quote : Text → Text

-- logrus.Fatal ends the process
pub data Loaded (A : Type 0) : Type 0 where
  loaded : A → Loaded A
  refused : Text → Loaded A
  exits : Text → Loaded A
  panics : Loaded A

module _ {A : Type 0} (loader : Loader A) where
  abbrev sanitizing : Text → List Text → Text
  sanitizing base_dir elems =
      lit "error sanitizing file with baseDir "
      ++ (base_dir
          ++ (lit " and pathElements [" ++ (join (map loader.quote elems) (lit " ") ++ lit "]")))

  abbrev unless_invalid : A → Result {0} Unit → Loaded A
  unless_invalid a (ok _) = loaded a
  unless_invalid a (err e) = exits e
  unless_invalid a panic = panics

  abbrev decoded : A ⊎ Text → Loaded A
  decoded (inl a) = unless_invalid a (validate_struct loader.type_name (loader.struct_errors a))
  decoded (inr e) = refused (lit "error parsing file: " ++ e)

  abbrev opened : Text ⊎ Text → Loaded A
  opened (inl content) = decoded (loader.decode content)
  opened (inr e) = refused (lit "error loading file: " ++ e)

  abbrev named : Text → List Text → Result Text → Loaded A
  named base_dir elems (ok file) = opened (loader.open_file file)
  named base_dir elems (err e) = refused (sanitizing base_dir elems)
  named base_dir elems panic = panics

  unfoldable pub load : FileSystem → Text → List Text → Loaded A
  unfolding safe_file_name
  load fs base_dir elems = named base_dir elems (safe_file_name fs base_dir elems)

  -- The configuration is decoded from a file that SafeFileName resolved, and it is valid.
  pub record IsLoaded (fs : FileSystem) (base_dir : Text) (a : A) : Type 0 where
    pub file : Text
    pub content : Text
    pub within : IsWithin fs base_dir file
    pub read : loader.open_file file ≡ inl content
    pub decodes : loader.decode content ≡ inl a
    pub valid : loader.struct_errors a ≡ none

  unless_invalid-loaded :
      (b a : A) (r : Result {0} Unit)
      → unless_invalid b r ≡ loaded a
      → ((u : Unit {0}) × (r ≡ ok u)) × (b ≡ a)
  unless_invalid-loaded b a (ok u) h = ((u, refl), cc)
  unless_invalid-loaded b a (err e) h = absurd (ground arith)
  unless_invalid-loaded b a panic h = absurd (ground arith)

  module _ (fs : FileSystem) (base_dir : Text) (elems : List Text)
      (abs_IsAbsolute : (dir base : Text) → fs.abs dir ≡ ok base → IsAbsolute base) (a : A) where
    decoded-IsLoaded :
        (file content : Text) (c : A ⊎ Text)
        → IsWithin fs base_dir file
        → loader.open_file file ≡ inl content
        → loader.decode content ≡ c
        → decoded c ≡ loaded a
        → IsLoaded fs base_dir a
    decoded-IsLoaded file content (inr e) w o d h = absurd (ground arith)
    decoded-IsLoaded file content (inl b) w o d h =
        let ((u, valid), same) =
          unless_invalid-loaded b a (validate_struct loader.type_name (loader.struct_errors b)) h in
        record {
          file = file;
          content = content;
          within = w;
          read = o;
          decodes = d ∙ ap inl same;
          valid =
              ap loader.struct_errors (sym same)
              ∙ validate_struct-ok loader.type_name (loader.struct_errors b) u valid;
        }

    opened-IsLoaded :
        (file : Text) (c : Text ⊎ Text)
        → IsWithin fs base_dir file
        → loader.open_file file ≡ c
        → opened c ≡ loaded a
        → IsLoaded fs base_dir a
    opened-IsLoaded file (inr e) w o h = absurd (ground arith)
    opened-IsLoaded file (inl content) w o h =
        decoded-IsLoaded file content (loader.decode content) w o refl h

    named-IsLoaded :
        (r : Result Text)
        → safe_file_name fs base_dir elems ≡ r
        → named base_dir elems r ≡ loaded a
        → IsLoaded fs base_dir a
    named-IsLoaded (err e) q h = absurd (ground arith)
    named-IsLoaded panic q h = absurd (ground arith)
    named-IsLoaded (ok file) q h =
        opened-IsLoaded file (loader.open_file file)
          (safe_file_name-IsWithin fs base_dir elems file abs_IsAbsolute q) refl h

    -- Let filepath.Abs return an absolute path without "." and "..". A configuration that is loaded was
    -- decoded from the content of a file that SafeFileName resolved in the base directory, and it passed the validation.
    pub load-IsLoaded : load fs base_dir elems ≡ loaded a → IsLoaded fs base_dir a
    unfolding load
    load-IsLoaded h = named-IsLoaded (safe_file_name fs base_dir elems) refl h
