-- ===== src/Utils/Files.antt =====
-- internal/utils/files.go, with filepath.Clean and filepath.Dir for the separator '/'. The working
-- directory and the symbolic links are parameters.
pub mod Within
pub mod Clean
pub mod Folder
use connaisseur.Prelude.{
  Bool, false, ◌||◌, List, [], ◌∷◌, ◌++◌, Text, lit, text_eq, has_prefix, split, join,
  if◌then◌else◌, is_empty, Result, ok, err, ◌>>=◌, map_err,
}

-- all but the last
unfoldable pub leave : List Text → List Text
leave [] = []
leave (c ∷ []) = []
leave (c ∷ d ∷ cs) = c ∷ leave (d ∷ cs)

unfoldable pub last_is_parent : List Text → Bool
last_is_parent [] = false
last_is_parent (c ∷ []) = text_eq c (lit "..")
last_is_parent (c ∷ d ∷ cs) = last_is_parent (d ∷ cs)

-- ".." leaves the last element; where there is none, it is dropped in a rooted path and kept in another
unfoldable pub to_parent : Bool → List Text → List Text
unfolding leave last_is_parent
to_parent rooted cs =
    if is_empty cs || last_is_parent cs
    then (if rooted then leave cs else cs ++ lit ".." ∷ [])
    else leave cs

unfoldable pub clean_parts : Bool → List Text → List Text → List Text
unfolding to_parent
clean_parts rooted done [] = done
clean_parts rooted done (c ∷ cs) =
    clean_parts rooted
      (if is_empty c || text_eq c (lit ".")
        then done
        else if text_eq c (lit "..")
        then to_parent rooted done
        else done ++ c ∷ [])
      cs

abbrev pub is_rooted : Text → Bool
is_rooted path = has_prefix path (lit "/")

-- the elements of filepath.Clean
abbrev pub elements : Text → List Text
elements path = clean_parts (is_rooted path) [] (split path b'/')

abbrev pub or_here : Text → Text
or_here [] = lit "."
or_here (c ∷ s) = c ∷ s

-- filepath.Clean
unfoldable pub clean : Text → Text
unfolding clean_parts
clean path =
    if is_rooted path
    then lit "/" ++ join (elements path) (lit "/")
    else or_here (join (elements path) (lit "/"))

abbrev pub up_to_last : List Text → Text
up_to_last [] = []
up_to_last (c ∷ []) = []
up_to_last (c ∷ d ∷ cs) = join (leave (c ∷ d ∷ cs)) (lit "/") ++ lit "/"

-- filepath.Dir
unfoldable pub dir : Text → Text
unfolding clean
dir path = clean (up_to_last (split path b'/'))

-- the loop over the path elements
unfoldable pub resolve : Text → List Text → Result Text
unfolding clean
resolve path [] = ok path
resolve path (elem ∷ elems) =
    let resolved = clean (path ++ (lit "/" ++ elem)) in
    let rest = resolve resolved elems in
    if has_prefix resolved path
    then rest
    else err
        (lit "path element '" ++ (elem ++ (lit "' goes beyond its parent path element " ++ path)))

-- filepath.Abs and filepath.EvalSymlinks
pub record FileSystem : Type 0 where
  pub abs : Text → Result Text
  pub eval_symlinks : Text → Result Text

abbrev pub failed_to_resolve : Text → Text → Text
failed_to_resolve path e = lit "failed to resolve " ++ (path ++ (lit ": " ++ e))

-- the symbolic link must stay in the folder
unfoldable pub follow : FileSystem → Text → Result Text
unfolding dir
follow fs path =
    let final_dir = dir path ++ lit "/" in
    map_err (failed_to_resolve path) (fs.eval_symlinks path) >>= λ final_path.
    if has_prefix final_path final_dir
    then ok final_path
    else err
        (lit "symlink on " ++ (path ++ (lit " goes beyond its parent directory " ++ final_dir)))

unfoldable pub safe_file_name : FileSystem → Text → List Text → Result Text
unfolding resolve follow
safe_file_name fs base_dir path_elements = do
  base ← map_err (failed_to_resolve base_dir) (fs.abs base_dir)
  path ← resolve base path_elements
  follow fs path
