-- ===== src/Utils/Files/Within.antt =====
-- A file name that is safe lies below its base directory, as far as a prefix tells.
use connaisseur.Prelude.{
  ◌≡◌, sym, ap, subst, ◌∙◌, inl, inr, true, List, [], ◌∷◌, ◌++◌, arith, Text, lit, has_prefix, join,
  Bool-cases, length, drop, ok, map_err, >>=-eq-ok, map_err-eq-ok, ok-injective, has_prefix-append,
  has_prefix-eq,
}
use mathlib.Core.List.{append_assoc, append-nil}
use connaisseur.Utils.Files.Clean.{IsAbsolute, clean-IsAbsolute}
use connaisseur.Utils.Files.Folder.{IsFolderOf, dir-IsFolderOf}
use connaisseur.Utils.Files.{is_rooted, clean, dir, resolve, FileSystem, follow, safe_file_name}

has_prefix_trans :
    (r p b : Text) → has_prefix r p ≡ true → has_prefix p b ≡ true → has_prefix r b ≡ true
has_prefix_trans r p b h k =
    let whole = has_prefix-eq r p h ∙ ap (λ t. t ++ drop (length p) r) (has_prefix-eq p b k) in
    ap (λ t. has_prefix t b) (whole ∙ append_assoc b (drop (length b) p) (drop (length p) r))
    ∙ has_prefix-append b (drop (length b) p ++ drop (length p) r)

IsAbsolute-rooted : (path : Text) → IsAbsolute path → is_rooted path ≡ true
IsAbsolute-rooted path (cs, plain, same) =
    ap is_rooted same ∙ has_prefix-append (lit "/") (join cs (lit "/"))

has_prefix_refl : (s : Text) → has_prefix s s ≡ true
has_prefix_refl s = ap (λ t. has_prefix t s) (sym (append-nil s)) ∙ has_prefix-append s []

resolve-IsAbsolute :
    (elems : List Text) (path p : Text)
    → IsAbsolute path
    → resolve path elems ≡ ok p
    → IsAbsolute p × (has_prefix p path ≡ true)
unfolding resolve
resolve-IsAbsolute [] path p a h =
    let same = ok-injective h in
    (subst IsAbsolute same a, subst (λ t. has_prefix t path ≡ true) same (has_prefix_refl path))
resolve-IsAbsolute (elem ∷ elems) path p a h =
    let joined = path ++ (lit "/" ++ elem) in
    let resolved = clean joined in
    let absolute = clean-IsAbsolute joined (
      has_prefix_trans joined path (lit "/") (has_prefix-append path (lit "/" ++ elem))
        (IsAbsolute-rooted path a)) in
    elim (Bool-cases (has_prefix resolved path)) [
      | inl e ↦
          let (below, within) = resolve-IsAbsolute elems resolved p absolute (rw e at h) in
          (below, has_prefix_trans p resolved path within e)
      | inr e ↦ absurd (ground (arith, rw e at h))
    ]

-- The base directory is absolute; the path that is described has no "." and "..", and begins with the
-- base; the file is what the path's symbolic links lead to, and begins with the path's folder.
pub record IsWithin (fs : FileSystem) (base_dir file : Text) : Type 0 where
  pub base : Text
  pub path : Text
  pub resolved_base : fs.abs base_dir ≡ ok base
  pub absolute : IsAbsolute path
  pub below : has_prefix path base ≡ true
  pub followed : fs.eval_symlinks path ≡ ok file
  pub folder : Text
  pub its_folder : IsFolderOf path folder
  pub in_folder : has_prefix file (folder ++ lit "/") ≡ true

follow-ok :
    (fs : FileSystem) (path file : Text)
    → follow fs path ≡ ok file
    → (fs.eval_symlinks path ≡ ok file) × (has_prefix file (dir path ++ lit "/") ≡ true)
unfolding follow
follow-ok fs path file h =
    let (f, a, k) = >>=-eq-ok (map_err _ (fs.eval_symlinks path)) _ h in
    elim (Bool-cases (has_prefix f (dir path ++ lit "/"))) [
      | inl e ↦
          let same = ok-injective (rw e at k) in
          (
            map_err-eq-ok _ (fs.eval_symlinks path) a ∙ ap ok same,
            subst (λ t. has_prefix t (dir path ++ lit "/") ≡ true) same e,
          )
      | inr e ↦ absurd (ground (arith, rw e at k))
    ]

-- Let filepath.Abs return an absolute path that is clean: its elements are not empty, "." or ".." and have
-- no slash. Where a file name is safe, the path elements lead to such a path too, which begins with the base directory, and its symbolic links lead to
-- the file, which begins with the path without its last element, and a slash.
pub safe_file_name-IsWithin :
    (fs : FileSystem) (base_dir : Text) (elems : List Text) (file : Text)
    → ((dir base : Text) → fs.abs dir ≡ ok base → IsAbsolute base)
    → safe_file_name fs base_dir elems ≡ ok file
    → IsWithin fs base_dir file
unfolding safe_file_name
safe_file_name-IsWithin fs base_dir elems file abs_IsAbsolute h =
    let (base, a, h1) = >>=-eq-ok (map_err _ (fs.abs base_dir)) _ h in
    let (path, b, h2) = >>=-eq-ok (resolve base elems) _ h1 in
    let resolved_base = map_err-eq-ok _ (fs.abs base_dir) a in
    let (absolute, below) =
      resolve-IsAbsolute elems base path (abs_IsAbsolute base_dir base resolved_base) b in
    let (followed, in_folder) = follow-ok fs path file h2 in
    record {
      base = base;
      path = path;
      resolved_base = resolved_base;
      absolute = absolute;
      below = below;
      followed = followed;
      folder = dir path;
      its_folder = dir-IsFolderOf path absolute;
      in_folder = in_folder;
    }
