-- ===== src/Validators/TrustRoots.antt =====
-- internal/validator/auth/trust_root.go: the choice of trust roots by their names.
pub mod Names
pub mod Total
use connaisseur.Prelude.{
  ℕ, ◌+◌, Bool, true, false, ◌&&◌, List, [], ◌∷◌, ◌++◌, Text, lit, text_eq, join, ltb,
  if◌then◌else◌, length, is_empty, Result, ok, err, ◌>>=◌,
}

pub record Keyless : Type 0 where
  pub issuer : Text
  pub subject : Text
  pub issuer_regex : Text
  pub subject_regex : Text

pub record TrustRoot : Type 0 where
  pub name : Text
  pub key : Text
  pub cert : Text
  pub ts_cert : Text
  pub keyless : Keyless

-- the inner loop: the first trust root of this name is appended
unfoldable pub append_root : List TrustRoot → Text → List TrustRoot → List TrustRoot
append_root [] key_ref found = found
append_root (tr ∷ trs) key_ref found =
    let later = append_root trs key_ref found in
    if text_eq tr.name key_ref then found ++ tr ∷ [] else later

-- the outer loop, from the index `idx`
unfoldable pub collect_roots :
    List TrustRoot → ℕ → List Text → List TrustRoot → Result (List TrustRoot)
unfolding append_root
collect_roots trust_roots idx [] found = ok found
collect_roots trust_roots idx (key_ref ∷ key_refs) found =
    let found' = append_root trust_roots key_ref found in
    let rest = collect_roots trust_roots (idx + 1) key_refs found' in
    if ltb (length found') (idx + 1)
    then err (lit "unable to find trust root " ++ key_ref)
    else rest

abbrev pub no_key_ref : List Text → Bool
no_key_ref [] = true
no_key_ref (r ∷ []) = is_empty r
no_key_ref (r ∷ s ∷ rs) = false

-- the all-quantifier, which counts only where it stands alone
abbrev pub is_wildcard : List Text → Bool
is_wildcard [] = false
is_wildcard (r ∷ []) = text_eq r (lit "*")
is_wildcard (r ∷ s ∷ rs) = false

abbrev pub effective_refs : List Text → Bool → List Text
effective_refs key_refs use_default =
    if no_key_ref key_refs && use_default then lit "default" ∷ [] else key_refs

abbrev pub or_undefined : List Text → List TrustRoot → Result (List TrustRoot)
or_undefined refs [] =
    err (lit "no trust roots defined for key references [" ++ (join refs (lit " ") ++ lit "]"))
or_undefined refs (tr ∷ trs) = ok (tr ∷ trs)

unfoldable pub get_trust_roots : List Text → List TrustRoot → Bool → Result (List TrustRoot)
unfolding collect_roots
get_trust_roots key_refs trust_roots use_default =
    let refs = effective_refs key_refs use_default in
    if is_wildcard refs
    then ok trust_roots
    else do found ← collect_roots trust_roots 0 refs []; or_undefined refs found
