-- ===== src/Validators/TrustRoots/Total.antt =====
-- The choice of trust roots does not panic.
use connaisseur.Prelude.{
  ℕ, ◌+◌, ◌≢◌, Bool, List, [], ◌∷◌, Text, ltb, length, >>=-no_panic, ok-no_panic, err-no_panic,
  if-no_panic, panic,
}
use connaisseur.Validators.TrustRoots.{
  TrustRoot, append_root, collect_roots, or_undefined, effective_refs, is_wildcard, get_trust_roots,
}

collect_roots-no_panic :
    (trs : List TrustRoot) (i : ℕ) (refs : List Text) (found : List TrustRoot)
    → collect_roots trs i refs found ≢ panic
unfolding collect_roots
collect_roots-no_panic trs i [] found = ok-no_panic found
collect_roots-no_panic trs i (r ∷ refs) found =
    if-no_panic (ltb (length (append_root trs r found)) (i + 1)) _ _ (err-no_panic _)
      (collect_roots-no_panic trs (i + 1) refs (append_root trs r found))

or_undefined-no_panic : (refs : List Text) (trs : List TrustRoot) → or_undefined refs trs ≢ panic
or_undefined-no_panic refs [] = err-no_panic _
or_undefined-no_panic refs (tr ∷ trs) = ok-no_panic _

pub get_trust_roots-no_panic :
    (refs : List Text) (trs : List TrustRoot) (b : Bool) → get_trust_roots refs trs b ≢ panic
unfolding get_trust_roots
get_trust_roots-no_panic refs trs b =
    if-no_panic (is_wildcard (effective_refs refs b)) _ _ (ok-no_panic trs) (
      >>=-no_panic (collect_roots trs 0 (effective_refs refs b) []) _
        (collect_roots-no_panic trs 0 (effective_refs refs b) [])
        (λ found q. or_undefined-no_panic (effective_refs refs b) found))
