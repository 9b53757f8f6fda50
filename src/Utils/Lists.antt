-- ===== src/Utils/Lists.antt =====
-- internal/utils/list.go. A Go map with no values is the list of its keys; the order in which Go
-- iterates over it is not fixed, and here it is that of the first insertion.
pub mod Subtract
use connaisseur.Prelude.{Bool, false, ◌||◌, List, [], ◌∷◌, ◌++◌, Text, text_eq, if◌then◌else◌}

-- `_, ok := hash[v]`
unfoldable pub has_key : List Text → Text → Bool
has_key [] v = false
has_key (k ∷ ks) v = text_eq k v || has_key ks v

-- `hash[v] = struct{}{}`
unfoldable pub set_key : List Text → Text → List Text
unfolding has_key
set_key ks v = if has_key ks v then ks else ks ++ v ∷ []

unfoldable pub keys_from : List Text → List Text → List Text
keys_from hash [] = hash
keys_from hash (v ∷ vs) = keys_from (set_key hash v) vs

unfoldable pub uniq : List Text → List Text
unfolding keys_from set_key
uniq a = keys_from [] a

unfoldable pub without : List Text → List Text → List Text
without hash [] = []
without hash (v ∷ vs) = let rest = without hash vs in if has_key hash v then rest else v ∷ rest

unfoldable pub set_subtract : List Text → List Text → List Text
unfolding uniq without has_key
set_subtract a b = without (uniq b) (uniq a)
