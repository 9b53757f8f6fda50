-- ===== src/Utils/Strings.antt =====
-- internal/utils/strings.go and int.go. A text is a list of bytes; an index past its end panics.
pub mod Sorting
pub mod Prefix
pub mod Overlap
use connaisseur.Prelude.{
  ℕ, ◌+◌, ◌-◌, ◌/◌, ◌%◌, Bool, true, false, ◌&&◌, ◌||◌, List, [], ◌∷◌, ◌++◌, Text, has_prefix,
  trim_prefix, ltb, ◌==◌, if◌then◌else◌, length, drop, Result, ok, panic, ◌>>=◌,
}

-- internal/utils/int.go
unfoldable pub max : ℕ → ℕ → ℕ
max x y = if ltb y x then x else y

-- the order of Go strings, a ≤ b
unfoldable pub text_le : Text → Text → Bool
text_le [] t = true
text_le (c ∷ s) [] = false
text_le (c ∷ s) (d ∷ t) = ltb c d || (c == d && text_le s t)

pub insert_sorted : Text → List Text → List Text
insert_sorted s [] = s ∷ []
insert_sorted s (t ∷ ts) = if text_le s t then s ∷ t ∷ ts else t ∷ insert_sorted s ts

-- slices.Sort
unfoldable pub sort : List Text → List Text
unfolding insert_sorted text_le
sort [] = []
sort (s ∷ ss) = insert_sorted s (sort ss)

abbrev pub last_of : Text → List Text → Text
last_of s [] = s
last_of s (t ∷ ts) = last_of t ts

-- string(b) of a byte is the UTF-8 text of the code point b
abbrev pub byte_string : ℕ → Text
byte_string b = if ltb b 128 then b ∷ [] else (192 + b / 64) ∷ (128 + b % 64) ∷ []

-- the loop over the bytes of `first`; `last[i]` may be out of range
unfoldable pub common_bytes : Text → Text → Result Text
common_bytes [] l = ok []
common_bytes (a ∷ f) [] = panic
common_bytes (a ∷ f) (b ∷ l) =
    let rest = (do p ← common_bytes f l; ok (byte_string b ++ p)) in if b == a then rest else ok []

abbrev pub ends_common : List Text → Result Text
ends_common [] = ok []
ends_common (s ∷ ss) = common_bytes s (last_of s ss)

unfoldable pub longest_common_prefix : List Text → Result Text
unfolding sort common_bytes
longest_common_prefix strs = ends_common (sort strs)

-- `for i := start; i < len(a); i++`, on the suffix of `a` that begins at `i`
unfoldable pub overlap_from : Text → Text → Text
unfolding has_prefix
overlap_from [] b = []
overlap_from (c ∷ a) b =
    let later = overlap_from a b in if has_prefix b (c ∷ a) then c ∷ a else later

unfoldable pub string_overlap : Text → Text → Text
unfolding overlap_from
string_overlap a b = overlap_from (drop (length a - length b) a) b

unfoldable pub has_prefixes : Text → List Text → Bool
has_prefixes s [] = false
has_prefixes s (p ∷ ps) = has_prefix s p || has_prefixes s ps

unfoldable pub trim_prefixes : Text → List Text → Text
trim_prefixes s [] = s
trim_prefixes s (p ∷ ps) = trim_prefixes (trim_prefix s p) ps

unfoldable pub string_default : Text → Text → Text
string_default [] d = d
string_default (c ∷ s) d = c ∷ s
