-- ===== src/Utils/Json.antt =====
-- internal/utils/strings.go, JsonEscapeString: a string as encoding/json writes it, without its quotes
-- and with no escapes for HTML. The text is valid UTF-8.
use connaisseur.Prelude.{
  ℕ, ◌+◌, ◌/◌, ◌%◌, Bool, ◌&&◌, ◌||◌, [], ◌∷◌, ◌++◌, Text, lit, ltb, ◌==◌, if◌then◌else◌,
}

abbrev hex_digit : ℕ → ℕ
hex_digit n = if ltb n 10 then 48 + n else 87 + n

unfoldable pub escape_byte : ℕ → Text
escape_byte c =
    if c == 34
    then lit "\\\""
    else if c == 92
    then lit "\\\\"
    else if c == 8
    then lit "\\b"
    else if c == 12
    then lit "\\f"
    else if c == 10
    then lit "\\n"
    else if c == 13
    then lit "\\r"
    else if c == 9
    then lit "\\t"
    else if ltb c 32
    then lit "\\u00" ++ (hex_digit (c / 16) ∷ hex_digit (c % 16) ∷ [])
    else c ∷ []

-- the bytes of U+2028 and U+2029, which are escaped too
abbrev is_separator : ℕ → ℕ → ℕ → Bool
is_separator a b c = a == 226 && (b == 128 && (c == 168 || c == 169))

unfoldable pub json_escape_string : Text → Text
unfolding escape_byte
json_escape_string [] = []
json_escape_string (a ∷ b ∷ c ∷ s) =
    let separator = lit "\\u202" ++ ((if c == 168 then b'8' else b'9') ∷ json_escape_string s) in
    let rest = escape_byte a ++ json_escape_string (b ∷ c ∷ s) in
    if is_separator a b c then separator else rest
json_escape_string (a ∷ s) = escape_byte a ++ json_escape_string s
