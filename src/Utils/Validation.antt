-- ===== src/Utils/Validation.antt =====
-- internal/utils/validation.go. The validation library and its translations are parameters.
use connaisseur.Prelude.{
  ℕ, ◌+◌, ◌≡◌, refl, Option, none, some, List, [], ◌∷◌, ◌++◌, arith, Text, lit, decimal, length,
  Result, ok, err, panic,
}

-- the errors of validate.Struct: of the definitions, or of the fields, by their translations
pub data StructError : Type 0 where
  invalid_validation : Text → StructError
  field_errors : List Text → StructError

unfoldable pub messages : Text → ℕ → List Text → Text
messages ty i [] = []
messages ty i (e ∷ es) =
    ty
    ++ (lit " error " ++ (decimal i ++ (lit ": " ++ (e ++ (lit "\n" ++ messages ty (i + 1) es)))))

-- `ty` is the name of the struct's type
unfoldable pub validate_struct : Text → Option StructError → Result {0} Unit
unfolding messages
validate_struct ty none = ok tt
validate_struct ty (some (invalid_validation e)) = panic
validate_struct ty (some (field_errors es)) =
    err (ty ++ (lit " has " ++ (decimal (length es) ++ (lit " errors:\n" ++ messages ty 0 es))))

pub validate_struct-ok :
    (ty : Text) (o : Option StructError) (u : Unit {0}) → validate_struct ty o ≡ ok u → o ≡ none
unfolding validate_struct
validate_struct-ok ty none u h = refl
validate_struct-ok ty (some (invalid_validation e)) u h = absurd (ground arith)
validate_struct-ok ty (some (field_errors es)) u h = absurd (ground arith)
