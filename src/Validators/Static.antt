-- ===== src/Validators/Static.antt =====
-- internal/validator/staticvalidator/static_validator.go.
use connaisseur.Prelude.{Bool, Text, lit, if◌then◌else◌, ok, err}
use connaisseur.Validators.Interface.{Validate}

pub record StaticValidator : Type 0 where
  pub name : Text
  pub type : Text
  pub approve : Bool

unfoldable pub validate_image : StaticValidator → Validate
validate_image sv img opts = (if sv.approve then ok img.digest else err (lit "static deny"), img)
