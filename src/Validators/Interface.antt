-- ===== src/Validators/Interface.antt =====
-- internal/validator/validator.go: the interface of the validators, and the choice of one by its type.
use connaisseur.Prelude.{
  String, Option, none, some, ◌++◌, Text, lit, text_eq, if◌then◌else◌, Result, ok, err, panic,
  ◌>>=◌,
}
use connaisseur.Constants.{
  static_validator, cosign_validator, notary_v1_validator, notation_validator,
}
use connaisseur.Image.{Image}
use connaisseur.Policy.{RuleOptions}

-- ValidateImage returns a digest or an error. The image is a pointer: the second part is what the
-- call leaves behind there.
abbrev pub Validate : Type 0
Validate = Image → RuleOptions → Result Text × Image

pub record Validator : Type 0 where
  pub name : Text
  pub type : Text
  pub specific_validator : Validate

unfoldable pub validate_image : Validator → Validate
validate_image v img opts = v.specific_validator img opts

-- a value in a YAML mapping
pub data Value : Type 0 where
  string : Text → Value
  other : Value

-- v.(string) panics on a value of another type
abbrev pub as_string : Value → Result Text
as_string (string s) = ok s
as_string other = panic

abbrev pub Mapping : Type 0
Mapping = Text → Option Value

-- what `unmarshal(specific)` gives for each type of validator
pub record Loaders : Type 0 where
  pub static : Result Validate
  pub cosign : Result Validate
  pub notary_v1 : Result Validate
  pub notation : Result Validate

abbrev required_field : Option Value → String → Result Text
required_field none what = err (lit "validator is missing a " ++ lit what)
required_field (some v) what = as_string v

unfoldable pub load_specific : Loaders → Text → Result Validate
load_specific loaders type =
    if text_eq type static_validator
    then loaders.static
    else if text_eq type cosign_validator
    then loaders.cosign
    else if text_eq type notary_v1_validator
    then loaders.notary_v1
    else if text_eq type notation_validator
    then loaders.notation
    else err (lit "unsupported type \"" ++ (type ++ lit "\" for validator"))

unfoldable pub unmarshal_yaml : Loaders → Result Mapping → Result Validator
unfolding load_specific
unmarshal_yaml loaders unmarshalled = do
  vdata ← unmarshalled
  name ← required_field (vdata (lit "name")) "name"
  type ← required_field (vdata (lit "type")) "type"
  specific ← load_specific loaders type
  ok (record { name = name; type = type; specific_validator = specific })
