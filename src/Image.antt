-- ===== src/Image.antt =====
-- internal/image/image.go: an image reference with its tag and its digest. The parser of references
-- is a library's, and a parameter here.
pub mod Registry
pub mod Parts
use connaisseur.Prelude.{
  String, [], ◌∷◌, ◌++◌, Text, lit, has_prefix, trim_prefix, trim_suffix, if◌then◌else◌, Result, ok,
  ◌>>=◌,
}
use connaisseur.Constants.{default_docker_registry}
use connaisseur.Utils.Strings.{string_overlap}

-- What the program reads of a name.Reference.
pub record Reference : Type 0 where
  -- Context().Name()
  pub context_name : Text
  -- Context().String()
  pub context_string : Text
  -- Context().RegistryStr()
  pub registry : Text
  pub identifier : Text

-- name.ParseReference
abbrev pub ParseReference : Type 0
ParseReference = Text → Result Reference

pub record Image : Type 0 where
  pub original : Text
  pub ref : Reference
  pub tag : Text
  pub digest : Text

-- the tag that is cut out of "repository:tag@digest"
unfoldable pub cut_tag : Reference → Text → Text
cut_tag ref image =
    let path = string_overlap ref.context_name image in
    let tag_and_digest = trim_prefix (trim_prefix image path) (lit ":") in
    trim_suffix tag_and_digest (lit "@" ++ ref.identifier)

unfoldable pub tag_and_digest : Reference → Text → Image
tag_and_digest ref image =
    if has_prefix ref.identifier (lit "sha256:")
    then (record { original = image; ref = ref; tag = cut_tag ref image; digest = ref.identifier })
    else (record {
      original = image;
      ref = ref;
      tag = trim_prefix ref.identifier (lit ":");
      digest = [];
    })

unfoldable pub new : ParseReference → Text → Result Image
new parse image = do ref ← parse image; ok (tag_and_digest ref image)

abbrev after_mark : String → Text → Text
after_mark mark [] = []
after_mark mark (c ∷ s) = lit mark ++ c ∷ s

-- Name(): the fully qualified reference
unfoldable pub name : Image → Text
name i = i.ref.context_string ++ (after_mark ":" i.tag ++ after_mark "@" i.digest)

unfoldable pub notary_reference : Image → Text
notary_reference i =
    if has_prefix i.ref.context_string default_docker_registry
    then trim_prefix i.ref.context_string (lit "index.")
    else i.ref.context_string

abbrev with_algorithm : Text → Text
with_algorithm [] = []
with_algorithm (c ∷ s) =
    if has_prefix (c ∷ s) (lit "sha256:") then c ∷ s else lit "sha256:" ++ (c ∷ s)

-- SetDigest changes the image that it is called on
unfoldable pub set_digest : Image → Text → Image
set_digest i digest = record i { digest = with_algorithm digest }
