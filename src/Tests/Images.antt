-- ===== src/Tests/Images.antt =====
-- Image references and the keys of credentials.
use connaisseur.Prelude.{
  ◌≡◌, refl, ◌↔◌, ◌⊎◌, inr, none, [], ◌∷◌, ◌++◌, arith, Text, lit, text_eq, has_prefix, trim_prefix,
  has_suffix, trim_suffix, index, ok,
}
use connaisseur.Image
use connaisseur.Image.{Reference, ParseReference, Image, set_digest, name}
use connaisseur.Image.Parts.{IsDigest, IsDigestOf, set_digest-IsDigest, new-tag_and_digest}
use connaisseur.Image.Registry.{
  RegistryRepo, NameChecks, strip_host, IsStripped, IsParsed, new_registry_repo, to_string,
  to_string-new_registry_repo,
}
use connaisseur.Tests.Samples.{hub_image}

set_digest_example :
    IsDigest (set_digest (hub_image (lit "nginx")) (lit "abc")).digest
    × ((lit "abc" ≡ []) ↔ ((set_digest (hub_image (lit "nginx")) (lit "abc")).digest ≡ []))
    × IsDigestOf (lit "abc") (set_digest (hub_image (lit "nginx")) (lit "abc")).digest
    × ((set_digest (hub_image (lit "nginx")) (lit "abc")).original
        ≡ (hub_image (lit "nginx")).original)
    × ((set_digest (hub_image (lit "nginx")) (lit "abc")).ref ≡ (hub_image (lit "nginx")).ref)
    × ((set_digest (hub_image (lit "nginx")) (lit "abc")).tag ≡ (hub_image (lit "nginx")).tag)
set_digest_example = set_digest-IsDigest (hub_image (lit "nginx")) (lit "abc")

abbrev digested : Reference
digested = record {
  context_name = lit "index.docker.io/" ++ lit "library/nginx";
  context_string = lit "index.docker.io/" ++ lit "library/nginx";
  registry = lit "index.docker.io";
  identifier = lit "sha256:abc";
}

abbrev parse_digested : ParseReference
parse_digested t = ok digested

new-tag_and_digest_example :
    (i : Image) × (Image.new parse_digested
        (lit "library/nginx" ++ (lit ":" ++ ((b'v' ∷ lit "1") ++ (lit "@" ++ lit "sha256:abc"))))
      ≡ ok i)
    × (i.tag ≡ b'v' ∷ lit "1")
    × (i.digest ≡ lit "sha256:abc")
    × (name i
        ≡ lit "index.docker.io/"
          ++ (lit "library/nginx"
              ++ (lit ":" ++ ((b'v' ∷ lit "1") ++ (lit "@" ++ lit "sha256:abc")))))
unfolding lit has_prefix
new-tag_and_digest_example =
    new-tag_and_digest parse_digested digested (lit "index.docker.io/") (lit "library/nginx") b'v'
      (lit "1") (lit "sha256:abc") refl refl refl refl (inr (λ h. ground arith)) refl

abbrev no_checks : NameChecks
no_checks = record { new_registry = λ s. none; new_repository = λ s. none }

abbrev hub : RegistryRepo
hub = record {
  original = lit "https://index.docker.io/v1/";
  registry = lit "index.docker.io";
  repo = [];
}

to_string_example :
    (hub.original ≡ lit "https://index.docker.io/v1/")
    × IsParsed no_checks hub
    × (stripped : Text) × IsStripped (lit "https://index.docker.io/v1/") stripped
    × ((to_string hub ≡ stripped) ⊎ (to_string hub ++ lit "/" ≡ stripped))
unfolding new_registry_repo strip_host lit text_eq connaisseur.Image.Registry.cut_at_slash
    connaisseur.Prelude.index connaisseur.Utils.Strings.has_prefixes has_prefix
    connaisseur.Utils.Strings.trim_prefixes connaisseur.Prelude.trim_prefix
    connaisseur.Prelude.has_suffix connaisseur.Prelude.trim_suffix
to_string_example =
    to_string-new_registry_repo no_checks (lit "https://index.docker.io/v1/") {r = hub} (λ e. cc e)
      refl
