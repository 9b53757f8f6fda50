-- ===== src/Tests/Notation.antt =====
-- The verification of an image that is given by its tag.
use connaisseur.Prelude.{◌≡◌, refl, inl, false, none, some, [], ◌∷◌, Text, lit, text_eq, has_prefix}
use connaisseur.Image.{Image}
use connaisseur.Policy.{no_options}
use connaisseur.Validators.TrustRoots.{TrustRoot}
use connaisseur.Validators.Notation.Config.{IsDecoded, unmarshal_yaml-IsDecoded}
use connaisseur.Validators.Notation.{
  ca, tsa, InMemoryTrustStore, NotationValidatorYaml, Client, Library, NotationValidator,
  validate_image,
}
use connaisseur.Validators.Notation.Unpatched.{with_images-unpatched}
use connaisseur.Validation.Image.{initial, with_images}
use connaisseur.Tests.Samples.{hub_image}

abbrev library : Library
library = record {
  Certs = Text;
  Cert = Text;
  decode_pem = λ t. some t;
  parse_certificate = λ t. inl t;
  new_verifier = λ policy store. none;
  new_repository = λ name. none;
  resolve = λ client name. inl (lit "sha256:abc");
  verify = λ client policy store artifact. inl (lit "sha256:abc");
}

abbrev root : TrustRoot
root = record {
  name = lit "default";
  key = [];
  cert = lit "pem";
  ts_cert = [];
  keyless = record { issuer = []; subject = []; issuer_regex = []; subject_regex = [] };
}

abbrev notation : NotationValidator library
notation = record {
  name = lit "notation";
  auth = record { auth_configs = []; use_keychain = false };
  root_ca = none;
  trust_store = record { trust_roots = root ∷ []; certs = [] };
}

abbrev client : Client Text
client = record { root_ca = none; credential = none }

abbrev tagged : Image
tagged = hub_image (lit "nginx")

abbrev resolved_image : Image
resolved_image = record tagged { digest = lit "sha256:abc" }

unpatched_example :
    (with_images initial resolved_image (lit "sha256:abc")).old_img
    ≡ (with_images initial resolved_image (lit "sha256:abc")).new_img
unfolding validate_image lit text_eq connaisseur.Validators.Notation.set_up_trust_policy
    connaisseur.Validators.TrustRoots.get_trust_roots connaisseur.Validators.Notation.resolved
    connaisseur.Image.set_digest connaisseur.Prelude.has_prefix
unpatched_example =
    with_images-unpatched library notation client tagged resolved_image no_options
      (lit "sha256:abc") initial (inl refl) refl refl

abbrev given : NotationValidatorYaml
given = record {
  name = lit "notation";
  auth = record { auth_configs = []; use_keychain = false };
  cert = [];
  trust_roots = root ∷ record root { ts_cert = lit "stamp" } ∷ [];
}

abbrev two_certificates : InMemoryTrustStore Text
two_certificates = record {
  trust_roots = given.trust_roots;
  certs = ((lit "default", ca), lit "pem") ∷ ((lit "default", tsa), lit "stamp") ∷ [];
}

notation_yaml_example :
    IsDecoded library (λ t. some t) given (record notation { trust_store = two_certificates })
unfolding connaisseur.Validators.Notation.unmarshal_yaml lit
    connaisseur.Validators.Notation.set_cert text_eq
notation_yaml_example =
    unmarshal_yaml-IsDecoded library (λ t. some t) given
      (record notation { trust_store = two_certificates }) refl
