-- ===== src/Tests/Cosign.antt =====
-- An image that is signed for one trust root.
use connaisseur.Prelude.{
  ◌≡◌, refl, inl, inr, false, none, some, List, [], ◌∷◌, Text, lit, text_eq, has_prefix, Result,
  ◌>>=◌,
}
use connaisseur.Policy.{RuleOptions, no_options}
use connaisseur.Validators.Cosign.{Library, CosignValidator, Verify, VerifierOutput}
use connaisseur.Validators.Cosign.Verification.{
  trust_root_references, validate_image, IsOrder, done, next,
}
use connaisseur.Validators.Cosign.Signed.{IsSigned, validate_image-IsSigned}
use connaisseur.Validators.Cosign.Returns.{validate_image-returns}
use connaisseur.Validators.Cosign.Config.{
  CosignValidatorYaml, Parsers, IsReady, unmarshal_yaml-IsReady,
}
use connaisseur.Tests.Samples.{hub_image}

-- a signature is the digest that it names
abbrev library : Library
library = record {
  Key = Text;
  Certs = Text;
  Logs = Text;
  Rekor = Text;
  Signature = Text;
  load_public_key_raw = λ key. inl key;
  public_key_from_ref = λ key. inl key;
  rekor_pubs = inl (lit "rekor");
  ct_log_pubs = inl (lit "ct");
  fulcio_roots = inr (lit "offline");
  fulcio_intermediates = inr (lit "offline");
  payload = λ s. inl s;
  payload_digest = λ s. inl s;
}

abbrev cosign : CosignValidator library
cosign = record {
  name = lit "cosign";
  rekor = lit "rekor";
  rekor_pubkey = none;
  fulcio_cert = none;
  ct_log_pubkey = none;
  cert = none;
  auth = record { auth_configs = []; use_keychain = false };
  trust_roots =
      record {
        name = lit "alice";
        key = lit "k";
        cert = [];
        ts_cert = [];
        keyless = record { issuer = []; subject = []; issuer_regex = []; subject_regex = [] };
      }
      ∷ [];
}

abbrev one_signature : Verify library
one_signature = λ img opts. inl (lit "sha256:abc" ∷ [])

abbrev options : RuleOptions
options = record no_options { trust_root = lit "*"; required = lit "alice" ∷ [] }

abbrev in_order : List (VerifierOutput library) → List (VerifierOutput library)
in_order os = os

in_order-IsOrder : (os : List (VerifierOutput library)) → IsOrder library os (in_order os)
in_order-IsOrder [] = done
in_order-IsOrder (o ∷ os) = next [] o os (in_order-IsOrder os)

signed_example :
    IsSigned library one_signature cosign
      (hub_image (lit "nginx"))
      in_order
      options
      (lit "sha256:abc")
unfolding validate_image lit text_eq connaisseur.Validators.Cosign.Verification.prepare
    connaisseur.Validators.Cosign.setup_options connaisseur.Validators.Cosign.verifiers
    connaisseur.Validators.TrustRoots.get_trust_roots trust_root_references
    connaisseur.Validators.Cosign.load_verifier connaisseur.Prelude.has_prefix
    connaisseur.Validators.Cosign.Verification.collect
    connaisseur.Validators.Cosign.Verification.validate_with_verifier
    connaisseur.Validators.Cosign.Verification.verifier_options
    connaisseur.Validators.Cosign.Verification.conclude connaisseur.Utils.Lists.set_subtract
signed_example =
    validate_image-IsSigned library one_signature cosign (hub_image (lit "nginx")) in_order
      in_order-IsOrder options (lit "sha256:abc") refl

returns_example :
    (r : Result Text) × (validate_image library one_signature cosign in_order options
        (hub_image (lit "nginx"))
      ≡ some r)
unfolding trust_root_references lit text_eq
returns_example =
    validate_image-returns library one_signature cosign in_order in_order-IsOrder options
      (hub_image (lit "nginx")) refl

abbrev given : CosignValidatorYaml
given = record {
  name = lit "cosign";
  rekor = [];
  rekor_pubkey = [];
  fulcio_cert = [];
  ct_log_pubkey = lit "ct";
  cert = [];
  auth = record { auth_configs = []; use_keychain = false };
  trust_roots = cosign.trust_roots;
}

abbrev parsers : Parsers library
parsers = record {
  new_client = λ host. inl host;
  add_log_key = λ key. inl key;
  append_certs = λ cert. inl cert;
}

cosign_yaml_example :
    IsReady library parsers given
      (record cosign { rekor = lit "https://rekor.sigstore.dev"; ct_log_pubkey = some (lit "ct") })
unfolding connaisseur.Validators.Cosign.Config.unmarshal_yaml lit
    connaisseur.Utils.Strings.string_default
cosign_yaml_example =
    unmarshal_yaml-IsReady library parsers given
      (record cosign { rekor = lit "https://rekor.sigstore.dev"; ct_log_pubkey = some (lit "ct") })
      refl
