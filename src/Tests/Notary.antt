-- ===== src/Tests/Notary.antt =====
-- An image that is listed in a delegation, with a library that accepts what it is given.
use connaisseur.Prelude.{
  ◌≤◌, refl, inl, true, false, none, some, List, [], ◌∷◌, ◌++◌, map, arith, Text, lit, text_eq,
  has_prefix, trim_prefix, index, to_lower, length, ◌>>=◌,
}
use connaisseur.Image.Registry.{NameChecks, RegistryRepo}
use connaisseur.Policy.{RuleOptions, no_options}
use connaisseur.Validators.Notary.{base_names, Tuf, Repo, empty_repo, TrustData, Arrival, arrives}
use connaisseur.Validators.Notary.Client.{Http}
use connaisseur.Validators.Notary.Download.{IsFetched, quiet, sends}
use connaisseur.Validators.Notary.Download.Complete.{IsComplete, receive_all-IsComplete}
use connaisseur.Validators.Notary.Validator.{NotaryV1Validator, World, validate_image}
use connaisseur.Validators.Notary.Validator.Total.{Returns, validate_image-Returns}
use connaisseur.Validators.Notary.Validator.Config.{
  Parsers, IsConfigured, unmarshal_yaml-IsConfigured,
}
use connaisseur.Tests.Samples.{hub_image}

-- every object is its bytes
abbrev library : Tuf
library = record {
  Signed = Text;
  Decoded = Text;
  SignedRoot = Text;
  SignedTargets = Text;
  SignedSnapshot = Text;
  SignedTimestamp = Text;
  SignedCommon = Text;
  VerifyRole = Text;
  Signature = Text;
  PublicKey = Text;
  Hashes = Text;
  no_hashes = [];
  unmarshal_signed = λ raw. inl raw;
  root_from_signed = λ s. inl s;
  targets_from_signed = λ s role. inl s;
  snapshot_from_signed = λ s. inl s;
  timestamp_from_signed = λ s. inl s;
  root_to_signed = λ a. inl a;
  targets_to_signed = λ a. inl a;
  snapshot_to_signed = λ a. inl a;
  timestamp_to_signed = λ a. inl a;
  root_common = λ a. a;
  targets_common = λ a. a;
  snapshot_common = λ a. a;
  timestamp_common = λ a. a;
  signatures = λ a. lit "other" ∷ lit "alice" ∷ [];
  snapshot_meta = λ a. [];
  timestamp_meta = λ a. [];
  delegation_roles = λ a. lit "targets/releases" ∷ [];
  target_hashes = λ a. (lit "latest", lit "abc") ∷ [];
  unmarshal_part = λ s. inl s;
  marshal_canonical = λ s. inl s;
  verify_signature = λ msg s key. inl (text_eq s key);
  build_base_role = λ a role. inl a;
  build_delegation_role = λ a role. inl a;
  verify_signatures = λ s role. none;
  verify_expiry = λ common role. none;
  check_hashes = λ payload name hashes. none;
  key_id = λ key. key;
  new_public_key = λ alg bytes. bytes;
  sha256_digest = λ hash. lit "sha256:" ++ hash;
  decode_pem = λ key. some (key, []);
  parse_public_key = λ bytes. inl (lit "*ecdsa.PublicKey");
}

abbrev server : Http
server = record {
  new_request = λ url. none;
  do_request =
      λ transport url. inl (record { status_code = 200; status = lit "200 OK"; body = inl url });
  append_certs = λ cert. true;
  add_response = λ response. none;
}

abbrev any_name : NameChecks
any_name = record { new_registry = λ s. none; new_repository = λ s. none }

abbrev in_order : (Text → TrustData library) → List Text → List (Arrival library)
in_order f roles = map (λ role. arrives (f role)) roles

in_order-IsFetched :
    (f : Text → TrustData library) (roles : List Text)
    → IsFetched library f roles (in_order f roles)
in_order-IsFetched f [] = quiet
in_order-IsFetched f (role ∷ roles) = sends [] role roles refl (in_order-IsFetched f roles)

in_order-Arrives :
    (f : Text → TrustData library) (roles : List Text)
    → IsFetched library f roles (in_order f roles) × (length roles ≤ length (in_order f roles))
in_order-Arrives f roles = (in_order-IsFetched f roles, enough roles)
  where
    enough : (rs : List Text) → length rs ≤ length (in_order f rs)
    enough [] = omega arith
    enough (r ∷ rs) = omega (arith, enough rs)

abbrev world : World
world = record { tuf = library; http = server; names = any_name; quote = λ t. t; arrive = in_order }

abbrev notary : NotaryV1Validator
notary = record {
  name = lit "notary";
  type = lit "notaryv1";
  host = lit "https://notary";
  cert = [];
  auth = record {
    auth_configs = (lit "EMPTYAUTH", record { username = lit "u"; password = lit "p" }) ∷ [];
    use_keychain = false;
  };
  trust_roots =
      record {
        name = lit "alice";
        key = lit "alice";
        cert = [];
        ts_cert = [];
        keyless = record { issuer = []; subject = []; issuer_regex = []; subject_regex = [] };
      }
      ∷ [];
}

abbrev options : RuleOptions
options = record no_options { trust_root = lit "alice" }

abbrev its_registry : RegistryRepo
its_registry = record { original = lit "https://notary"; registry = lit "notary"; repo = [] }

notary_example :
    Returns world notary (validate_image world notary options (hub_image (lit "nginx")))
unfolding connaisseur.Image.Registry.new_registry_repo text_eq lit
    connaisseur.Image.Registry.cut_at_slash connaisseur.Prelude.index
    connaisseur.Image.Registry.strip_host connaisseur.Utils.Strings.has_prefixes
    connaisseur.Prelude.has_prefix connaisseur.Utils.Strings.trim_prefixes
    connaisseur.Prelude.trim_prefix
notary_example =
    validate_image-Returns world notary in_order-Arrives options (hub_image (lit "nginx"))
      its_registry refl

abbrev echo : Text → TrustData library
echo role = record { role = role; content = inl (role, role) }

abbrev echoed : Repo library
echoed = record {
  root = some (lit "root");
  targets = (lit "targets", lit "targets") ∷ [];
  snapshot = some (lit "snapshot");
  timestamp = some (lit "timestamp");
  not_checked_checksums = map (λ name. (name, name)) base_names;
}

base_roles_example : IsComplete library echoed
unfolding connaisseur.Validators.Notary.Download.receive_all
    connaisseur.Validators.Notary.Download.store_base text_eq lit
    connaisseur.Validators.Notary.set_at
base_roles_example =
    receive_all-IsComplete library echo (in_order echo base_names) (empty_repo library) echoed
      (λ name. refl) (in_order-IsFetched echo base_names) refl

abbrev parsers : Parsers
parsers = record { parse_request_uri = λ url. none; append_certs = λ cert. true }

abbrev configured : NotaryV1Validator
configured = record notary {
  auth = record {
    auth_configs = (lit "notary", record { username = lit "u"; password = lit "p" }) ∷ [];
    use_keychain = false;
  };
}

configured_example :
    IsConfigured any_name parsers (record notary { host = lit "notary" }) configured
unfolding connaisseur.Validators.Notary.Validator.Config.unmarshal_yaml lit text_eq
    connaisseur.Image.Registry.new_registry_repo connaisseur.Utils.Strings.has_prefixes
    connaisseur.Prelude.has_prefix connaisseur.Prelude.to_lower
    connaisseur.Image.Registry.cut_at_slash connaisseur.Prelude.index
    connaisseur.Image.Registry.strip_host connaisseur.Utils.Strings.trim_prefixes
    connaisseur.Prelude.trim_prefix connaisseur.Image.Registry.to_string
configured_example =
    unmarshal_yaml-IsConfigured any_name parsers (record notary { host = lit "notary" }) configured
      refl
