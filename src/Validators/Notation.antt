-- ===== src/Validators/Notation.antt =====
-- internal/validator/notation: notation_validator.go and trust_store.go. The Notation library is a
-- parameter; a call of it returns a value on the left or an error on the right.
pub mod Verified
pub mod Stored
pub mod Config
pub mod Unpatched
pub mod Keys
use connaisseur.Prelude.{
  String, ◌⊎◌, inl, inr, Bool, true, false, not, ◌&&◌, Option, none, some, List, [], ◌∷◌, ◌++◌,
  Text, lit, text_eq, if◌then◌else◌, is_empty, Result, ok, err, panic, ◌>>=◌, map_err,
}
use connaisseur.Utils.Strings.{string_default}
use connaisseur.Image
use connaisseur.Image.{Image}
use connaisseur.Policy.{RuleOptions}
use connaisseur.Validators.TrustRoots.{TrustRoot, get_trust_roots}
use connaisseur.Validators.Auth.{AuthEntry, Auth, look_up}

pub data StoreType : Type 0 where
  ca tsa : StoreType

pub record TrustPolicy : Type 0 where
  pub registry_scopes : List Text
  pub verification_level : Text
  pub verify_timestamp : Text
  pub trust_stores : List (StoreType × Text)
  pub trusted_identities : List Text

-- the settings of orasAuth.DefaultClient that the program changes; the credential is for one registry
pub record Client (Certs : Type 0) : Type 0 where
  pub root_ca : Option Certs
  pub credential : Option (Text × AuthEntry)

-- the keys of the trust store's map are pairs of a name and a type
abbrev pub CertsOf : Type 0 → Type 0
CertsOf Cert = List ((Text × StoreType) × Cert)

pub record InMemoryTrustStore (Cert : Type 0) : Type 0 where
  pub trust_roots : List TrustRoot
  pub certs : CertsOf Cert

pub record Library : Type 1 where
  pub Certs : Type 0
  pub Cert : Type 0
  -- pem.Decode and x509.ParseCertificate
  pub decode_pem : Text → Option Text
  pub parse_certificate : Text → Cert ⊎ Text
  -- the error of verifier.New and of remote.NewRepository
  pub new_verifier : TrustPolicy → InMemoryTrustStore Cert → Option Text
  pub new_repository : Text → Option Text
  -- the digest of a reference, and the digest that is verified for an artifact
  pub resolve : Client Certs → Text → Text ⊎ Text
  pub verify : Client Certs → TrustPolicy → InMemoryTrustStore Cert → Text → Text ⊎ Text

abbrev failed : {A : Type 0} → String → Option Text → A → Result A
failed what none a = ok a
failed what (some e) a = err (lit what ++ e)

abbrev of_call : {A : Type 0} → String → A ⊎ Text → Result A
of_call what (inl a) = ok a
of_call what (inr e) = err (lit what ++ e)

abbrev pub same_type : StoreType → StoreType → Bool
same_type ca ca = true
same_type ca tsa = false
same_type tsa ca = false
same_type tsa tsa = true

abbrev pub same_key : Text × StoreType → Text × StoreType → Bool
same_key (n, t) (m, u) = text_eq n m && same_type t u

-- certs[key] = cert
unfoldable pub set_cert : {Cert : Type 0} → CertsOf Cert → Text × StoreType → Cert → CertsOf Cert
set_cert [] k c = (k, c) ∷ []
set_cert ((j, d) ∷ m) k c = if same_key j k then (j, c) ∷ m else (j, d) ∷ set_cert m k c

-- the loop over the map
unfoldable pub find_cert : {Cert : Type 0} → CertsOf Cert → StoreType → Text → Result Cert
find_cert [] type named_store = err (lit "no certificates found for trustRoot " ++ named_store)
find_cert ((k, c) ∷ m) type named_store =
    let later = find_cert m type named_store in
    if same_key k (named_store, type) then ok c else later

unfoldable pub get_certificates :
    {Cert : Type 0} → InMemoryTrustStore Cert → StoreType → Text → Result Cert
unfolding find_cert
get_certificates store type named_store = find_cert store.certs type named_store

unfoldable pub trust_stores : List TrustRoot → List (StoreType × Text)
trust_stores [] = []
trust_stores (tr ∷ trs) =
    (ca, tr.name)
    ∷ ((if not (is_empty tr.ts_cert) then (tsa, tr.name) ∷ [] else []) ++ trust_stores trs)

-- what UnmarshalYAML is given
pub record NotationValidatorYaml : Type 0 where
  pub name : Text
  pub auth : Auth
  pub cert : Text
  pub trust_roots : List TrustRoot

module _ (lib : Library) where
  open lib use {Certs, Cert}

  pub record NotationValidator : Type 0 where
    pub name : Text
    pub auth : Auth
    pub root_ca : Option Certs
    pub trust_store : InMemoryTrustStore Cert

  abbrev pub parse_pem : Option Text → Result Cert
  parse_pem none = err (lit "failed to decode certificate")
  parse_pem (some block) = of_call "failed to parse certificate: " (lib.parse_certificate block)

  abbrev pub parsed : String → TrustRoot → Text → Result Cert
  parsed what tr cert =
      map_err (λ e. lit what ++ (tr.name ++ (lit ": " ++ e))) (parse_pem (lib.decode_pem cert))

  -- the certificates of one trust root
  unfoldable pub add_root : CertsOf Cert → TrustRoot → Result (CertsOf Cert)
  add_root certs tr =
      if is_empty tr.cert
      then err (lit "no certificate provided for trust root " ++ tr.name)
      else (parsed "failed to parse certificate for trust root " tr tr.cert >>= λ cert.
          (if not (is_empty tr.ts_cert)
            then (parsed "failed to parse timestamp certificate for trust root " tr tr.ts_cert
                >>= λ ts_cert.
                    ok (set_cert (set_cert certs (tr.name, ca) cert) (tr.name, tsa) ts_cert))
            else ok (set_cert certs (tr.name, ca) cert)))

  unfoldable pub add_roots : CertsOf Cert → List TrustRoot → Result (CertsOf Cert)
  unfolding add_root
  add_roots certs [] = ok certs
  add_roots certs (tr ∷ trs) = do certs' ← add_root certs tr; add_roots certs' trs

  unfoldable pub new_in_memory_trust_store : List TrustRoot → Result (InMemoryTrustStore Cert)
  unfolding add_roots
  new_in_memory_trust_store trs =
      add_roots [] trs >>= λ certs. ok (record { trust_roots = trs; certs = certs })

  -- UnmarshalYAML; `append_certs` is the pool with the certificates of a text, if it has one
  unfoldable pub unmarshal_yaml :
      (Text → Option Certs) → NotationValidatorYaml → Result NotationValidator
  unfolding new_in_memory_trust_store
  unmarshal_yaml append_certs y =
      if is_empty y.trust_roots
      then err (lit "no trust roots provided for validator " ++ y.name)
      else (map_err (λ e. lit "failed to create trust store: " ++ e)
            (new_in_memory_trust_store y.trust_roots)
          >>= λ imts.
              if is_empty y.cert
              then ok (record { name = y.name; auth = y.auth; root_ca = none; trust_store = imts })
              else elim (append_certs y.cert) [
                | none ↦ err (lit "failed to parse certificate")
                | some pool ↦ ok (record {
                  name = y.name;
                  auth = y.auth;
                  root_ca = some pool;
                  trust_store = imts;
                })
              ])

  unfoldable pub set_up_trust_policy : NotationValidator → Image → RuleOptions → Result TrustPolicy
  set_up_trust_policy nv img args = do
    trs ←
        map_err (λ e. lit "failed to get trust roots: " ++ e)
          (get_trust_roots (args.trust_root ∷ []) nv.trust_store.trust_roots true)
    ok (record {
      registry_scopes = img.ref.context_string ∷ [];
      verification_level = string_default args.verification_level (lit "strict");
      verify_timestamp = string_default args.verify_timestamp (lit "always");
      trust_stores = trust_stores trs;
      trusted_identities = lit "*" ∷ [];
    })

  abbrev with_root_ca : Option Certs → Client Certs → Client Certs
  with_root_ca none client = client
  with_root_ca (some certs) client = record client { root_ca = some certs }

  abbrev has_credentials : AuthEntry → Bool
  has_credentials entry = not (is_empty entry.username) && not (is_empty entry.password)

  -- what is set on the client, which all validations share
  unfoldable pub set_up_client : NotationValidator → Image → Client Certs → Client Certs
  set_up_client nv img client =
      let client' = with_root_ca nv.root_ca client in
      let entry = look_up nv.auth img.ref.context_name in
      if has_credentials entry
      then record client' { credential = some (img.ref.registry, entry) }
      else client'

  -- the image's digest is resolved and set where there is none
  unfoldable pub resolved : Client Certs → Image → Result Image
  resolved client img =
      if is_empty img.digest
      then (of_call "failed to resolve image tag: " (lib.resolve client (Image.name img))
          >>= λ digest. ok (Image.set_digest img digest))
      else ok img

  abbrev artifact_reference : Image → Text
  artifact_reference img = img.ref.context_string ++ (lit "@" ++ img.digest)

  abbrev verified :
      NotationValidator → Client Certs → TrustPolicy → Image → Result Image → Result Text × Image
  verified nv client policy img (err e) = (err e, img)
  verified nv client policy img panic = (panic, img)
  verified nv client policy img (ok left) = (
    of_call "failed to verify image: "
        (lib.verify client policy nv.trust_store (artifact_reference left)),
    left,
  )

  abbrev prepare : NotationValidator → Image → RuleOptions → Result TrustPolicy
  prepare nv img args = do
    policy ←
        map_err (λ e. lit "failed to set up trust policy: " ++ e) (set_up_trust_policy nv img args)
    _ ← failed "failed to create verifier: " (lib.new_verifier policy nv.trust_store) tt
    failed "failed to create remote repository: " (lib.new_repository img.ref.context_string) policy

  abbrev of_prepared :
      NotationValidator
      → Client Certs
      → Image
      → Result TrustPolicy
      → (Result Text × Image) × Client Certs
  of_prepared nv client img (err e) = ((err e, img), client)
  of_prepared nv client img panic = ((panic, img), client)
  of_prepared nv client img (ok policy) =
      let client' = set_up_client nv img client in
      (verified nv client' policy img (resolved client' img), client')

  -- ValidateImage: the result, the image that is left, and the client that is left
  unfoldable pub validate_image :
      NotationValidator → Client Certs → Image → RuleOptions → (Result Text × Image) × Client Certs
  validate_image nv client img args = of_prepared nv client img (prepare nv img args)
