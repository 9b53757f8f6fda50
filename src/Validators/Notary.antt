-- ===== src/Validators/Notary.antt =====
-- internal/validator/notaryv1: the trust data of a repository. The TUF library and the cryptography are
-- a parameter; a call of it returns a value on the left or an error on the right, or only an error.
pub mod Client
pub mod Download
pub mod Base
pub mod Delegations
pub mod Search
mod Calls
pub mod Validator
use connaisseur.Prelude.{
  ◌⊎◌, inl, inr, Bool, Option, none, some, List, [], ◌∷◌, map, Text, lit, text_eq, if◌then◌else◌,
  Result, ok, err, panic, ◌>>=◌,
}

-- the base roles, in the order of data.BaseRoles
pub data Role : Type 0 where
  root targets snapshot timestamp : Role

abbrev pub role_name : Role → Text
role_name root = lit "root"
role_name targets = lit "targets"
role_name snapshot = lit "snapshot"
role_name timestamp = lit "timestamp"

abbrev pub base_roles : List Role
base_roles = root ∷ targets ∷ snapshot ∷ timestamp ∷ []

-- their names, for which the data are fetched, and over which the loop that receives them runs
abbrev pub base_names : List Text
base_names = map role_name base_roles

pub record Tuf : Type 1 where
  pub Signed : Type 0
  pub Decoded : Type 0
  pub SignedRoot : Type 0
  pub SignedTargets : Type 0
  pub SignedSnapshot : Type 0
  pub SignedTimestamp : Type 0
  pub SignedCommon : Type 0
  pub VerifyRole : Type 0
  pub Signature : Type 0
  pub PublicKey : Type 0
  pub Hashes : Type 0
  pub no_hashes : Hashes
  -- json.Unmarshal into a data.Signed
  pub unmarshal_signed : Text → Signed ⊎ Text
  -- RootFromSigned and the like; the role is an argument for targets
  pub root_from_signed : Signed → SignedRoot ⊎ Text
  pub targets_from_signed : Signed → Text → SignedTargets ⊎ Text
  pub snapshot_from_signed : Signed → SignedSnapshot ⊎ Text
  pub timestamp_from_signed : Signed → SignedTimestamp ⊎ Text
  -- ToSigned
  pub root_to_signed : SignedRoot → Signed ⊎ Text
  pub targets_to_signed : SignedTargets → Signed ⊎ Text
  pub snapshot_to_signed : SignedSnapshot → Signed ⊎ Text
  pub timestamp_to_signed : SignedTimestamp → Signed ⊎ Text
  -- Signed.SignedCommon
  pub root_common : SignedRoot → SignedCommon
  pub targets_common : SignedTargets → SignedCommon
  pub snapshot_common : SignedSnapshot → SignedCommon
  pub timestamp_common : SignedTimestamp → SignedCommon
  -- Signatures, Signed.Meta, the names of Signed.Delegations.Roles, and for each of Signed.Targets the
  -- bytes of its SHA256 hash, which are empty where it has none
  pub signatures : SignedRoot → List Signature
  pub snapshot_meta : SignedSnapshot → List (Text × Hashes)
  pub timestamp_meta : SignedTimestamp → List (Text × Hashes)
  pub delegation_roles : SignedTargets → List Text
  pub target_hashes : SignedTargets → List (Text × Text)
  -- the signed part unmarshalled, and canonical JSON
  pub unmarshal_part : Signed → Decoded ⊎ Text
  pub marshal_canonical : Decoded → Text ⊎ Text
  -- VerifySignature, with the signature's IsValid
  pub verify_signature : Text → Signature → PublicKey → Bool ⊎ Text
  pub build_base_role : SignedRoot → Role → VerifyRole ⊎ Text
  pub build_delegation_role : SignedTargets → Text → VerifyRole ⊎ Text
  pub verify_signatures : Signed → VerifyRole → Option Text
  pub verify_expiry : SignedCommon → Text → Option Text
  pub check_hashes : Text → Text → Hashes → Option Text
  pub key_id : PublicKey → Text
  pub new_public_key : Text → Text → PublicKey
  -- the digest of the bytes of a SHA256 hash, by hex.EncodeToString and NewDigestFromEncoded
  pub sha256_digest : Text → Text
  -- pem.Decode, with the rest, and ParsePKIXPublicKey, which gives the name of the key's type
  pub decode_pem : Text → Option (Text × Text)
  pub parse_public_key : Text → Text ⊎ Text

-- m[key] of a Go map
abbrev pub find_at : {A : Type 0} → List (Text × A) → Text → Option A
find_at [] key = none
find_at ((k, a) ∷ m) key = let later = find_at m key in if text_eq k key then some a else later

-- m[key] = a
unfoldable pub set_at : {A : Type 0} → List (Text × A) → Text → A → List (Text × A)
set_at [] key a = (key, a) ∷ []
set_at ((k, b) ∷ m) key a = if text_eq k key then (k, a) ∷ m else (k, b) ∷ set_at m key a

-- a nil pointer that is dereferenced panics
abbrev pub deref : {A : Type 0} → Option A → Result A
deref none = panic
deref (some a) = ok a

-- `if err != nil { return fmt.Errorf(...) }`, without and with a value
abbrev pub or_fail : {A : Type 0} → (Text → Text) → A ⊎ Text → Result A
or_fail message (inl a) = ok a
or_fail message (inr e) = err (message e)

abbrev pub check : (Text → Text) → Option Text → Result (Unit {0})
check message none = ok tt
check message (some e) = err (message e)

-- `for _, x := range xs { if err := f(x); err != nil { return err } }`
unfoldable pub for_each : {A : Type 0} → (A → Result (Unit {0})) → List A → Result (Unit {0})
for_each f [] = ok tt
for_each f (x ∷ xs) = f x >>= λ _. for_each f xs

module _ (tuf : Tuf) where
  open tuf use {Signed, SignedRoot, SignedTargets, SignedSnapshot, SignedTimestamp}

  pub record Repo : Type 0 where
    pub root : Option SignedRoot
    pub targets : List (Text × SignedTargets)
    pub snapshot : Option SignedSnapshot
    pub timestamp : Option SignedTimestamp
    pub not_checked_checksums : List (Text × Text)

  abbrev pub empty_repo : Repo
  empty_repo = record {
    root = none;
    targets = [];
    snapshot = none;
    timestamp = none;
    not_checked_checksums = [];
  }

  -- the data and the bytes that were fetched, or the error
  pub record TrustData : Type 0 where
    pub role : Text
    pub content : (Signed × Text) ⊎ Text

  -- what a round of a receiving loop sees: the cancelled context, or the data of the channel
  pub data Arrival : Type 0 where
    cancelled : Arrival
    arrives : TrustData → Arrival
