-- ===== src/Validators/Cosign.antt =====
-- internal/validator/cosignvalidator: cosign_validator.go and verifiers.go. The Cosign library is a
-- parameter; a call of it returns a value on the left or an error on the right.
pub mod Verification
pub mod Conclusion
pub mod Signed
pub mod Returns
pub mod Config
use connaisseur.Prelude.{
  ◌⊎◌, inl, inr, Bool, true, false, not, ◌&&◌, ◌||◌, Option, none, some, List, [], ◌∷◌, ◌++◌, Text,
  lit, has_prefix, if◌then◌else◌, is_empty, Result, ok, err, ◌>>=◌, map_err,
}
use connaisseur.Utils.Lists.{set_key, set_subtract}
use connaisseur.Image.{Image}
use connaisseur.Policy.{RuleOptions}
use connaisseur.Validators.TrustRoots.{TrustRoot, get_trust_roots}
use connaisseur.Validators.Auth.{AuthEntry, Auth, look_up}

pub record Library : Type 1 where
  pub Key : Type 0
  pub Certs : Type 0
  pub Logs : Type 0
  pub Rekor : Type 0
  pub Signature : Type 0
  -- sigs.LoadPublicKeyRaw and sigs.PublicKeyFromKeyRefWithHashAlgo
  pub load_public_key_raw : Text → Key ⊎ Text
  pub public_key_from_ref : Text → Key ⊎ Text
  -- cosign.GetRekorPubs, cosign.GetCTLogPubs, fulcio.GetRoots, fulcio.GetIntermediates
  pub rekor_pubs : Logs ⊎ Text
  pub ct_log_pubs : Logs ⊎ Text
  pub fulcio_roots : Certs ⊎ Text
  pub fulcio_intermediates : Certs ⊎ Text
  -- Payload, and the digest of the payload that is unmarshalled
  pub payload : Signature → Text ⊎ Text
  pub payload_digest : Text → Text ⊎ Text

-- `return "", err`
abbrev pub of_call : {A : Type 0} → A ⊎ Text → Result A
of_call (inl a) = ok a
of_call (inr e) = err e

pub record Identity : Type 0 where
  pub issuer : Text
  pub issuer_reg_exp : Text
  pub subject : Text
  pub subject_reg_exp : Text

abbrev no_identity : Identity
no_identity = record { issuer = []; issuer_reg_exp = []; subject = []; subject_reg_exp = [] }

module _ (lib : Library) where
  open lib use {Key, Certs, Logs, Rekor, Signature}

  pub record CosignValidator : Type 0 where
    pub name : Text
    pub rekor : Rekor
    pub rekor_pubkey : Option Logs
    pub fulcio_cert : Option Certs
    pub ct_log_pubkey : Option Logs
    pub cert : Option Certs
    pub auth : Auth
    pub trust_roots : List TrustRoot

  pub record Verifier : Type 0 where
    pub name : Text
    pub key_verifier : Option Key
    pub keyless_verifier : Identity

  -- cosign.CheckOpts, with the parts of the registry's options
  pub record CheckOpts : Type 0 where
    pub ignore_tlog : Bool
    pub ignore_sct : Bool
    pub credentials : AuthEntry
    pub use_keychain : Bool
    pub cert : Option Certs
    pub rekor_client : Option Rekor
    pub rekor_pub_keys : Option Logs
    pub ct_log_pub_keys : Option Logs
    pub sig_verifier : Option Key
    pub root_certs : Option Certs
    pub intermediate_certs : Option Certs
    pub identities : List Identity

  -- cosign.VerifyImageSignatures
  abbrev pub Verify : Type 0
  Verify = Image → CheckOpts → List Signature ⊎ Text

  pub record VerifierOutput : Type 0 where
    pub checked_signatures : List Signature
    pub err : Option Text
    pub propagation_err : Option Text
    pub validating_trust_root : Text

  abbrev with_key : TrustRoot → Key → Verifier
  with_key tr key = record {
    name = tr.name;
    key_verifier = some key;
    keyless_verifier = no_identity;
  }

  abbrev is_keyless : TrustRoot → Bool
  is_keyless tr =
      (not (is_empty tr.keyless.issuer) || not (is_empty tr.keyless.issuer_regex))
      && (not (is_empty tr.keyless.subject) || not (is_empty tr.keyless.subject_regex))

  unfoldable pub load_verifier : TrustRoot → Result Verifier
  load_verifier tr =
      if not (is_empty tr.key)
      then (of_call (
            if has_prefix tr.key (lit "-----BEGIN PUBLIC KEY-----")
            then lib.load_public_key_raw tr.key
            else lib.public_key_from_ref tr.key)
          >>= λ key. ok (with_key tr key))
      else if is_keyless tr
      then ok (record {
        name = tr.name;
        key_verifier = none;
        keyless_verifier = record {
          issuer = tr.keyless.issuer;
          issuer_reg_exp = tr.keyless.issuer_regex;
          subject = tr.keyless.subject;
          subject_reg_exp = tr.keyless.subject_regex;
        };
      })
      else err (lit "no public key or keyless configuration found")

  unfoldable pub load_verifiers : List TrustRoot → Result (List Verifier)
  load_verifiers [] = ok []
  load_verifiers (tr ∷ trs) = do v ← load_verifier tr; vs ← load_verifiers trs; ok (v ∷ vs)

  unfoldable pub verifiers : CosignValidator → List Text → Result (List Verifier)
  unfolding load_verifiers
  verifiers cv key_refs = do
    roots ←
        map_err
          (λ e. lit "error getting trust roots for validator " ++ (cv.name ++ (lit ": " ++ e)))
          (get_trust_roots key_refs cv.trust_roots true)
    load_verifiers roots

  abbrev or_default : Option Bool → Bool
  or_default none = true
  or_default (some b) = b

  abbrev or_fetched : Option Logs → Logs ⊎ Text → Logs ⊎ Text
  or_fetched (some logs) fetched = inl logs
  or_fetched none fetched = fetched

  -- the keys of a log are needed only where its check is on
  abbrev keys_if : Bool → Text → Option Logs → Logs ⊎ Text → Result (Option Logs)
  keys_if false what given fetched = ok none
  keys_if true what given fetched =
      map_err (λ e. what ++ e) (of_call (or_fetched given fetched)) >>= λ logs. ok (some logs)

  unfoldable pub setup_options : CosignValidator → RuleOptions → Image → Result CheckOpts
  setup_options cv args img = do
    let verify_tlog = or_default args.verify_tlog
    let verify_sct = or_default args.verify_sct
    rekor_keys ←
        keys_if verify_tlog (lit "error getting rekor public keys: ") cv.rekor_pubkey lib.rekor_pubs
    ct_keys ←
        keys_if verify_sct (lit "error getting ct log public keys: ") cv.ct_log_pubkey
          lib.ct_log_pubs
    ok (record {
      ignore_tlog = not verify_tlog;
      ignore_sct = not verify_sct;
      credentials = look_up cv.auth img.ref.context_string;
      use_keychain = cv.auth.use_keychain;
      cert = cv.cert;
      rekor_client = if verify_tlog then some cv.rekor else none;
      rekor_pub_keys = rekor_keys;
      ct_log_pub_keys = ct_keys;
      sig_verifier = none;
      root_certs = none;
      intermediate_certs = none;
      identities = [];
    })
