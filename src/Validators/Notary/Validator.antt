-- ===== src/Validators/Notary/Validator.antt =====
-- internal/validator/notaryv1/notaryv1_validator.go: the validator. `none` stands for a call that blocks
-- for ever.
pub mod Vouched
pub mod Total
pub mod Config
pub mod Prepared
use connaisseur.Prelude.{
  true, not, ◌&&◌, Option, none, some, List, [], ◌∷◌, ◌++◌, map, Text, lit, text_eq, has_prefix,
  join, contains, if◌then◌else◌, length, is_empty, Result, ok, err, panic, ◌>>=◌, map_err,
}
use connaisseur.Image.{Image}
use connaisseur.Image.Registry.{NameChecks}
use connaisseur.Policy.{RuleOptions}
use connaisseur.Validators.Auth.{Auth}
use connaisseur.Validators.TrustRoots.{TrustRoot, get_trust_roots}
use connaisseur.Validators.Notary.{base_names, Tuf, or_fail, Repo, empty_repo, TrustData, Arrival}
use connaisseur.Validators.Notary.Client.{Http, NotaryClient, new_notary_client, fetch_trust_data}
use connaisseur.Validators.Notary.Download.{Loop, blocks, stops, ends, receive_all, store_base}
use connaisseur.Validators.Notary.Base.{validate_base_trust_data}
use connaisseur.Validators.Notary.Delegations.{
  has_delegations, has_delegation_hashes, download_and_validate_delegations,
}
use connaisseur.Validators.Notary.Search.{search}

pub record NotaryV1Validator : Type 0 where
  pub name : Text
  pub type : Text
  pub host : Text
  pub cert : Text
  pub auth : Auth
  pub trust_roots : List TrustRoot

unfoldable pub to_delegation_string : Text → Text
to_delegation_string delegation =
    if has_prefix delegation (lit "targets/") then delegation else lit "targets/" ++ delegation

-- the delegations that the options ask for
abbrev pub asked : RuleOptions → List Text
asked args =
    if not (is_empty args.delegations)
    then map to_delegation_string args.delegations
    else to_delegation_string (lit "releases") ∷ []

-- a slice as `%v` writes it
abbrev pub listed : List Text → Text
listed ts = lit "[" ++ (join ts (lit " ") ++ lit "]")

abbrev pub targets_only : List Text
targets_only = lit "targets" ∷ []

-- where the digest is searched for: the targets role, or delegations that are still to be downloaded
pub data Choice : Type 0 where
  canonical : Choice
  delegated : List Text → Choice

-- What is outside: the TUF library, HTTP, the checks of names, what `%+q` writes for a string, and the
-- arrivals of the fetches that are started for the roles.
pub record World : Type 1 where
  pub tuf : Tuf
  pub http : Http
  pub names : NameChecks
  pub quote : Text → Text
  pub arrive : (Text → TrustData tuf) → List Text → List (Arrival tuf)

module _ (w : World) (nv : NotaryV1Validator) where
  abbrev algorithm : Text → Text
  algorithm key_type =
      if text_eq key_type (lit "*rsa.PublicKey")
      then lit "rsa"
      else if text_eq key_type (lit "*ecdsa.PublicKey")
      then lit "ecdsa"
      else lit "unknown"

  abbrev pub decoded : TrustRoot → Option (Text × Text) → Result (Text × Text)
  decoded tr none = err (
      lit "error decoding public key "
      ++ (tr.name ++ lit ": wrong format, provide a PEM encoded public key"))
  decoded tr (some block) = ok block

  unfoldable pub public_key : TrustRoot → Result w.tuf.PublicKey
  public_key tr = decoded tr (w.tuf.decode_pem tr.key) >>= λ block.
      or_fail (λ e. lit "error parsing public key " ++ (tr.name ++ (lit ": " ++ e)))
        (w.tuf.parse_public_key block.0)
      >>= λ key_type.
          if not (is_empty block.1)
          then err (
              lit "key material for key "
              ++ (tr.name
                  ++ (lit " of validator " ++ (nv.name ++ lit " contains extraneous characters"))))
          else ok (w.tuf.new_public_key (algorithm key_type) block.0)

  unfoldable pub public_keys : List TrustRoot → Result (List w.tuf.PublicKey)
  unfolding public_key
  public_keys [] = ok []
  public_keys (tr ∷ trs) = do key ← public_key tr; keys ← public_keys trs; ok (key ∷ keys)

  unfoldable pub trust_root_keys : Text → Result (List w.tuf.PublicKey)
  unfolding public_keys
  trust_root_keys key_ref = do
    trs ←
        map_err (λ e. lit "error getting keys for validator " ++ (nv.name ++ (lit ": " ++ e)))
          (get_trust_roots (key_ref ∷ []) nv.trust_roots true)
    public_keys trs

  unfoldable pub choose_targets : RuleOptions → Repo w.tuf → Result Choice
  choose_targets args r = has_delegations w.tuf r >>= λ has.
      if is_empty args.delegations && not has
      then ok canonical
      else if not has
      then err (
          lit "no delegations found for validator "
          ++ (nv.name ++ (lit ", but following were required: " ++ listed args.required)))
      else ok (delegated (asked args))

  unfoldable pub prepare : RuleOptions → Repo w.tuf → Result Choice
  unfolding choose_targets trust_root_keys
  prepare args r = do
    root_keys ←
        map_err
          (λ e. lit "error getting trust root keys for validator " ++ (nv.name ++ (lit ": " ++ e)))
          (trust_root_keys args.trust_root)
    _ ←
        map_err (λ e. lit "error validating trust data: " ++ e)
          (validate_base_trust_data w.tuf r root_keys)
    choose_targets args r

  abbrev pub delegation_error : List Text → Text
  delegation_error ds =
      lit "error during download and validation of delegations for targets: "
      ++ listed (map w.quote ds)

  abbrev pub fall_back : Image → Repo w.tuf → List Text → Text → Result Text
  fall_back img r ds e =
      if contains e (lit "error acquiring trust data")
      then (has_delegation_hashes w.tuf r ds >>= λ has.
          if not has then search w.tuf nv.name img r targets_only else err (delegation_error ds))
      else err (delegation_error ds)

  abbrev pub of_delegations :
      Image → List Text → Option (Result (Unit {0}) × Repo w.tuf) → Option (Result Text)
  of_delegations img ds none = none
  of_delegations img ds (some (ok _, r)) = some (search w.tuf nv.name img r ds)
  of_delegations img ds (some (err e, r)) = some (fall_back img r ds e)
  of_delegations img ds (some (panic, r)) = some panic

  abbrev pub fetch : NotaryClient → Text → TrustData w.tuf
  fetch nc = fetch_trust_data w.tuf w.http nc

  abbrev pub of_choice : NotaryClient → Image → Repo w.tuf → Result Choice → Option (Result Text)
  of_choice nc img r (err e) = some (err e)
  of_choice nc img r panic = some panic
  of_choice nc img r (ok canonical) = some (search w.tuf nv.name img r targets_only)
  of_choice nc img r (ok (delegated ds)) =
      of_delegations img ds (download_and_validate_delegations w.tuf (w.arrive (fetch nc)) r ds)

  abbrev pub of_base : NotaryClient → RuleOptions → Image → Loop w.tuf → Option (Result Text)
  of_base nc args img blocks = none
  of_base nc args img (stops e r) = some (err (lit "error downloading trust data: " ++ e))
  of_base nc args img (ends r) = of_choice nc img r (prepare args r)

  unfoldable pub download_base_trust_data : NotaryClient → Loop w.tuf
  unfolding receive_all store_base
  download_base_trust_data nc =
      receive_all w.tuf (store_base w.tuf) (length base_names) (w.arrive (fetch nc) base_names)
        (empty_repo w.tuf)

  abbrev pub of_client : RuleOptions → Image → Result NotaryClient → Option (Result Text)
  of_client args img (err e) = some (err (lit "error creating notary client: " ++ e))
  of_client args img panic = some panic
  of_client args img (ok nc) = of_base nc args img (download_base_trust_data nc)

  unfoldable pub validate_image : RuleOptions → Image → Option (Result Text)
  unfolding new_notary_client download_base_trust_data prepare download_and_validate_delegations
      search to_delegation_string
  validate_image args img =
      of_client args img (new_notary_client w.http w.names nv.host nv.cert nv.auth img)
