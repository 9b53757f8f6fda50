-- ===== src/Validators/Notary/Validator/Vouched.antt =====
-- What a digest that the Notary v1 validator returns rests on.
use connaisseur.Prelude.{
  ◌≡◌, true, false, Option, some, List, Text, lit, contains, is_empty, All, ok, err,
}
use connaisseur.Image.{Image}
use connaisseur.Policy.{RuleOptions}
use connaisseur.Validators.Notary.{Repo}
use connaisseur.Validators.Notary.Client.{NotaryClient, new_notary_client}
use connaisseur.Validators.Notary.Download.{ends}
use connaisseur.Validators.Notary.Base.Checked.{IsTrusted}
use connaisseur.Validators.Notary.Delegations.{
  has_delegations, has_delegation_hashes, download_and_validate_delegations,
}
use connaisseur.Validators.Notary.Delegations.Kept.{IsKept}
use connaisseur.Validators.Notary.Delegations.Checked.{IsValid}
use connaisseur.Validators.Notary.Search.Found.{StandsFor}
use connaisseur.Validators.Notary.Validator.{
  NotaryV1Validator, asked, targets_only, World, trust_root_keys, fetch, download_base_trust_data,
}

module _ (w : World) (nv : NotaryV1Validator) (args : RuleOptions) where
  -- Which files are searched in the repository that is left: the targets role alone, where neither the
  -- options nor the base roles name a delegation, or where the download of the delegations ended with the
  -- error that the data of one could not be acquired and the snapshot lists not all of them; or else the delegations that are asked for,
  -- each of which passed the checks.
  pub data Source (nc : NotaryClient) (base left : Repo w.tuf) : List Text → Type 0 where
    of_targets :
        is_empty args.delegations ≡ true
        → has_delegations w.tuf base ≡ ok false
        → Source nc base left targets_only
    falls_back :
        (e : Text)
        → download_and_validate_delegations w.tuf (w.arrive (fetch w nv nc)) base (asked args)
          ≡ some (err e, left)
        → contains e (lit "error acquiring trust data") ≡ true
        → has_delegation_hashes w.tuf left (asked args) ≡ ok false
        → Source nc base left targets_only
    of_delegated : All (IsValid w.tuf left) (asked args) → Source nc base left (asked args)

  -- The base roles are downloaded and vouched for by the keys of the trust root, they are kept, and the
  -- digest stands for the image in each of the files.
  pub record IsVouched (img : Image) (d : Text) : Type 0 where
    pub nc : NotaryClient
    pub client : new_notary_client w.http w.names nv.host nv.cert nv.auth img ≡ ok nc
    pub base : Repo w.tuf
    pub downloaded : download_base_trust_data w nv nc ≡ ends base
    pub keys : List w.tuf.PublicKey
    pub loaded : trust_root_keys w nv args.trust_root ≡ ok keys
    pub trusted : IsTrusted w.tuf base keys
    pub left : Repo w.tuf
    pub kept : IsKept w.tuf base left
    pub files : List Text
    pub source : Source nc base left files
    pub listed : All (StandsFor w.tuf img left d) files

  record Searched (nc : NotaryClient) (img : Image) (base : Repo w.tuf) (d : Text) : Type 0 where
    left : Repo w.tuf
    kept : IsKept w.tuf base left
    files : List Text
    source : Source nc base left files
    listed : All (StandsFor w.tuf img left d) files
