-- ===== src/Validators/Notary/Download/Grows.antt =====
-- What is there in a repository stays there when the data of a base role are stored.
use connaisseur.Prelude.{
  ◌≡◌, refl, sym, subst, ◌∙◌, ◌⊎◌, inl, inr, Bool, true, false, Option, some, List, ◌++◌, arith,
  Text, lit, text_eq, text_eq_iff, if◌then◌else◌, Bool-cases,
}
use mathlib.Core.Sum.{inl-injective}
use connaisseur.Validators.Notary.{
  Role, root, targets, snapshot, timestamp, role_name, Tuf, find_at, set_at, Repo, TrustData,
}
use connaisseur.Validators.Notary.Calls.{find_at-set_at, find_at-set_at_other}
use connaisseur.Validators.Notary.Download.{with_checksum, or_error, parse_base, stored, store_base}

abbrev pub IsThere : {A : Type 0} → Option A → Type 0
IsThere {A} o = (a : A) × (o ≡ some a)

set_at-IsThere :
    {A : Type 0} (m : List (Text × A)) (key other : Text) (a : A)
    → IsThere (find_at m other)
    → IsThere (find_at (set_at m key a) other)
set_at-IsThere m key other a (b, q) = elim (Bool-cases (text_eq key other)) [
  | inl e ↦
      let same = (text_eq_iff key other).0 e in
      (a, subst (λ k. find_at (set_at m key a) k ≡ some a) same (find_at-set_at m key a))
  | inr e ↦ (b, find_at-set_at_other m key other a e ∙ q)
]

module _ (tuf : Tuf) where
  -- The data of the base role are there.
  abbrev pub Has : Role → Repo tuf → Type 0
  Has root r = IsThere r.root
  Has targets r = IsThere (find_at r.targets (lit "targets"))
  Has snapshot r = IsThere r.snapshot
  Has timestamp r = IsThere r.timestamp

  abbrev pub HasBytes : Text → Repo tuf → Type 0
  HasBytes name r = IsThere (find_at r.not_checked_checksums name)

  -- What is there stays there.
  pub record Grows (r r' : Repo tuf) : Type 0 where
    pub roles : (role : Role) → Has role r → Has role r'
    pub bytes : (name : Text) → HasBytes name r → HasBytes name r'

  or_error-ok :
      {A : Type 0} (role : Text) (put : A → Repo tuf) (c : A ⊎ Text) (r' : Repo tuf)
      → or_error tuf role put c ≡ inl r'
      → (a : A) × (put a ≡ r')
  or_error-ok role put (inl a) r' h = (a, ground arith)
  or_error-ok role put (inr e) r' h = absurd (ground arith)

  -- where the checksums stay as they are
  Grows-roles :
      (r r' : Repo tuf)
      → r'.not_checked_checksums ≡ r.not_checked_checksums
      → (Has root r → Has root r')
      → (Has targets r → Has targets r')
      → (Has snapshot r → Has snapshot r')
      → (Has timestamp r → Has timestamp r')
      → Grows r r'
  Grows-roles r r' same f g h k = record {
    roles = at_role;
    bytes = λ name there. subst (λ m. IsThere (find_at m name)) (sym same) there;
  }
    where
      at_role : (role : Role) → Has role r → Has role r'
      at_role root = f
      at_role targets = g
      at_role snapshot = h
      at_role timestamp = k

  Grows-refl : (r : Repo tuf) → Grows r r
  Grows-refl r = Grows-roles r r refl (λ h. h) (λ h. h) (λ h. h) (λ h. h)

  Grows-root : (r : Repo tuf) (a : tuf.SignedRoot) → Grows r (record r { root = some a })
  Grows-root r a = Grows-roles r _ refl (λ h. (a, refl)) (λ h. h) (λ h. h) (λ h. h)

  Grows-targets :
      (r : Repo tuf) (a : tuf.SignedTargets)
      → Grows r (record r { targets = set_at r.targets (lit "targets") a })
  Grows-targets r a =
      Grows-roles r _ refl (λ h. h) (set_at-IsThere r.targets (lit "targets") (lit "targets") a)
        (λ h. h) (λ h. h)

  Grows-snapshot :
      (r : Repo tuf) (a : tuf.SignedSnapshot) → Grows r (record r { snapshot = some a })
  Grows-snapshot r a = Grows-roles r _ refl (λ h. h) (λ h. h) (λ h. (a, refl)) (λ h. h)

  Grows-timestamp :
      (r : Repo tuf) (a : tuf.SignedTimestamp) → Grows r (record r { timestamp = some a })
  Grows-timestamp r a = Grows-roles r _ refl (λ h. h) (λ h. h) (λ h. h) (λ h. (a, refl))

  or_error-Grows :
      {A : Type 0} (role : Text) (put : A → Repo tuf) (c : A ⊎ Text) (r r' : Repo tuf)
      → ((a : A) → Grows r (put a))
      → or_error tuf role put c ≡ inl r'
      → Grows r r'
  or_error-Grows role put c r r' g h =
      let (a, e) = or_error-ok role put c r' h in subst (Grows r) e (g a)

  parse_base-Grows :
      (role : Text) (signed : tuf.Signed) (r r' : Repo tuf)
      → parse_base tuf role signed r ≡ inl r'
      → Grows r r'
  unfolding parse_base
  parse_base-Grows role signed r r' h =
      of_tests (text_eq role (lit "root")) (text_eq role (lit "targets"))
        (text_eq role (lit "snapshot")) (text_eq role (lit "timestamp")) h
    where
      of_tests :
          (a b c d : Bool)
          → (if a
              then or_error tuf role (λ a. record r { root = some a }) (tuf.root_from_signed signed)
              else if b
              then or_error tuf role
                  (λ a. record r { targets = set_at r.targets (lit "targets") a })
                  (tuf.targets_from_signed signed (lit "targets"))
              else if c
              then or_error tuf role
                  (λ a. record r { snapshot = some a })
                  (tuf.snapshot_from_signed signed)
              else if d
              then or_error tuf role
                  (λ a. record r { timestamp = some a })
                  (tuf.timestamp_from_signed signed)
              else inl r)
            ≡ inl r'
          → Grows r r'
      of_tests true b c d k =
          or_error-Grows role _ (tuf.root_from_signed signed) r r' (Grows-root r) k
      of_tests false true c d k =
          or_error-Grows role _ (tuf.targets_from_signed signed (lit "targets")) r r'
            (Grows-targets r) k
      of_tests false false true d k =
          or_error-Grows role _ (tuf.snapshot_from_signed signed) r r' (Grows-snapshot r) k
      of_tests false false false true k =
          or_error-Grows role _ (tuf.timestamp_from_signed signed) r r' (Grows-timestamp r) k
      of_tests false false false false k = subst (Grows r) (inl-injective _ _ k) (Grows-refl r)

  pub parse_base-Has :
      (role : Role) (signed : tuf.Signed) (r r' : Repo tuf)
      → parse_base tuf (role_name role) signed r ≡ inl r'
      → Has role r'
  unfolding parse_base lit text_eq
  parse_base-Has root signed r r' h =
      let (a, e) = or_error-ok (role_name root) _ (tuf.root_from_signed signed) r' h in
      subst (Has root) e (a, refl)
  parse_base-Has targets signed r r' h =
      let (a, e) =
        or_error-ok (role_name targets) _ (tuf.targets_from_signed signed (lit "targets")) r' h in
      subst (Has targets) e (a, find_at-set_at r.targets (lit "targets") a)
  parse_base-Has snapshot signed r r' h =
      let (a, e) = or_error-ok (role_name snapshot) _ (tuf.snapshot_from_signed signed) r' h in
      subst (Has snapshot) e (a, refl)
  parse_base-Has timestamp signed r r' h =
      let (a, e) = or_error-ok (role_name timestamp) _ (tuf.timestamp_from_signed signed) r' h in
      subst (Has timestamp) e (a, refl)

  -- What the body of the loop stored.
  pub record IsStored (t : TrustData tuf) (r r' : Repo tuf) : Type 0 where
    pub raw : Text
    pub signed : tuf.Signed
    pub parsed : Repo tuf
    pub parse : parse_base tuf t.role signed r ≡ inl parsed
    pub left : with_checksum tuf t raw parsed ≡ r'

  pub store_base-IsStored :
      (t : TrustData tuf) (r r' : Repo tuf) → store_base tuf t r ≡ inl r' → IsStored t r r'
  unfolding store_base
  store_base-IsStored t r r' h = of_content t.content refl h
    where
      of_parsed :
          (raw : Text) (signed : tuf.Signed) (c : Repo tuf ⊎ Text)
          → parse_base tuf t.role signed r ≡ c
          → stored tuf t raw c ≡ inl r'
          → IsStored t r r'
      of_parsed raw signed (inr e) q k = absurd (ground arith)
      of_parsed raw signed (inl s) q k = record {
        raw = raw;
        signed = signed;
        parsed = s;
        parse = q;
        left = inl-injective _ _ k;
      }

      of_content :
          (c : (tuf.Signed × Text) ⊎ Text)
          → t.content ≡ c
          → elim c as (λ _. Repo tuf ⊎ Text) [
            | inr e ↦ inr (lit "error acquiring trust data " ++ (t.role ++ (lit ": " ++ e)))
            | inl (signed, raw) ↦ stored tuf t raw (parse_base tuf t.role signed r)
          ]
            ≡ inl r'
          → IsStored t r r'
      of_content (inr e) q k = absurd (ground arith)
      of_content (inl (signed, raw)) q k =
          of_parsed raw signed (parse_base tuf t.role signed r) refl k

  pub with_checksum-Has :
      (t : TrustData tuf) (role : Role) (raw : Text) (s : Repo tuf)
      → Has role s
      → Has role (with_checksum tuf t raw s)
  with_checksum-Has t root raw s h = h
  with_checksum-Has t targets raw s h = h
  with_checksum-Has t snapshot raw s h = h
  with_checksum-Has t timestamp raw s h = h

  pub store_base-Grows :
      (t : TrustData tuf) (r r' : Repo tuf) → store_base tuf t r ≡ inl r' → Grows r r'
  store_base-Grows t r r' h =
      let i = store_base-IsStored t r r' h in
      let g = parse_base-Grows t.role i.signed r i.parsed i.parse in
      subst (Grows r) i.left (record {
        roles = λ role there. with_checksum-Has t role i.raw i.parsed (g.roles role there);
        bytes = λ name there.
            set_at-IsThere i.parsed.not_checked_checksums t.role name i.raw (g.bytes name there);
      })
