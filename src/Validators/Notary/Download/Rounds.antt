-- ===== src/Validators/Notary/Download/Rounds.antt =====
-- The loops that receive trust data: what every round keeps, what the data of a role put, and when a
-- loop does not block.
use connaisseur.Prelude.{
  ℕ, zero, suc, ◌≤◌, ◌≡◌, refl, sym, ap, subst, ◌≢◌, ◌⊎◌, inl, inr, List, [], ◌∷◌, ◌++◌, arith,
  Text, length, In, In-append_right, In-parts, parts-In, length-parts,
}
use connaisseur.Validators.Notary.{Tuf, Repo, TrustData, Arrival, cancelled, arrives}
use connaisseur.Validators.Notary.Download.{
  Loop, blocks, stops, ends, Store, receive_all, IsFetched, quiet, stops_early, sends,
}

module _ (tuf : Tuf) (store : Store tuf) where
  -- The repository that a loop leaves, where it leaves one, has the property.
  abbrev pub Leaves : (Repo tuf → Type 0) → Loop tuf → Type 0
  Leaves P blocks = Unit
  Leaves P (stops e r) = P r
  Leaves P (ends r) = P r

  -- A loop waits for ever only where fewer data arrive than it has rounds.
  pub receive_all-returns :
      (n : ℕ) (arrivals : List (Arrival tuf)) (r : Repo tuf)
      → n ≤ length arrivals
      → receive_all tuf store n arrivals r ≢ blocks
  unfolding receive_all
  receive_all-returns zero arrivals r l = λ q. absurd (ground arith)
  receive_all-returns (suc n) [] r l = absurd (omega arith)
  receive_all-returns (suc n) (cancelled ∷ arrivals) r l = λ q. absurd (ground arith)
  receive_all-returns (suc n) (arrives t ∷ arrivals) r l =
      of_stored (store t r) (λ r'. receive_all-returns n arrivals r' (omega arith))
    where
      of_stored :
          (c : Repo tuf ⊎ Text)
          → ((r' : Repo tuf) → receive_all tuf store n arrivals r' ≢ blocks)
          → elim c as (λ _. Loop tuf) [
            | inl r' ↦ receive_all tuf store n arrivals r'
            | inr e ↦ stops e r
          ]
            ≢ blocks
      of_stored (inl r') later = later r'
      of_stored (inr e) later = λ q. absurd (ground arith)

  module _ (fetch : Text → TrustData tuf) where
    -- A property that the data of each of the roles keep is kept by the loop.
    pub receive_all-Leaves :
        (P : Repo tuf → Type 0) (n : ℕ) (roles : List Text) (arrivals : List (Arrival tuf))
        (r : Repo tuf)
        → IsFetched tuf fetch roles arrivals
        → ((role : Text) (s s' : Repo tuf)
            → In role roles
            → store (fetch role) s ≡ inl s'
            → P s
            → P s')
        → P r
        → Leaves P (receive_all tuf store n arrivals r)
    unfolding receive_all
    receive_all-Leaves P zero roles _ r _ keeps p = p
    receive_all-Leaves P (suc n) roles _ r quiet keeps p = tt
    receive_all-Leaves P (suc n) roles _ r (stops_early rest) keeps p = p
    receive_all-Leaves P (suc n) roles _ r (sends {rest} before role after e f) keeps p =
        of_stored (store (fetch role) r) refl (λ r' q.
          receive_all-Leaves P n (before ++ after) rest r' f
            (λ x s s' m. keeps x s s' (subst (In x) (sym e) (parts-In x role before after m))) q)
      where
        of_stored :
            (c : Repo tuf ⊎ Text)
            → store (fetch role) r ≡ c
            → ((r' : Repo tuf) → P r' → Leaves P (receive_all tuf store n rest r'))
            → Leaves P (elim c as (λ _. Loop tuf) [
              | inl r' ↦ receive_all tuf store n rest r'
              | inr e ↦ stops e r
            ])
        of_stored (inl r') q later = later r' (
            keeps role r r'
              (subst (In role) (sym e) (In-append_right role before (role ∷ after) (inl refl))) q p)
        of_stored (inr e) q later = p

    -- Where the loop stores the data of all roles, each role's data have put what they put.
    pub receive_all-Puts :
        (P : Text → Repo tuf → Type 0)
        → ((role other : Text) (s s' : Repo tuf)
            → store (fetch other) s ≡ inl s'
            → P role s
            → P role s')
        → ((role : Text) (s s' : Repo tuf) → store (fetch role) s ≡ inl s' → P role s')
        → (n : ℕ) (roles : List Text) (arrivals : List (Arrival tuf)) (r r' : Repo tuf)
        → IsFetched tuf fetch roles arrivals
        → n ≡ length roles
        → receive_all tuf store n arrivals r ≡ ends r'
        → (role : Text) → In role roles
        → P role r'
    unfolding receive_all
    receive_all-Puts P keeps puts zero [] _ r r' _ l h role m = absurd m
    receive_all-Puts P keeps puts zero (x ∷ roles) _ r r' _ l h role m = absurd (omega arith)
    receive_all-Puts P keeps puts (suc n) roles _ r r' quiet l h role m = absurd (ground arith)
    receive_all-Puts P keeps puts (suc n) roles _ r r' (stops_early rest) l h role m =
        absurd (ground arith)
    receive_all-Puts P keeps puts (suc n) roles _ r r' (sends {rest} before x after e f) l h role
          m =
        of_stored (store (fetch x) r) refl h
          (λ s k i.
            receive_all-Puts P keeps puts n (before ++ after) rest s r' f
              (omega (arith, ap length e, length-parts x before after)) k role i)
          (In-parts role x before after (subst (In role) e m))
      where
        of_stored :
            (c : Repo tuf ⊎ Text)
            → store (fetch x) r ≡ c
            → elim c as (λ _. Loop tuf) [
              | inl s ↦ receive_all tuf store n rest s
              | inr e ↦ stops e r
            ]
              ≡ ends r'
            → ((s : Repo tuf)
                → receive_all tuf store n rest s ≡ ends r'
                → In role (before ++ after)
                → P role r')
            → (role ≡ x) ⊎ In role (before ++ after)
            → P role r'
        of_stored (inr message) q k later i = absurd (ground arith)
        of_stored (inl s) q k later (inr i) = later s k i
        of_stored (inl s) q k later (inl same) = subst (Leaves (P role)) k (
            receive_all-Leaves (P role) n (before ++ after) rest s f
              (λ other t t' _ w p. keeps role other t t' w p)
              (subst (λ y. P y s) (sym same) (puts x r s q)))
