-- ===== src/Prelude/Results.antt =====
-- A Go result: a value, an error by its message, or a panic (index out of range, nil pointer).
use mathlib.Core.Path.{◌≡◌, refl}
use mathlib.Core.Logic.{◌≢◌, ◌⊎◌, inl, inr}
use mathlib.Core.Bool.{Bool, true, false, not}
use native.Mathlib.Omega.{arith}
use connaisseur.Prelude.Strings.{Text}
use connaisseur.Prelude.Tests.{if◌then◌else◌}

pub data Result {ℓ} (A : Type ℓ) : Type ℓ where
  ok : A → Result A
  err : Text → Result A
  panic : Result A

infixl 5 ◌>>=◌
abbrev pub ◌>>=◌ {ℓ κ} : {A : Type ℓ} {B : Type κ} → Result A → (A → Result B) → Result B
panic >>= next = panic
err message >>= next = err message
ok x >>= next = next x

-- `if err != nil { return fmt.Errorf("<before>%s", err) }`
abbrev pub map_err {ℓ} : {A : Type ℓ} → (Text → Text) → Result A → Result A
map_err f (ok a) = ok a
map_err f (err e) = err (f e)
map_err f panic = panic

pub >>=-eq-ok {ℓ κ} :
    {A : Type ℓ} {B : Type κ} {y : B} (result : Result A) (next : A → Result B)
    → (result >>= next) ≡ ok y
    → (x : A) × (result ≡ ok x) × (next x ≡ ok y)
>>=-eq-ok (ok x) next returned = (x, refl, returned)
>>=-eq-ok (err message) next returned = ground arith
>>=-eq-ok panic next returned = ground arith

pub map_err-eq-ok {ℓ} :
    {A : Type ℓ} (g : Text → Text) (m : Result A) {a : A} → map_err g m ≡ ok a → m ≡ ok a
map_err-eq-ok g (ok a) h = h
map_err-eq-ok g (err e) h = ground arith
map_err-eq-ok g panic h = ground arith

pub ok-injective {ℓ} : {A : Type ℓ} {a b : A} → ok a ≡ ok b → a ≡ b
ok-injective h = cc

-- where a chain of calls cannot panic
pub >>=-no_panic {ℓ κ} :
    {A : Type ℓ} {B : Type κ} (m : Result A) (next : A → Result B)
    → m ≢ panic
    → ((a : A) → m ≡ ok a → next a ≢ panic)
    → (m >>= next) ≢ panic
>>=-no_panic (ok a) next h k = k a refl
>>=-no_panic (err e) next h k = λ q. absurd (ground arith)
>>=-no_panic panic next h k = λ q. h refl

pub map_err-no_panic {ℓ} :
    {A : Type ℓ} (g : Text → Text) (m : Result A) → m ≢ panic → map_err g m ≢ panic
map_err-no_panic g (ok a) h = λ q. absurd (ground arith)
map_err-no_panic g (err e) h = λ q. absurd (ground arith)
map_err-no_panic g panic h = λ q. h refl

pub ok-no_panic {ℓ} : {A : Type ℓ} (a : A) → ok a ≢ panic
ok-no_panic a = λ q. absurd (ground arith)

pub err-no_panic {ℓ} : {A : Type ℓ} (e : Text) → ¬ Path (Result A) (err e) panic
err-no_panic e = λ q. absurd (ground arith)

pub if-no_panic {ℓ} :
    {A : Type ℓ} (b : Bool) (x y : Result A) → x ≢ panic → y ≢ panic → (if b then x else y) ≢ panic
if-no_panic true x y h k = h
if-no_panic false x y h k = k

-- a guard that returned an error did not
pub guarded-ok {ℓ} :
    {A : Type ℓ} (b : Bool) (e : Text) (y : Result A) (a : A)
    → (if b then err e else y) ≡ ok a
    → (b ≡ false) × (y ≡ ok a)
guarded-ok true e y a h = absurd (ground arith)
guarded-ok false e y a h = (refl, h)

pub unless-ok {ℓ} :
    {A : Type ℓ} (b : Bool) (x y : Result A) (a : A)
    → (if not b then x else y) ≡ ok a
    → ((b ≡ true) × (y ≡ ok a)) ⊎ ((b ≡ false) × (x ≡ ok a))
unless-ok true x y a h = inl (refl, h)
unless-ok false x y a h = inr (refl, h)
