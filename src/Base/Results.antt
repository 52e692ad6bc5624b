-- ===== src/Base/Results.antt =====
-- A Go function that returns a value and an error.
use mathlib.Core.Path.{◌≡◌, refl}
use mathlib.Core.Logic.{◌⊎◌, inl, inr}
use mathlib.Core.Option.{Option, none, some}

pub data Result {ℓ κ} (E : Type κ) (A : Type ℓ) : Type (ℓ ⊔ κ) where
  err : E → Result E A
  ok : A → Result E A

infixl 5 ◌>>=◌
abbrev pub ◌>>=◌ {ℓ κ μ} :
    {E : Type μ} {A : Type ℓ} {B : Type κ} → Result E A → (A → Result E B) → Result E B
err failure >>= next = err failure
ok found >>= next = next found

infixl 5 ◌>>◌
abbrev pub ◌>>◌ {ℓ κ μ} :
    {E : Type μ} {A : Type ℓ} {B : Type κ} → Result E A → Result E B → Result E B
call >> next = call >>= λ found. next

-- `fmt.Errorf` with `%w`: the error of a callee becomes an error of the caller.
abbrev pub wrap_err {ℓ κ μ} :
    {E : Type μ} {F : Type κ} {A : Type ℓ} → (E → F) → Result E A → Result F A
wrap_err f (ok a) = ok a
wrap_err f (err e) = err (f e)

-- A missing value as an error.
abbrev pub or_err {ℓ κ} : {E : Type κ} {A : Type ℓ} → E → Option A → Result E A
or_err e none = err e
or_err e (some a) = ok a

-- What a successful chain of calls has found.
pub >>=-eq-ok {ℓ κ μ} :
    {E : Type μ} {A : Type ℓ} {B : Type κ} (call : Result E A) (next : A → Result E B) {out : B}
    → (call >>= next) ≡ ok out
    → (found : A) × (call ≡ ok found) × (next found ≡ ok out)
>>=-eq-ok (err failure) next h = absurd (cc)
>>=-eq-ok (ok found) next h = (found, refl, h)

pub or_err-eq-ok {ℓ κ} :
    {E : Type κ} {A : Type ℓ} (e : E) (o : Option A) {a : A} → or_err e o ≡ ok a → o ≡ some a
or_err-eq-ok e none h = absurd (cc)
or_err-eq-ok e (some b) h = cc

pub wrap_err-eq-ok {ℓ κ μ} :
    {E : Type μ} {F : Type κ} {A : Type ℓ} (f : E → F) (r : Result E A) {a : A}
    → wrap_err f r ≡ ok a
    → r ≡ ok a
wrap_err-eq-ok f (ok b) h = cc
wrap_err-eq-ok f (err e) h = absurd (cc)

pub Result-cases {ℓ κ} :
    {E : Type κ} {A : Type ℓ} (r : Result E A) → ((e : E) × (r ≡ err e)) ⊎ ((a : A) × (r ≡ ok a))
Result-cases (ok a) = inr (a, refl)
Result-cases (err e) = inl (e, refl)
