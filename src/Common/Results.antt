-- ===== src/Common/Results.antt =====
-- Values and thrown exceptions: `ok` is a normal return, `err` a throw.
use mathlib.Core.Bool.{Bool, true, false}
use mathlib.Core.Path.{◌≡◌, subst}

pub data Result {ℓ} (E : Type ℓ) (A : Type ℓ) : Type ℓ where
  ok : A → Result E A
  err : E → Result E A

infixl 5 ◌>>=◌
abbrev pub ◌>>=◌ {ℓ} : {E A B : Type ℓ} → Result E A → (A → Result E B) → Result E B
ok a >>= f = f a
err e >>= f = err e

abbrev pub guard : {E : Type 0} → Bool → E → Result E (Unit {0})
guard true e = ok tt
guard false e = err e

-- What a result has if it is no error.
abbrev pub OnOk {ℓ ℓ'} : {E A : Type ℓ} → (A → Type ℓ') → Result E A → Type ℓ'
OnOk P (ok a) = P a
OnOk P (err e) = Unit

pub on_ok {ℓ ℓ'} :
    {E A : Type ℓ} → (P : A → Type ℓ') (r : Result E A) (a : A) → OnOk P r → r ≡ ok a → P a
on_ok P r a p e = subst (OnOk P) e p

pub OnOk-map {ℓ ℓ' ℓ''} :
    {E A : Type ℓ} {P : A → Type ℓ'} {Q : A → Type ℓ''} (r : Result E A)
    → ((a : A) → P a → Q a)
    → OnOk P r
    → OnOk Q r
OnOk-map (ok a) f p = f a p
OnOk-map (err e) f p = tt
