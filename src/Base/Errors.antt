-- ===== src/Base/Errors.antt =====
-- A Go result with an error: `(value, nil)` or `(_, err)`.
use mathlib.Core.Path.{◌≡◌, refl, subst}
use mathlib.Core.Bool.{Bool, true, false}
use demesne.Base.Tests.{if◌then◌else◌}
use mathlib.Core.Option.{Option, none, some}

pub data Result {ℓ κ} (E : Type ℓ) (A : Type κ) : Type (ℓ ⊔ κ) where
  err : E → Result E A
  ok : A → Result E A

-- The rest of the block runs only where there was no error.
infixl 5 ◌>>=◌
abbrev pub ◌>>=◌ {ℓ κ μ} :
    {E : Type ℓ} {A : Type κ} {B : Type μ} → Result E A → (A → Result E B) → Result E B
err e >>= _ = err e
ok value >>= rest = rest value

-- `v, ok := o; if !ok { return e }`
abbrev pub require {ℓ κ} : {E : Type ℓ} {A : Type κ} → Option A → E → Result E A
require none e = err e
require (some a) e = ok a

pub bind_inversion {ℓ κ μ} :
    {E : Type ℓ} {A : Type κ} {B : Type μ} (m : Result E A) (rest : A → Result E B) {b : B}
    → (m >>= rest) ≡ ok b
    → (value : A) × (m ≡ ok value) × (rest value ≡ ok b)
bind_inversion (err e) rest h = cc
bind_inversion (ok value) rest h = (value, refl, h)

-- What holds of a value that is there.
abbrev pub Every : {E A : Type 0} → (A → Type 0) → Result E A → Type 0
Every P (err e) = Unit
Every P (ok a) = P a

pub Every-after :
    {E A B : Type 0} (P : A → Type 0) (Q : B → Type 0) (m : Result E A) (f : A → Result E B)
    → Every P m
    → ((a : A) → P a → Every Q (f a))
    → Every Q (m >>= f)
Every-after P Q (err e) f p k = tt
Every-after P Q (ok a) f p k = k a p

pub Every-any :
    {E A B : Type 0} (Q : B → Type 0) (m : Result E A) (f : A → Result E B)
    → ((a : A) → Every Q (f a))
    → Every Q (m >>= f)
Every-any Q (err e) f k = tt
Every-any Q (ok a) f k = k a

pub Every-from :
    {E A B : Type 0} (Q : B → Type 0) (m : Result E A) (f : A → Result E B)
    → ((a : A) → m ≡ ok a → Every Q (f a))
    → Every Q (m >>= f)
Every-from Q (err e) f k = tt
Every-from Q (ok a) f k = k a refl

pub Every-if :
    {E A : Type 0} (Q : A → Type 0) (b : Bool) (x y : Result E A)
    → Every Q x
    → Every Q y
    → Every Q (if b then x else y)
Every-if Q true x y p q = p
Every-if Q false x y p q = q

pub Every-at : {E A : Type 0} (P : A → Type 0) (r : Result E A) (a : A) → Every P r → r ≡ ok a → P a
Every-at P (err e) a p same = absurd (cc same)
Every-at P (ok b) a p same = let equal : b ≡ a = cc same in subst P equal p
