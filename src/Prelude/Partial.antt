-- ===== src/Prelude/Partial.antt =====
-- Code that may panic: `none` stands for a panic (a nil dereference, an index out of range).
use mathlib.Core.Path.{◌≡◌, refl}
use mathlib.Core.Option.{Option, none, some}

infixl 5 ◌>>=◌
abbrev pub ◌>>=◌ {ℓ κ} : {A : Type ℓ} {B : Type κ} → Option A → (A → Option B) → Option B
none >>= f = none
some a >>= f = f a

-- The code returns, and its result satisfies `P`.
abbrev pub Returns {ℓ} : {A : Type ℓ} → Option A → (A → Type 0) → Type 0
Returns none P = ⊥
Returns (some a) P = P a

pub Returns-bind {ℓ κ} :
    {A : Type ℓ} {B : Type κ} (P : A → Type 0) (Q : B → Type 0) (o : Option A) (f : A → Option B)
    → Returns o P
    → ((a : A) → P a → Returns (f a) Q)
    → Returns (o >>= f) Q
Returns-bind P Q none f h k = absurd h
Returns-bind P Q (some a) f h k = k a h

pub Returns_inv {ℓ} :
    {A : Type ℓ} (P : A → Type 0) (o : Option A) → Returns o P → (a : A) × (o ≡ some a) × P a
Returns_inv P none h = absurd h
Returns_inv P (some a) h = (a, refl, h)

-- The result, if the code returns, satisfies `P`.
abbrev pub IfReturns {ℓ} : {A : Type ℓ} → Option A → (A → Type 0) → Type 0
IfReturns none P = Unit
IfReturns (some a) P = P a

pub Returns-IfReturns {ℓ} :
    {A : Type ℓ} (P Q : A → Type 0) (o : Option A)
    → Returns o P
    → IfReturns o Q
    → Returns o (λ a. P a × Q a)
Returns-IfReturns P Q none h k = h
Returns-IfReturns P Q (some a) h k = (h, k)

pub IfReturns-bind {ℓ κ} :
    {A : Type ℓ} {B : Type κ} (P : A → Type 0) (Q : B → Type 0) (o : Option A) (f : A → Option B)
    → IfReturns o P
    → ((a : A) → P a → IfReturns (f a) Q)
    → IfReturns (o >>= f) Q
IfReturns-bind P Q none f h k = tt
IfReturns-bind P Q (some a) f h k = k a h

pub IfReturns_imp {ℓ} :
    {A : Type ℓ} (P Q : A → Type 0) (o : Option A)
    → ((a : A) → P a → Q a)
    → IfReturns o P
    → IfReturns o Q
IfReturns_imp P Q none f h = tt
IfReturns_imp P Q (some a) f h = f a h

pub Returns_imp {ℓ} :
    {A : Type ℓ} (P Q : A → Type 0) (o : Option A)
    → ((a : A) → P a → Q a)
    → Returns o P
    → Returns o Q
Returns_imp P Q none f h = h
Returns_imp P Q (some a) f h = f a h
