-- ===== src/Net/Returns.antt =====
-- A call that ends without a fault, with a result of which something holds.
use dolphin_core.Base.{Option, none, some}
use dolphin_core.Net.Shared.{◌>>=◌}

abbrev pub Returns {ℓ} : {A : Type ℓ} → (A → Type 0) → Option A → Type 0
Returns P none = ⊥
Returns P (some a) = P a

pub >>=-Returns {ℓ ℓ'} :
    {A : Type ℓ} {B : Type ℓ'} (P : A → Type 0) (Q : B → Type 0) (o : Option A) (f : A → Option B)
    → Returns P o
    → ((a : A) → P a → Returns Q (f a))
    → Returns Q (o >>= f)
>>=-Returns P Q none f h k = absurd h
>>=-Returns P Q (some a) f h k = k a h

pub Returns-weaken {ℓ} :
    {A : Type ℓ} (P Q : A → Type 0) (o : Option A)
    → Returns P o
    → ((a : A) → P a → Q a)
    → Returns Q o
Returns-weaken P Q none h k = h
Returns-weaken P Q (some a) h k = k a h

-- Of what a call gives if it returns.
abbrev pub IfReturns {ℓ} : {A : Type ℓ} → (A → Type 0) → Option A → Type 0
IfReturns P none = Unit
IfReturns P (some a) = P a

pub >>=-IfReturns {ℓ ℓ'} :
    {A : Type ℓ} {B : Type ℓ'} (P : A → Type 0) (Q : B → Type 0) (o : Option A) (f : A → Option B)
    → IfReturns P o
    → ((a : A) → P a → IfReturns Q (f a))
    → IfReturns Q (o >>= f)
>>=-IfReturns P Q none f h k = tt
>>=-IfReturns P Q (some a) f h k = k a h

pub any_result {ℓ} : {A : Type ℓ} (o : Option A) → IfReturns (λ _. Unit {0}) o
any_result none = tt
any_result (some a) = tt

pub IfReturns-of_Returns {ℓ} :
    {A : Type ℓ} (P : A → Type 0) (o : Option A) → Returns P o → IfReturns P o
IfReturns-of_Returns P none h = tt
IfReturns-of_Returns P (some a) h = h
