-- ===== src/Prelude/Results.antt =====
-- What may throw: a value, or the error that was thrown.
use mathlib.Core.Path.{◌≡◌, refl}
use mathlib.Core.Bool.{Bool, true, false}
use mathlib.Core.Option.{Option, none, some}

pub data Result (E A : Type 0) : Type 0 where
  ok : A → Result E A
  err : E → Result E A

infixl 5 ◌>>=◌ ◌>>◌
abbrev pub ◌>>=◌ : {E A B : Type 0} → (outcome : Result E A) → (A → Result E B) → Result E B
err thrown >>= next_step = err thrown
ok value >>= next_step = next_step value

abbrev pub ◌>>◌ : {E B : Type 0} → (check : Result E (Unit {0})) → Result E B → Result E B
check >> next_step = check >>= λ _. next_step

-- `if (c) throw e;`
abbrev pub throw_if : {E : Type 0} → Bool → E → Result E (Unit {0})
throw_if true e = err e
throw_if false e = ok tt

-- A read of a property of what may be missing.
abbrev pub or_throw : {E A : Type 0} → Option A → E → Result E A
or_throw none e = err e
or_throw (some a) e = ok a

-- What a successful chain went through.
pub >>=-eq-ok :
    {E A B : Type 0} (outcome : Result E A) (next_step : A → Result E B) {result : B}
    → (outcome >>= next_step) ≡ ok result
    → (value : A) × (outcome ≡ ok value) × (next_step value ≡ ok result)
>>=-eq-ok (err thrown) next_step h = cc
>>=-eq-ok (ok value) next_step h = (value, refl, h)

pub throw_if-eq-ok :
    {E B : Type 0} (c : Bool) (e : E) (k : Result E B) {b : B}
    → (throw_if c e >> k) ≡ ok b
    → (c ≡ false) × (k ≡ ok b)
throw_if-eq-ok true e k h = cc
throw_if-eq-ok false e k h = (refl, h)

pub ok-injective : {E A : Type 0} {a b : A} → ◌≡◌ {A = Result E A} (ok a) (ok b) → a ≡ b
ok-injective h = cc

-- The same with the parts handed on, so that they are variables in what follows.
pub unbind {ℓ} :
    {E A B : Type 0} {P : Type ℓ} (m : Result E A) (f : A → Result E B) {b : B}
    → (m >>= f) ≡ ok b
    → ((a : A) → m ≡ ok a → f a ≡ ok b → P)
    → P
unbind (ok a) f h k = k a refl h
unbind (err e) f h k = absurd (cc h)

pub unthrow {ℓ} :
    {E B : Type 0} {P : Type ℓ} (c : Bool) (e : E) (k : Result E B) {b : B}
    → (throw_if c e >> k) ≡ ok b
    → (c ≡ false → k ≡ ok b → P)
    → P
unthrow true e k h use_parts = absurd (cc h)
unthrow false e k h use_parts = use_parts refl h
