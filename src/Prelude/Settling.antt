-- ===== src/Prelude/Settling.antt =====
-- Calls that do not run out of fuel.
use mathlib.Core.Path.{◌≡◌, refl}
use mathlib.Core.Bool.{Bool, true, false}
use mathlib.Core.Option.{Option, none, some}
use ndnpaxos.Prelude.Tests.{if◌then◌else◌}
use ndnpaxos.Prelude.Fallible.{Outcome, ok, fault, spent, ◌>>=◌, deref}

-- The call has a result that satisfies `P`, or is a fault.
abbrev pub Settles {ℓ} : {A : Type ℓ} → (A → Type 0) → Outcome A → Type 0
Settles P (ok a) = P a
Settles P fault = Unit
Settles P spent = ⊥

-- The call has a result, or is a fault.
abbrev pub IsSettled {ℓ} : {A : Type ℓ} → Outcome A → Type 0
IsSettled o = Settles (λ a. Unit) o

pub Settles-bind {ℓ κ} :
    {A : Type ℓ} {B : Type κ} (P : A → Type 0) (Q : B → Type 0) (o : Outcome A) (f : A → Outcome B)
    → Settles P o
    → ((a : A) → P a → Settles Q (f a))
    → Settles Q (o >>= f)
Settles-bind P Q (ok a) f h g = g a h
Settles-bind P Q fault f h g = tt
Settles-bind P Q spent f h g = absurd h

-- A call whose result does not matter.
pub Settles-after {ℓ κ} :
    {A : Type ℓ} {B : Type κ} (Q : B → Type 0) (o : Outcome A) (f : A → Outcome B)
    → IsSettled o
    → ((a : A) → Settles Q (f a))
    → Settles Q (o >>= f)
Settles-after Q (ok a) f h g = g a
Settles-after Q fault f h g = tt
Settles-after Q spent f h g = absurd h

pub Settles-if {ℓ} :
    {A : Type ℓ} (P : A → Type 0) (b : Bool) (o r : Outcome A)
    → (b ≡ true → Settles P o)
    → (b ≡ false → Settles P r)
    → Settles P (if b then o else r)
Settles-if P true o r h g = h refl
Settles-if P false o r h g = g refl

pub Settles-Option {ℓ κ} :
    {A : Type ℓ} {B : Type κ} (P : B → Type 0) (x : Option A) (o : Outcome B) (f : A → Outcome B)
    → (x ≡ none → Settles P o)
    → ((a : A) → x ≡ some a → Settles P (f a))
    → Settles P (elim x [ none ↦ o | some a ↦ f a ])
Settles-Option P none o f h g = h refl
Settles-Option P (some a) o f h g = g a refl

pub Settles-weaken {ℓ} :
    {A : Type ℓ} (P Q : A → Type 0) (o : Outcome A)
    → ((a : A) → P a → Q a)
    → Settles P o
    → Settles Q o
Settles-weaken P Q (ok a) f h = f a h
Settles-weaken P Q fault f h = tt
Settles-weaken P Q spent f h = absurd h

pub deref-IsSettled {ℓ} : {A : Type ℓ} (o : Option A) → IsSettled (deref o)
deref-IsSettled none = tt
deref-IsSettled (some a) = tt
