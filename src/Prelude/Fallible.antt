-- ===== src/Prelude/Fallible.antt =====
-- What a call comes to: a result, a fault, or fuel that ran out. A fault is what C++ leaves
-- undefined (a null pointer, an index or a `front` out of range) or an exception nobody catches.
use mathlib.Core.Path.{◌≡◌, subst}
use mathlib.Core.Bool.{Bool, true, false}
use ndnpaxos.Prelude.Tests.{if◌then◌else◌}
use mathlib.Core.Option.{Option, none, some}

pub data Outcome {ℓ} (A : Type ℓ) : Type ℓ where
  ok : A → Outcome A
  fault : Outcome A
  spent : Outcome A

infixl 5 ◌>>=◌
abbrev pub ◌>>=◌ {ℓ κ} : {A : Type ℓ} {B : Type κ} → Outcome A → (A → Outcome B) → Outcome B
ok a >>= f = f a
fault >>= f = fault
spent >>= f = spent

-- `*p`: the value that a pointer points to.
abbrev pub deref {ℓ} : {A : Type ℓ} → Option A → Outcome A
deref none = fault
deref (some a) = ok a

pub ok-injective {ℓ} : {A : Type ℓ} {a b : A} → ok a ≡ ok b → a ≡ b
ok-injective e = cc

pub some-injective {ℓ} : {A : Type ℓ} {a b : A} → some a ≡ some b → a ≡ b
some-injective e = cc

-- Where a result satisfies `P`, if there is one.
abbrev pub Ends {ℓ κ} : {A : Type ℓ} → (A → Type κ) → Outcome A → Type κ
Ends P (ok a) = P a
Ends P fault = Unit
Ends P spent = Unit

pub Ends-ok {ℓ κ} :
    {A : Type ℓ} (P : A → Type κ) {o : Outcome A} {a : A} → Ends P o → o ≡ ok a → P a
Ends-ok P h e = subst (Ends P) e h

pub Ends-bind {ℓ κ μ ν} :
    {A : Type ℓ} {B : Type κ} (P : A → Type μ) (Q : B → Type ν) (o : Outcome A) (f : A → Outcome B)
    → Ends P o
    → ((a : A) → P a → Ends Q (f a))
    → Ends Q (o >>= f)
Ends-bind P Q (ok a) f h g = g a h
Ends-bind P Q fault f h g = tt
Ends-bind P Q spent f h g = tt

-- A call whose result does not matter.
pub Ends-after {ℓ κ ν} :
    {A : Type ℓ} {B : Type κ} (Q : B → Type ν) (o : Outcome A) (f : A → Outcome B)
    → ((a : A) → Ends Q (f a))
    → Ends Q (o >>= f)
Ends-after Q (ok a) f g = g a
Ends-after Q fault f g = tt
Ends-after Q spent f g = tt

pub Ends-if {ℓ κ} :
    {A : Type ℓ} (P : A → Type κ) (b : Bool) (o r : Outcome A)
    → Ends P o
    → Ends P r
    → Ends P (if b then o else r)
Ends-if P true o r h g = h
Ends-if P false o r h g = g

pub Ends-Option {ℓ κ μ} :
    {A : Type ℓ} {B : Type κ} (P : B → Type μ) (x : Option A) (o : Outcome B) (f : A → Outcome B)
    → Ends P o
    → ((a : A) → Ends P (f a))
    → Ends P (elim x [ none ↦ o | some a ↦ f a ])
Ends-Option P none o f h g = h
Ends-Option P (some a) o f h g = g a

pub Ends-weaken {ℓ κ μ} :
    {A : Type ℓ} (P : A → Type κ) (Q : A → Type μ) (o : Outcome A)
    → ((a : A) → P a → Q a)
    → Ends P o
    → Ends Q o
Ends-weaken P Q (ok a) f h = f a h
Ends-weaken P Q fault f h = tt
Ends-weaken P Q spent f h = tt
