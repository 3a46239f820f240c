-- ===== src/Prelude/Yields.antt =====
-- A property of the result of code that may fault, carried through a chain.
use mathlib.Core.Path.{◌≡◌, refl, subst}
use mathlib.Core.Option.{Option, none, some}
use mathlib.Core.Bool.{Bool, true, false}
use lsm_workload_aware_compa.Prelude.Tests.{if◌then◌else◌}
use lsm_workload_aware_compa.Prelude.Fallible.{◌>>=◌, some_inj}

-- The result has the property, if there is one.
pub data Yields {ℓ κ} {A : Type ℓ} (P : A → Type κ) : Option A → Type (ℓ ⊔ κ) where
  yields_none : Yields P none
  yields_some : {a : A} → P a → Yields P (some a)

pub bind-Yields {ℓ κ μ} :
    {A : Type ℓ} {B : Type κ} {P : B → Type μ} (o : Option A) {f : A → Option B}
    → ((a : A) → Yields P (f a))
    → Yields P (o >>= f)
bind-Yields none each = yields_none
bind-Yields (some a) each = each a

pub then-Yields {ℓ κ μ ν} :
    {A : Type ℓ} {B : Type κ} {Q : A → Type ν} {P : B → Type μ} {o : Option A} {f : A → Option B}
    → Yields Q o
    → ((a : A) → Q a → Yields P (f a))
    → Yields P (o >>= f)
then-Yields yields_none each = yields_none
then-Yields (yields_some q) each = each _ q

pub map-Yields {ℓ κ μ} :
    {A : Type ℓ} {Q : A → Type κ} {P : A → Type μ} {o : Option A}
    → ((a : A) → Q a → P a)
    → Yields Q o
    → Yields P o
map-Yields f yields_none = yields_none
map-Yields f (yields_some q) = yields_some (f _ q)

pub yielded {ℓ κ} :
    {A : Type ℓ} {P : A → Type κ} {o : Option A} {a : A} → Yields P o → o ≡ some a → P a
yielded yields_none same = cc
yielded {P = P} (yields_some p) same = subst P (some_inj same) p

pub if-Yields {ℓ κ} :
    {A : Type ℓ} {P : A → Type κ} (b : Bool) {x y : Option A}
    → (b ≡ true → Yields P x)
    → (b ≡ false → Yields P y)
    → Yields P (if b then x else y)
if-Yields true on_true on_false = on_true refl
if-Yields false on_true on_false = on_false refl
