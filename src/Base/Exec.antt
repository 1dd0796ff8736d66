-- ===== src/Base/Exec.antt =====
-- Results of code that indexes an array without a check of its own.
use mathlib.Core.Path.{◌≡◌, refl}
use mathlib.Core.Option.{Option, none, some}
use native.Mathlib.Omega.{arith}

-- `fault` is an access outside an array, where C leaves the behaviour undefined.
pub data Exec {ℓ} (A : Type ℓ) : Type ℓ where
  done : A → Exec A
  fault : Exec A

infixl 5 ◌>>=◌
abbrev pub ◌>>=◌ {ℓ κ} : {A : Type ℓ} {B : Type κ} → Exec A → (A → Exec B) → Exec B
done a >>= f = f a
fault >>= f = fault

-- Read an array at an index.
abbrev pub at_index {ℓ} : {A : Type ℓ} → Option A → Exec A
at_index none = fault
at_index (some a) = done a

pub >>=-eq-done {ℓ κ} :
    {A : Type ℓ} {B : Type κ} (m : Exec A) (f : A → Exec B) {b : B}
    → (m >>= f) ≡ done b
    → (a : A) × (m ≡ done a) × (f a ≡ done b)
>>=-eq-done (done a) f h = (a, refl, h)
>>=-eq-done fault f h = cc

pub at_index-eq-done {ℓ} : {A : Type ℓ} (o : Option A) (a : A) → at_index o ≡ done a → o ≡ some a
at_index-eq-done none a h = cc
at_index-eq-done (some b) a h = ground arith

pub done-injective {ℓ} : {A : Type ℓ} {a b : A} → done a ≡ done b → a ≡ b
done-injective h = ground arith
