-- ===== src/Base/Position.antt =====
-- The first entry that passes a test, after a change of one entry.
use Prim.Native.Nat.{ℕ, zero, suc}
use mathlib.Core.Path.{◌≡◌, refl}
use mathlib.Core.Bool.{Bool, true}
use mathlib.Core.Option.{none, some, some-injective}
use mathlib.Core.List.{List, [], ◌∷◌}
use minic_os.Base.Lists.{get_elem?, modify}
use minic_os.Base.Slots.{position, Missing}

module _ {ℓ} {A : Type ℓ} (p : A → Bool) where
  -- A change that does not change the test's answer.
  pub position-modify_same :
      (xs : List A) (i : ℕ) (f : A → A) (a : A)
      → get_elem? xs i ≡ some a
      → p (f a) ≡ p a
      → position p (modify xs i f) ≡ position p xs
  unfolding position
  position-modify_same [] i f a h e = refl
  position-modify_same (x ∷ xs) zero f a h e =
      let here : x ≡ a = some-injective _ _ h in
      let same : p (f x) ≡ p x = rw here e in rw same refl
  position-modify_same (x ∷ xs) (suc i) f a h e = rw (position-modify_same xs i f a h e) refl

  -- The only entry that passes.
  pub position-modify_first :
      (xs : List A) (i : ℕ) (f : A → A) (a : A)
      → get_elem? xs i ≡ some a
      → Missing p xs
      → p (f a) ≡ true
      → position p (modify xs i f) ≡ some i
  unfolding position
  position-modify_first [] i f a h m e = absurd (cc)
  position-modify_first (x ∷ xs) zero f a h m e =
      let here : x ≡ a = some-injective _ _ h in
      let same : p (f x) ≡ true = rw here e in rw same refl
  position-modify_first (x ∷ xs) (suc i) f a h m e =
      rw (m 0 x refl, position-modify_first xs i f a h (λ j b. m (suc j) b) e) refl

  pub position-Missing : (xs : List A) → Missing p xs → position p xs ≡ none
  unfolding position
  position-Missing [] m = refl
  position-Missing (x ∷ xs) m = rw (m 0 x refl, position-Missing xs (λ j b. m (suc j) b)) refl
