-- ===== src/Base/Slots.antt =====
-- The kernel's fixed tables: `while (i < N) { if (!table[i].used) { fill; return i; } i++; }`.
use Prim.Native.Nat.{ℕ, zero, suc, ◌≤◌, ◌<◌}
use mathlib.Core.Path.{◌≡◌, refl}
use mathlib.Core.Logic.{◌⊎◌, inl, inr}
use mathlib.Core.Bool.{Bool, true, false}
use mathlib.Core.Option
use mathlib.Core.Option.{Option, none, some}
use mathlib.Core.List.{List, [], ◌∷◌}
use native.Mathlib.Omega.{arith}
use minic_os.Base.Tests.{if◌then◌else◌, Bool-cases}
use minic_os.Base.Lists.{length, get_elem?, modify}

module _ {ℓ} {A : Type ℓ} where
  -- The first index whose entry passes the test.
  unfoldable pub position : (A → Bool) → List A → Option ℕ
  position p [] = none
  position p (x ∷ xs) = if p x then some 0 else Option.map suc (position p xs)

  -- How many entries pass the test.
  unfoldable pub count_if : (A → Bool) → List A → ℕ
  count_if p [] = 0
  count_if p (x ∷ xs) = if p x then suc (count_if p xs) else count_if p xs

  -- What a search has found out.
  pub record Found (p : A → Bool) (xs : List A) (i : ℕ) (a : A) : Type ℓ where
    pub here : get_elem? xs i ≡ some a
    pub passes : p a ≡ true
    pub first : (j : ℕ) (b : A) → j < i → get_elem? xs j ≡ some b → p b ≡ false

  abbrev pub Missing : (A → Bool) → List A → Type ℓ
  Missing p xs = (j : ℕ) (b : A) → get_elem? xs j ≡ some b → p b ≡ false

  pub Search : (A → Bool) → List A → Option ℕ → Type ℓ
  Search p xs none = Missing p xs
  Search p xs (some i) = (a : A) × Found p xs i a

  Found-zero : (p : A → Bool) (x : A) (xs : List A) → p x ≡ true → Found p (x ∷ xs) 0 x
  Found-zero p x xs h = record { here = refl; passes = h; first = λ j b lt e. absurd (omega arith) }

  Found-suc :
      (p : A → Bool) (x : A) (xs : List A) (i : ℕ) (a : A)
      → p x ≡ false
      → Found p xs i a
      → Found p (x ∷ xs) (suc i) a
  Found-suc p x xs i a h f = record { here = f.here; passes = f.passes; first = earlier }
    where
      earlier : (j : ℕ) (b : A) → j < suc i → get_elem? (x ∷ xs) j ≡ some b → p b ≡ false
      earlier zero b lt e = ground arith
      earlier (suc j) b lt e = f.first j b (omega arith) e

  Missing-cons :
      (p : A → Bool) (x : A) (xs : List A) → p x ≡ false → Missing p xs → Missing p (x ∷ xs)
  Missing-cons p x xs h m zero b e = ground arith
  Missing-cons p x xs h m (suc j) b e = m j b e

  Search-suc :
      (p : A → Bool) (x : A) (xs : List A) (o : Option ℕ)
      → p x ≡ false
      → Search p xs o
      → Search p (x ∷ xs) (Option.map suc o)
  unfolding Search
  Search-suc p x xs none h m = Missing-cons p x xs h m
  Search-suc p x xs (some i) h (a, f) = (a, Found-suc p x xs i a h f)

  -- `position` finds the first entry that passes, and none only if there is none.
  pub position-Search : (p : A → Bool) (xs : List A) → Search p xs (position p xs)
  unfolding position Search
  position-Search p [] = λ j b e. absurd (cc)
  position-Search p (x ∷ xs) = elim (Bool-cases (p x)) [
    | inl h ↦ rw h (x, Found-zero p x xs h)
    | inr h ↦ rw h (Search-suc p x xs (position p xs) h (position-Search p xs))
  ]

  pub position-cases :
      (p : A → Bool) (xs : List A)
      → ((position p xs ≡ none) × Missing p xs)
        ⊎ ((i : ℕ) × (a : A) × (position p xs ≡ some i) × Found p xs i a)
  unfolding Search
  position-cases p xs = go (position p xs) refl (position-Search p xs)
    where
      go :
          (o : Option ℕ)
          → position p xs ≡ o
          → Search p xs o
          → ((position p xs ≡ none) × Missing p xs)
            ⊎ ((i : ℕ) × (a : A) × (position p xs ≡ some i) × Found p xs i a)
      go none e m = inl (e, m)
      go (some i) e (a, f) = inr (i, a, e, f)

  -- An entry that passes is changed into one that does not: one fewer passes.
  pub count_if-modify_fails :
      (p : A → Bool) (xs : List A) (i : ℕ) (f : A → A) (a : A)
      → get_elem? xs i ≡ some a
      → p a ≡ true
      → p (f a) ≡ false
      → suc (count_if p (modify xs i f)) ≡ count_if p xs
  unfolding count_if
  count_if-modify_fails p [] i f a h u v = absurd (cc)
  count_if-modify_fails p (x ∷ xs) zero f a h u v = let e : x ≡ a = ground arith in rw (e, u, v)
  count_if-modify_fails p (x ∷ xs) (suc i) f a h u v =
      ground (arith, count_if-modify_fails p xs i f a h u v)

  pub count_if-modify_passes :
      (p : A → Bool) (xs : List A) (i : ℕ) (f : A → A) (a : A)
      → get_elem? xs i ≡ some a
      → p a ≡ false
      → p (f a) ≡ true
      → count_if p (modify xs i f) ≡ suc (count_if p xs)
  unfolding count_if
  count_if-modify_passes p [] i f a h u v = absurd (cc)
  count_if-modify_passes p (x ∷ xs) zero f a h u v = let e : x ≡ a = ground arith in rw (e, u, v)
  count_if-modify_passes p (x ∷ xs) (suc i) f a h u v =
      ground (arith, count_if-modify_passes p xs i f a h u v)

  pub count_if-le : (p : A → Bool) (xs : List A) → count_if p xs ≤ length xs
  unfolding count_if
  count_if-le p [] = omega arith
  count_if-le p (x ∷ xs) = ground (arith, count_if-le p xs)

  pub count_if-lt :
      (p : A → Bool) (xs : List A) (i : ℕ) (a : A)
      → get_elem? xs i ≡ some a
      → p a ≡ false
      → count_if p xs < length xs
  unfolding count_if
  count_if-lt p [] i a h u = absurd (cc)
  count_if-lt p (x ∷ xs) zero a h u =
      let e : x ≡ a = ground arith in rw (e, u) (omega (arith, count_if-le p xs))
  count_if-lt p (x ∷ xs) (suc i) a h u = ground (arith, count_if-lt p xs i a h u)

  -- Take the first free entry and fill it in, or fail.
  unfoldable pub claim : (A → Bool) → (A → A) → List A → Option ℕ × List A
  claim free fill xs = elim (position free xs) [
    | none ↦ (none, xs)
    | some i ↦ (some i, modify xs i fill)
  ]

  -- What `claim` returns: a full table as it was, or the first free entry filled in.
  pub data Claimed (free : A → Bool) (fill : A → A) (xs : List A) : Option ℕ × List A → Type ℓ where
    full : Missing free xs → Claimed free fill xs (none, xs)
    taken : (i : ℕ) (a : A) → Found free xs i a → Claimed free fill xs (some i, modify xs i fill)

  pub claim-Claimed :
      (free : A → Bool) (fill : A → A) (xs : List A) → Claimed free fill xs (claim free fill xs)
  unfolding claim
  claim-Claimed free fill xs = elim (position-cases free xs) [
    | inl (e, m) ↦ rw (e, claim) (full m)
    | inr (i, a, e, f) ↦ rw (e, claim) (taken i a f)
  ]
