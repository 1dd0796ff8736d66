-- ===== src/Base/Below.antt =====
-- Tests on every number below a bound, and how many pass one.
use Prim.Native.Nat.{ℕ, zero, suc, ◌≤◌, ◌<◌}
use mathlib.Core.Path.{◌≡◌, refl, sym, ap}
use mathlib.Core.Logic.{◌≢◌}
use mathlib.Core.Bool.{Bool, true, false, ◌&&◌}
use native.Mathlib.Omega.{arith}
use native.Mathlib.Decide.{ℕ_discrete}
use minic_os.Base.Tests.{if◌then◌else◌}

-- Two tests have one answer.
unfoldable pub same_bool : Bool → Bool → Bool
same_bool true b = b
same_bool false true = false
same_bool false false = true

pub same_bool_lem : (a b : Bool) → same_bool a b ≡ true → a ≡ b
unfolding same_bool
same_bool_lem a b h = ground arith

-- The test passes at every number below `n`.
unfoldable pub all_below : ℕ → (ℕ → Bool) → Bool
all_below zero p = true
all_below (suc n) p = p n && all_below n p

pub and_left : (a b : Bool) → (a && b) ≡ true → a ≡ true
and_left a b h = ground arith

pub and_right : (a b : Bool) → (a && b) ≡ true → b ≡ true
and_right a b h = ground arith

pub all_below_lem : (n : ℕ) (p : ℕ → Bool) (k : ℕ) → all_below n p ≡ true → k < n → p k ≡ true
unfolding all_below
all_below_lem zero p k h lt = absurd (omega arith)
all_below_lem (suc n) p k h lt = elim (ℕ_discrete k n) [
  | yes e ↦ rw e (and_left (p n) (all_below n p) h)
  | no ne ↦ all_below_lem n p k (and_right (p n) (all_below n p) h) (omega arith)
]

-- How many numbers below `n` pass the test.
unfoldable pub count_below : ℕ → (ℕ → Bool) → ℕ
count_below zero p = 0
count_below (suc n) p = if p n then suc (count_below n p) else count_below n p

pub count_below-ext :
    (n : ℕ) (p q : ℕ → Bool) → ((k : ℕ) → k < n → p k ≡ q k) → count_below n p ≡ count_below n q
unfolding count_below
count_below-ext zero p q h = refl
count_below-ext (suc n) p q h =
    let rest : count_below n p ≡ count_below n q =
      count_below-ext n p q (λ k lt. h k (omega arith)) in
    rw (h n (omega arith), rest)

-- A test that passes at one more number.
pub count_below-gain :
    (n : ℕ) (p q : ℕ → Bool) (i : ℕ)
    → i < n
    → p i ≡ false
    → q i ≡ true
    → ((k : ℕ) → k < n → k ≢ i → p k ≡ q k)
    → count_below n q ≡ suc (count_below n p)
unfolding count_below
count_below-gain zero p q i lt hp hq same = absurd (omega arith)
count_below-gain (suc n) p q i lt hp hq same = elim (ℕ_discrete i n) [
  | yes e ↦
      let p_fails : p n ≡ false = rw (← e) hp in
      let q_passes : q n ≡ true = rw (← e) hq in
      rw (p_fails, q_passes)
        (ap suc (sym (count_below-ext n p q (λ k l. same k (omega arith) (λ u. omega arith)))))
  | no ne ↦
      let here : p n ≡ q n = same n (omega arith) (λ u. ne (sym u)) in
      let rest : count_below n q ≡ suc (count_below n p) =
        count_below-gain n p q i (omega arith) hp hq (λ k l. same k (omega arith)) in
      ground (arith, here, rest)
]

pub count_below-le : (n : ℕ) (p : ℕ → Bool) → count_below n p ≤ n
unfolding count_below
count_below-le zero p = omega arith
count_below-le (suc n) p = ground (arith, count_below-le n p)

pub count_below-none :
    (n : ℕ) (p : ℕ → Bool) → ((k : ℕ) → k < n → p k ≡ false) → count_below n p ≡ 0
unfolding count_below
count_below-none zero p h = refl
count_below-none (suc n) p h =
    rw (h n (omega arith)) (count_below-none n p (λ k lt. h k (omega arith)))
