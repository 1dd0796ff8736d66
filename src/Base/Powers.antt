-- ===== src/Base/Powers.antt =====
-- Powers of the native numbers.
use Prim.Native.Nat.{ℕ, zero, suc, ◌+◌, ◌*◌, ◌^◌, ◌<◌}
use mathlib.Core.Path.{◌≡◌, sym, ap, ◌∙◌}
use native.Mathlib.Nat.{
  pow-zero, pow-suc, mul_assoc, add-suc, mul-one, add-zero, one-le-pow, pow-le-pow_right,
}
use native.Mathlib.Omega.{arith}
use native.Mathlib.Decide.{dec_lt}

pub pow-add : (a m n : ℕ) → a ^ (m + n) ≡ a ^ m * a ^ n
pow-add a m zero =
    ap (λ k. a ^ k) (add-zero m) ∙ sym (mul-one (a ^ m)) ∙ ap (λ x. a ^ m * x) (sym (pow-zero a))
pow-add a m (suc n) =
    ap (λ k. a ^ k) (add-suc m n)
    ∙ pow-suc a (m + n)
    ∙ ap (λ x. x * a) (pow-add a m n)
    ∙ mul_assoc (a ^ m) (a ^ n) a
    ∙ ap (λ x. a ^ m * x) (sym (pow-suc a n))

-- `n` words of 32 bits.
pub two-pow_words : (n : ℕ) → (2 ^ 32) ^ n ≡ 2 ^ (n * 32)
two-pow_words zero = pow-zero (2 ^ 32) ∙ sym (pow-zero 2)
two-pow_words (suc n) =
    let e : suc n * 32 ≡ n * 32 + 32 = omega arith in
    pow-suc (2 ^ 32) n
    ∙ ap (λ x. x * 2 ^ 32) (two-pow_words n)
    ∙ sym (pow-add 2 (n * 32) 32)
    ∙ ap (λ k. 2 ^ k) (sym e)

-- A smaller power has a smaller exponent.
pub exponent-lt : (m n : ℕ) → 2 ^ m < 2 ^ n → m < n
exponent-lt m n h = elim (dec_lt m n) [
  | yes lt ↦ lt
  | no ge ↦
      absurd (omega (arith, pow-le-pow_right {n = 2} (omega arith) {i = n} {j = m} (omega arith)))
]

pub two-pow_pos : (n : ℕ) → 0 < 2 ^ n
two-pow_pos n = one-le-pow n 2 (omega arith)
