-- ===== src/Security/Bignum/Value.antt =====
-- The number that an array of limbs stands for.
use native.Mathlib.Nat.{pow-zero, pow-succ'}
use minic_os.Base.{
  ℕ, zero, suc, ◌+◌, ◌*◌, ◌^◌, ◌<◌, ◌≡◌, refl, List, [], ◌∷◌, ◌==◌, ltb, if◌then◌else◌, length,
  get_or, replicate, tabulate, arith,
}
use minic_os.Base.Int.{pos, negsuc}
use minic_os.Security.Bignum.{limb_base, cmp_limbs, copy_limbs}

-- Every limb has 32 bits.
abbrev pub IsLimbs : List ℕ → Type 0
IsLimbs [] = Unit
IsLimbs (a ∷ xs) = (a < limb_base) × IsLimbs xs

abbrev pub value : List ℕ → ℕ
value [] = 0
value (a ∷ xs) = a + limb_base * value xs

pub value-lt : (xs : List ℕ) → IsLimbs xs → value xs < limb_base ^ length xs
value-lt [] v = omega arith
value-lt (a ∷ xs) (h, v) = omega (arith, value-lt xs v, pow-succ' limb_base (length xs))

pub value-replicate : (n : ℕ) → value (replicate n 0) ≡ 0
value-replicate zero = refl
value-replicate (suc n) = omega (arith, value-replicate n)

pub replicate-IsLimbs : (n : ℕ) → IsLimbs (replicate n 0)
replicate-IsLimbs zero = tt
replicate-IsLimbs (suc n) = (omega arith, replicate-IsLimbs n)

pub get_or-lt : (xs : List ℕ) (i : ℕ) → IsLimbs xs → get_or xs i 0 < limb_base
get_or-lt [] i v = omega arith
get_or-lt (a ∷ xs) zero (h, v) = h
get_or-lt (a ∷ xs) (suc i) (h, v) = get_or-lt xs i v

pub tabulate-IsLimbs : (n : ℕ) (f : ℕ → ℕ) → ((i : ℕ) → f i < limb_base) → IsLimbs (tabulate n f)
tabulate-IsLimbs zero f h = tt
tabulate-IsLimbs (suc n) f h = (h 0, tabulate-IsLimbs n (λ i. f (suc i)) (λ i. h (suc i)))

-- A copy into an array that is long enough for the number.
pub value-copy_limbs :
    (n : ℕ) (xs : List ℕ) → value xs < limb_base ^ n → value (copy_limbs n xs) ≡ value xs
value-copy_limbs zero xs h = omega (arith, pow-zero limb_base)
value-copy_limbs (suc n) [] h = omega (arith, zeros n)
  where
    zeros : (n : ℕ) → value (tabulate n (λ i. 0)) ≡ 0
    zeros zero = refl
    zeros (suc n) = omega (arith, zeros n)
value-copy_limbs (suc n) (a ∷ xs) h =
    omega
      (arith, pow-succ' limb_base n, value-copy_limbs n xs (omega (arith, pow-succ' limb_base n)))

-- `cmp_limbs` compares the numbers.
pub cmp_limbs_lem :
    (xs ys : List ℕ)
    → IsLimbs xs
    → IsLimbs ys
    → length xs ≡ length ys
    → cmp_limbs xs ys ≡ (
        if ltb (value xs) (value ys)
        then negsuc 0
        else if value xs == value ys
        then pos 0
        else pos 1)
unfolding cmp_limbs
cmp_limbs_lem [] [] v w e = refl
cmp_limbs_lem [] (b ∷ ys) v w e = absurd (omega arith)
cmp_limbs_lem (a ∷ xs) [] v w e = absurd (omega arith)
cmp_limbs_lem (a ∷ xs) (b ∷ ys) (ha, v) (hb, w) e =
    ground (arith, cmp_limbs_lem xs ys v w (omega arith))
