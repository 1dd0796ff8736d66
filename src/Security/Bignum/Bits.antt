-- ===== src/Security/Bignum/Bits.antt =====
-- `|` of two numbers with no bit in common.
use Prim.Native.Nat.{max, bit_or, bit_or-bitwise, digits}
use native.Mathlib.Nat.{pow-zero, pow-suc, pow-succ', mul_assoc}
use minic_os.Base.{ℕ, zero, suc, ◌+◌, ◌*◌, ◌/◌, ◌%◌, ◌^◌, ◌<◌, ◌≤◌, ◌≡◌, refl, sym, ap, ◌∙◌, arith}

abbrev or_digits : ℕ → ℕ → ℕ → ℕ
or_digits n a b = digits (λ b. b) max n a b

-- The count of digits does not matter once it is enough.
same_count : (n m a b : ℕ) → a ≤ n → a ≤ m → or_digits n a b ≡ or_digits m a b
same_count n m zero b p q = at_zero n m b
  where
    at_zero : (n m b : ℕ) → or_digits n 0 b ≡ or_digits m 0 b
    at_zero zero zero b = refl
    at_zero zero (suc m) b = refl
    at_zero (suc n) zero b = refl
    at_zero (suc n) (suc m) b = refl
same_count zero m (suc a) b p q = absurd (omega arith)
same_count (suc n) zero (suc a) b p q = absurd (omega arith)
same_count (suc n) (suc m) (suc a) b p q =
    ap (λ x. x * 2 + max (suc a % 2) (b % 2))
      (same_count n m (suc a / 2) (b / 2) (omega arith) (omega arith))

pub zero-bit_or : (b : ℕ) → bit_or 0 b ≡ b
zero-bit_or b = bit_or-bitwise 0 b

-- The lowest digit, and the others.
pub bit_or-halves : (a b : ℕ) → bit_or a b ≡ bit_or (a / 2) (b / 2) * 2 + max (a % 2) (b % 2)
bit_or-halves zero b = zero-bit_or b ∙ omega (arith, zero-bit_or (b / 2))
bit_or-halves (suc a) b =
    bit_or-bitwise (suc a) b
    ∙ ap (λ x. x * 2 + max (suc a % 2) (b % 2))
        (same_count a (suc a / 2) (suc a / 2) (b / 2) (omega arith) (omega arith)
          ∙ sym (bit_or-bitwise (suc a / 2) (b / 2)))

pub bit_or-zero : (n a : ℕ) → a ≤ n → bit_or a 0 ≡ a
bit_or-zero n zero h = refl
bit_or-zero zero (suc a) h = absurd (omega arith)
bit_or-zero (suc n) (suc a) h =
    omega (arith, bit_or-halves (suc a) 0, bit_or-zero n (suc a / 2) (omega arith))

double_up : (s a : ℕ) → a * 2 ^ suc s ≡ a * 2 ^ s * 2
double_up s a = ap (λ x. a * x) (pow-suc 2 s) ∙ sym (mul_assoc a (2 ^ s) 2)

-- A number shifted up, and one that fits below it.
pub bit_or-shifted : (s a c : ℕ) → c < 2 ^ s → bit_or (a * 2 ^ s) c ≡ a * 2 ^ s + c
bit_or-shifted zero a c h =
    let none : c ≡ 0 = omega (arith, pow-zero 2) in
    let same : a * 2 ^ 0 ≡ a = omega (arith, pow-zero 2) in
    rw (none, same) (bit_or-zero a a (omega arith) ∙ omega arith)
bit_or-shifted (suc s) a c h =
    let double : a * 2 ^ suc s ≡ a * 2 ^ s * 2 = double_up s a in
    let half : a * 2 ^ s * 2 / 2 ≡ a * 2 ^ s = omega arith in
    let step : bit_or (a * 2 ^ s * 2) c
        ≡ bit_or (a * 2 ^ s * 2 / 2) (c / 2) * 2 + max (a * 2 ^ s * 2 % 2) (c % 2) =
      bit_or-halves (a * 2 ^ s * 2) c in
    let rest : bit_or (a * 2 ^ s) (c / 2) ≡ a * 2 ^ s + c / 2 =
      bit_or-shifted s a (c / 2) (omega (arith, pow-succ' 2 s)) in
    rw double (omega (arith, step, half, ap (λ x. bit_or x (c / 2)) half, rest))

-- The other way round.
pub bit_or-above : (s c a : ℕ) → c < 2 ^ s → bit_or c (a * 2 ^ s) ≡ c + a * 2 ^ s
bit_or-above zero c a h =
    let none : c ≡ 0 = omega (arith, pow-zero 2) in rw none (zero-bit_or (a * 2 ^ 0) ∙ omega arith)
bit_or-above (suc s) c a h =
    let double : a * 2 ^ suc s ≡ a * 2 ^ s * 2 = double_up s a in
    let half : a * 2 ^ s * 2 / 2 ≡ a * 2 ^ s = omega arith in
    let step : bit_or c (a * 2 ^ s * 2)
        ≡ bit_or (c / 2) (a * 2 ^ s * 2 / 2) * 2 + max (c % 2) (a * 2 ^ s * 2 % 2) =
      bit_or-halves c (a * 2 ^ s * 2) in
    let rest : bit_or (c / 2) (a * 2 ^ s) ≡ c / 2 + a * 2 ^ s =
      bit_or-above s (c / 2) a (omega (arith, pow-succ' 2 s)) in
    rw double (omega (arith, step, half, ap (λ x. bit_or (c / 2) x) half, rest))
