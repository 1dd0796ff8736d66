-- ===== src/Security/Bignum/Power.antt =====
-- `bignum_modexp`, and powers modulo a number.
use native.Mathlib.Nat.{
  pow-zero, pow-suc, pow-succ', mul_assoc, mul_comm, add-mul, mod-eq_of_lt, mod-mod,
  add-mul-mod_self_right, add-mul-div_right, div-div-eq-div-mul, div-add-mod', zero-div,
  div-eq_of_lt,
}
use minic_os.Base.{
  ℕ, zero, suc, ◌+◌, ◌-◌, ◌*◌, ◌/◌, ◌%◌, ◌^◌, ◌<◌, ◌≡◌, refl, sym, ap, ◌∙◌, true, false, List, [],
  ◌∷◌, ◌==◌, length, get_or, Bool-cases, inl, inr, arith,
}
use minic_os.Base.Int.{ℤ, pos, negsuc}
use minic_os.Base.Powers.{pow-add, two-pow_pos}
use minic_os.Base.Exec.{done}
use minic_os.Security.Bignum.{
  limb_base, bignum_limbs, bignum_set_u32, bignum_test_bit, bignum_bit_length, highest_bit_index,
  power_loop, bignum_modexp,
}
use minic_os.Security.Bignum.Value.{IsLimbs, value, replicate-IsLimbs}
use minic_os.Security.Bignum.Top.{Highest, no_bit, at_bit, highest_bit_index_lem}
use minic_os.Security.Bignum.Reduce.{bignum_mulmod_lem}

mul-mod_left : (x y m : ℕ) → x % m * y % m ≡ x * y % m
mul-mod_left x y m =
    let e : x * y ≡ x % m * y + x / m * y * m =
      ap (λ n. n * y) (sym (div-add-mod' x m))
      ∙ add-mul (x / m * m) (x % m) y
      ∙ ap (λ n. n + x % m * y)
          (mul_assoc (x / m) m y ∙ ap (λ n. x / m * n) (mul_comm m y) ∙ sym (mul_assoc (x / m) y m))
      ∙ omega arith in
    sym (ap (λ n. n % m) e ∙ add-mul-mod_self_right (x % m * y) (x / m * y) m)

-- Products of numbers with one remainder have one remainder.
mul-mod_same : (a b c d m : ℕ) → a % m ≡ c % m → b % m ≡ d % m → a * b % m ≡ c * d % m
mul-mod_same a b c d m p q =
    sym (mul-mod_left a b m)
    ∙ ap (λ n. n * b % m) p
    ∙ mul-mod_left c b m
    ∙ ap (λ n. n % m) (mul_comm c b)
    ∙ sym (mul-mod_left b c m)
    ∙ ap (λ n. n * c % m) q
    ∙ mul-mod_left d c m
    ∙ ap (λ n. n % m) (mul_comm d c)

-- A bit of a limb is a bit of the number.
limb_bit :
    (xs : List ℕ) (k s : ℕ)
    → s < 32
    → IsLimbs xs
    → get_or xs k 0 / 2 ^ s % 2 ≡ value xs / 2 ^ (k * 32 + s) % 2
limb_bit [] k s lt v = ap (λ n. n % 2) (zero-div (2 ^ s) ∙ sym (zero-div (2 ^ (k * 32 + s))))
limb_bit (a ∷ xs) zero s lt (h, v) =
    let e : 0 * 32 + s ≡ s = omega arith in
    let parts : s + suc (31 - s) ≡ 32 = omega arith in
    let high : limb_base * value xs ≡ value xs * 2 ^ (31 - s) * 2 * 2 ^ s =
      mul_comm limb_base (value xs)
      ∙ ap (λ n. value xs * n)
          (ap (λ n. 2 ^ n) (sym parts)
            ∙ pow-add 2 s (suc (31 - s))
            ∙ mul_comm (2 ^ s) (2 ^ suc (31 - s))
            ∙ ap (λ n. n * 2 ^ s) (pow-suc 2 (31 - s)))
      ∙ sym (mul_assoc (value xs) (2 ^ (31 - s) * 2) (2 ^ s))
      ∙ ap (λ n. n * 2 ^ s) (sym (mul_assoc (value xs) (2 ^ (31 - s)) 2)) in
    let quotient : (a + limb_base * value xs) / 2 ^ s ≡ a / 2 ^ s + value xs * 2 ^ (31 - s) * 2 =
      ap (λ n. (a + n) / 2 ^ s) high
      ∙ add-mul-div_right a (value xs * 2 ^ (31 - s) * 2) (two-pow_pos s) in
    rw e (omega (arith, quotient))
limb_bit (a ∷ xs) (suc k) s lt (h, v) =
    let e : suc k * 32 + s ≡ 32 + (k * 32 + s) = omega arith in
    let drop_limb : (a + limb_base * value xs) / limb_base ≡ value xs = omega arith in
    limb_bit xs k s lt v
    ∙ ap (λ n. n % 2)
        (ap (λ n. n / 2 ^ (k * 32 + s)) (sym drop_limb)
          ∙ div-div-eq-div-mul (a + limb_base * value xs) limb_base (2 ^ (k * 32 + s))
          ∙ ap (λ n. (a + limb_base * value xs) / n)
              (sym (pow-add 2 32 (k * 32 + s)) ∙ ap (λ n. 2 ^ n) (sym e)))

test_bit_lem :
    (xs : List ℕ) (i : ℕ) → IsLimbs xs → bignum_test_bit xs i ≡ (value xs / 2 ^ i % 2 == 1)
unfolding bignum_test_bit
test_bit_lem xs i v =
    let e : i / 32 * 32 + i % 32 ≡ i = omega arith in
    ap (λ n. n == 1)
      (limb_bit xs (i / 32) (i % 32) (omega arith) v ∙ ap (λ n. value xs / 2 ^ n % 2) e)

-- Half of the exponent's leading bits.
halved : (e i : ℕ) → e / 2 ^ suc i ≡ e / 2 ^ i / 2
halved e i = ap (λ n. e / n) (pow-suc 2 i) ∙ sym (div-div-eq-div-mul e (2 ^ i) 2)

-- Twice the exponent, and one more.
square_mod : (b m n h : ℕ) → n ≡ h + h → b ^ h % m * (b ^ h % m) % m ≡ b ^ n % m
square_mod b m n h e =
    mul-mod_same (b ^ h % m) (b ^ h % m) (b ^ h) (b ^ h) m (mod-mod (b ^ h) m) (mod-mod (b ^ h) m)
    ∙ ap (λ x. x % m) (sym (pow-add b h h) ∙ ap (λ k. b ^ k) (sym e))

square_times_mod : (b m n h : ℕ) → n ≡ suc (h + h) → b ^ h % m * (b ^ h % m) % m * b % m ≡ b ^ n % m
square_times_mod b m n h e =
    ap (λ x. x * b % m) (square_mod b m (h + h) h refl)
    ∙ mul-mod_left (b ^ (h + h)) b m
    ∙ ap (λ x. x % m) (sym (pow-suc b (h + h)) ∙ ap (λ k. b ^ k) (sym e))

-- The accumulator holds the power by the exponent's bits from `i` on.
power_loop_lem :
    (base exponent modulus : List ℕ)
    → IsLimbs base
    → IsLimbs exponent
    → IsLimbs modulus
    → 0 < value modulus
    → (i : ℕ) (acc : List ℕ) → IsLimbs acc
    → length acc ≡ length modulus
    → value acc ≡ value base ^ (value exponent / 2 ^ i) % value modulus
    → (r : List ℕ) × (power_loop base exponent modulus i acc ≡ done r)
      × IsLimbs r
      × (length r ≡ length modulus)
      × (value r ≡ value base ^ (value exponent / 2 ^ 0) % value modulus)
unfolding power_loop
power_loop_lem base exponent modulus v w u pos_m zero acc a n e = (acc, refl, a, n, e)
power_loop_lem base exponent modulus v w u pos_m (suc i) acc a n e =
    let (s, run, s_limbs, s_size, s_value) = bignum_mulmod_lem acc acc modulus a a u pos_m in
    let (t, run', t_limbs, t_size, t_value) = bignum_mulmod_lem s base modulus s_limbs v u pos_m in
    let squared : value s
        ≡ value base ^ H % value modulus * (value base ^ H % value modulus) % value modulus =
      s_value ∙ ap (λ x. x * x % value modulus) e in
    let half : H ≡ value exponent / 2 ^ i / 2 = halved (value exponent) i in
    elim (Bool-cases (value exponent / 2 ^ i % 2 == 1)) [
      | inl set ↦
          let tested : bignum_test_bit exponent i ≡ true = test_bit_lem exponent i w ∙ set in
          let odd : value exponent / 2 ^ i ≡ suc (H + H) = ground (arith, half) in
          rw (run, run', tested)
            (power_loop_lem base exponent modulus v w u pos_m i t t_limbs t_size (
              t_value
              ∙ ap (λ x. x * value base % value modulus) squared
              ∙ square_times_mod (value base) (value modulus) (value exponent / 2 ^ i) H odd))
      | inr clear ↦
          let tested : bignum_test_bit exponent i ≡ false = test_bit_lem exponent i w ∙ clear in
          let even : value exponent / 2 ^ i ≡ H + H = ground (arith, half) in
          rw (run, run', tested)
            (power_loop_lem base exponent modulus v w u pos_m i s s_limbs s_size
              (squared ∙ square_mod (value base) (value modulus) (value exponent / 2 ^ i) H even))
    ]
  where
    H : ℕ
    H = value exponent / 2 ^ suc i

-- The exponent has no bit from its bit length on.
no_bits_left : (xs : List ℕ) → IsLimbs xs → value xs / 2 ^ bignum_bit_length xs ≡ 0
unfolding bignum_bit_length
no_bits_left xs v = go (highest_bit_index xs) (highest_bit_index_lem xs v)
  where
    go : (z : ℤ) → Highest xs z → value xs / 2 ^ (elim z [ pos top ↦ top + 1 | negsuc k ↦ 0 ]) ≡ 0
    go z (no_bit none) = div-eq_of_lt (omega (arith, pow-zero 2))
    go z (at_bit k t lt) =
        div-eq_of_lt (omega (arith, t.upper, pow-succ' 2 k, ap (λ n. 2 ^ n) (succ k)))
      where
        succ : (k : ℕ) → k + 1 ≡ suc k
        succ k = omega arith

one-IsLimbs : IsLimbs (bignum_set_u32 1)
unfolding bignum_set_u32
one-IsLimbs = (omega arith, replicate-IsLimbs 127)

value-one : value (bignum_set_u32 1) ≡ 1
unfolding bignum_set_u32
value-one = refl

length-one : length (bignum_set_u32 1) ≡ bignum_limbs
unfolding bignum_set_u32
length-one = refl

-- For numbers of 32-bit limbs and a modulus above 1 of 128 limbs, `bignum_modexp` writes nothing
-- outside its arrays and gives the base to the power of the exponent, modulo the modulus.
pub bignum_modexp_lem :
    (base exponent modulus : List ℕ)
    → IsLimbs base
    → IsLimbs exponent
    → IsLimbs modulus
    → length modulus ≡ bignum_limbs
    → 1 < value modulus
    → (r : List ℕ) × (bignum_modexp base exponent modulus ≡ done r)
      × IsLimbs r
      × (length r ≡ bignum_limbs)
      × (value r ≡ value base ^ value exponent % value modulus)
unfolding bignum_modexp
bignum_modexp_lem base exponent modulus v w u full above =
    let start : value base ^ (value exponent / 2 ^ bignum_bit_length exponent) % value modulus ≡ 1 =
      ap (λ n. value base ^ n % value modulus) (no_bits_left exponent w)
      ∙ ap (λ n. n % value modulus) (pow-zero (value base))
      ∙ mod-eq_of_lt above in
    let whole : value exponent / 2 ^ 0 ≡ value exponent =
      omega (arith, ap (λ n. value exponent / n) (pow-zero 2)) in
    let (r, run, r_limbs, size, number) =
      power_loop_lem base exponent modulus v w u (omega arith) (bignum_bit_length exponent)
        (bignum_set_u32 1) one-IsLimbs (length-one ∙ sym full) (value-one ∙ sym start) in
    (r, run, r_limbs, size ∙ full, number ∙ ap (λ n. value base ^ n % value modulus) whole)
