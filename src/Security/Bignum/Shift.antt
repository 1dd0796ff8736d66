-- ===== src/Security/Bignum/Shift.antt =====
-- `shl_limbs` multiplies by a power of two.
use Prim.Native.Nat.{bit_or}
use native.Mathlib.Nat.{
  pow-zero, pow-succ', add-mul, mul_assoc, mul_comm, mul-le-mul_left, mul-le-mul_right, mod-lt,
  add-mul-mod_self_right, div-add-mod', mod-eq_of_lt, div-lt_iff_lt-mul,
}
use minic_os.Base.{
  ℕ, zero, suc, ◌+◌, ◌-◌, ◌*◌, ◌/◌, ◌%◌, ◌^◌, ◌<◌, ◌≤◌, ◌≡◌, refl, sym, ap, ◌∙◌, false, List, [],
  ◌∷◌, ◌==◌, ltb, if◌then◌else◌, length, get_or, tabulate, tabulate-ext, length-tabulate,
  Bool-cases, inl, inr, arith,
}
use minic_os.Base.Powers.{pow-add, two-pow_words, two-pow_pos}
use minic_os.Security.Bignum.{limb_base, shift_limbs, shift_bits, shl_limbs}
use minic_os.Security.Bignum.Value.{IsLimbs, value, value-copy_limbs, get_or-lt, tabulate-IsLimbs}
use minic_os.Security.Bignum.Bits.{bit_or-shifted}
use minic_os.Security.Bignum.Subtract.{Limbs}

abbrev moved : ℕ → List ℕ → ℕ → ℕ
moved k xs i = if ltb i k then 0 else get_or xs (i - k) 0

value-moved :
    (k n : ℕ) (xs : List ℕ)
    → value xs * limb_base ^ k < limb_base ^ n
    → value (tabulate n (moved k xs)) ≡ value xs * limb_base ^ k
value-moved zero n xs fits =
    let one : value xs * limb_base ^ 0 ≡ value xs = omega (arith, pow-zero limb_base) in
    ap value (tabulate-ext n (moved 0 xs) (λ i. get_or xs i 0) (λ i lt. unmoved i))
    ∙ value-copy_limbs n xs (omega (arith, one))
    ∙ sym one
  where
    unmoved : (i : ℕ) → moved 0 xs i ≡ get_or xs i 0
    unmoved i =
        let above : ltb i 0 ≡ false = ground arith in
        let same : i - 0 ≡ i = omega arith in rw (above, same)
value-moved (suc k) zero xs fits = omega (arith, pow-zero limb_base)
value-moved (suc k) (suc n) xs fits =
    let grow : value xs * limb_base ^ suc k ≡ limb_base * (value xs * limb_base ^ k) =
      ap (λ x. value xs * x) (pow-succ' limb_base k)
      ∙ sym (mul_assoc (value xs) limb_base (limb_base ^ k))
      ∙ ap (λ x. x * limb_base ^ k) (mul_comm (value xs) limb_base)
      ∙ mul_assoc limb_base (value xs) (limb_base ^ k) in
    let rest = value-moved k n xs (omega (arith, grow, pow-succ' limb_base n)) in
    let tail : tabulate n (λ i. moved (suc k) xs (suc i)) ≡ tabulate n (moved k xs) =
      tabulate-ext n _ _ (λ i lt. same i) in
    let first : moved (suc k) xs 0 ≡ 0 = ground arith in
    omega (arith, rest, ap value tail, first, grow)
  where
    same : (i : ℕ) → moved (suc k) xs (suc i) ≡ moved k xs i
    same i = ground (arith, ap (λ j. get_or xs j 0) (diff i))
      where
        diff : (i : ℕ) → suc i - suc k ≡ i - k
        diff i = omega arith

shift_limbs_lem :
    (k : ℕ) (xs : List ℕ)
    → IsLimbs xs
    → value xs * limb_base ^ k < limb_base ^ length xs
    → Limbs (shift_limbs k xs) (length xs) (value xs * limb_base ^ k)
shift_limbs_lem k xs v fits = record {
  limbs = tabulate-IsLimbs (length xs) (moved k xs) in_range;
  size = length-tabulate (length xs) (moved k xs);
  number = value-moved k (length xs) xs fits;
}
  where
    in_range : (i : ℕ) → moved k xs i < limb_base
    in_range i = ground (arith, get_or-lt xs (i - k) v)

-- One limb of the shift by `s`, where `p` is 2 ^ s and `q` is 2 ^ (32 - s).
module _ (a p q : ℕ) (pos_q : 0 < q) (pq : p * q ≡ limb_base) (ha : a < limb_base) where
  times : a * p ≡ a % q * p + a / q * limb_base
  times =
      ap (λ x. x * p) (sym (div-add-mod' a q))
      ∙ add-mul (a / q * q) (a % q) p
      ∙ ap (λ x. x + a % q * p) (mul_assoc (a / q) q p ∙ ap (λ x. a / q * x) (mul_comm q p ∙ pq))
      ∙ omega arith

  low_fits : a % q * p + p ≤ limb_base
  low_fits =
      let lt : a % q < q = mod-lt a pos_q in
      let e : (a % q + 1) * p ≤ q * p = mul-le-mul_right p (omega arith) in
      omega (arith, e, add-mul (a % q) 1 p, mul_comm q p, pq)

  low : 0 < p → a * p % limb_base ≡ a % q * p
  low pos_p =
      ap (λ x. x % limb_base) times
      ∙ add-mul-mod_self_right (a % q * p) (a / q) limb_base
      ∙ mod-eq_of_lt (omega (arith, low_fits))

  high : a / q < p
  high = (div-lt_iff_lt-mul pos_q).1 (omega (arith, pq))

module _ (s : ℕ) (short : s ≤ 32) where
  halves : 2 ^ s * 2 ^ (32 - s) ≡ limb_base
  halves = let e : s + (32 - s) ≡ 32 = omega arith in sym (pow-add 2 s (32 - s)) ∙ ap (λ k. 2 ^ k) e

  shift_bits_lem :
      (carry : ℕ) (xs : List ℕ)
      → carry < 2 ^ s
      → IsLimbs xs
      → value xs * 2 ^ s + carry < limb_base ^ length xs
      → Limbs (shift_bits s carry xs) (length xs) (value xs * 2 ^ s + carry)
  unfolding shift_bits
  shift_bits_lem carry [] small v fits =
      let none : 0 * 2 ^ s + carry ≡ 0 = omega (arith, pow-zero limb_base) in
      record { limbs = tt; size = refl; number = sym none }
  shift_bits_lem carry (a ∷ xs) small (h, v) fits =
      let p : ℕ = 2 ^ s in
      let q : ℕ = 2 ^ (32 - s) in
      let split = times a p q (two-pow_pos (32 - s)) halves h in
      let room = low_fits a p q (two-pow_pos (32 - s)) halves h in
      let here : bit_or (a * p % limb_base) carry ≡ a % q * p + carry =
        ap (λ x. bit_or x carry) (low a p q (two-pow_pos (32 - s)) halves h (two-pow_pos s))
        ∙ bit_or-shifted s (a % q) carry small in
      let expand : (a + limb_base * value xs) * p ≡ a * p + limb_base * (value xs * p) =
        add-mul a (limb_base * value xs) p
        ∙ ap (λ x. a * p + x) (mul_assoc limb_base (value xs) p) in
      let rest =
        shift_bits_lem (a / q) xs (high a p q (two-pow_pos (32 - s)) halves h) v
          (omega (arith, split, expand, pow-succ' limb_base (length xs))) in
      record {
        limbs = (omega (arith, here, room), rest.limbs);
        size = ap suc rest.size;
        number = omega (arith, here, rest.number, split, expand);
      }

-- A shift to the left that loses no bit multiplies by a power of two.
pub shl_limbs_lem :
    (xs : List ℕ) (bits : ℕ)
    → IsLimbs xs
    → value xs * 2 ^ bits < limb_base ^ length xs
    → Limbs (shl_limbs xs bits) (length xs) (value xs * 2 ^ bits)
unfolding shl_limbs
shl_limbs_lem xs bits v fits = finish moved_lem
  where
    k : ℕ
    k = bits / 32

    s : ℕ
    s = bits % 32

    split : value xs * 2 ^ bits ≡ value xs * limb_base ^ k * 2 ^ s
    split =
        let e : bits ≡ k * 32 + s = omega arith in
        ap (λ n. value xs * 2 ^ n) e
        ∙ ap (λ x. value xs * x)
            (pow-add 2 (k * 32) s ∙ ap (λ x. x * 2 ^ s) (sym (two-pow_words k)))
        ∙ sym (mul_assoc (value xs) (limb_base ^ k) (2 ^ s))

    X : ℕ
    X = value xs * limb_base ^ k

    smaller : X ≤ X * 2 ^ s
    smaller = let e : X * 1 ≤ X * 2 ^ s = mul-le-mul_left X (two-pow_pos s) in omega arith

    whole : List ℕ
    whole = if k == 0 then xs else shift_limbs k xs

    moved_lem : Limbs whole (length xs) X
    moved_lem = elim (Bool-cases (k == 0)) [
      | inl none ↦
          let z : k ≡ 0 = ground arith in
          let one : X ≡ value xs =
            ap (λ n. value xs * limb_base ^ n) z ∙ omega (arith, pow-zero limb_base) in
          rw none (record { limbs = v; size = refl; number = sym one })
      | inr some_limbs ↦ rw some_limbs (shift_limbs_lem k xs v (omega (arith, split, smaller)))
    ]

    finish :
        Limbs whole (length xs) X
        → Limbs (if s == 0 then whole else shift_bits s 0 whole) (length xs) (value xs * 2 ^ bits)
    finish m = elim (Bool-cases (s == 0)) [
      | inl none ↦
          let z : s ≡ 0 = ground arith in
          let one : X * 2 ^ s ≡ X = ap (λ n. X * 2 ^ n) z ∙ omega (arith, pow-zero 2) in
          rw none
            (record { limbs = m.limbs; size = m.size; number = m.number ∙ sym one ∙ sym split })
      | inr some_bits ↦
          let r =
            shift_bits_lem s (omega arith) 0 whole (two-pow_pos s) m.limbs
              (rw (m.number, m.size) (omega (arith, split))) in
          rw some_bits (record {
            limbs = r.limbs;
            size = r.size ∙ m.size;
            number = r.number ∙ ap (λ x. x * 2 ^ s + 0) m.number ∙ omega (arith, split);
          })
    ]
