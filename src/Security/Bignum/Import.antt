-- ===== src/Security/Bignum/Import.antt =====
-- `bignum_from_bytes_be`, and the number that bytes stand for.
use Prim.Native.Nat.{bit_or}
use mathlib.Core.List.{reverse}
use native.Mathlib.Nat.{pow-zero, mul_assoc, mul_comm, pow-le-pow_right, mul-le-mul_right, add-mul}
use minic_os.Base.{
  ℕ, zero, suc, ◌+◌, ◌*◌, ◌/◌, ◌%◌, ◌^◌, ◌<◌, ◌≤◌, ◌≡◌, refl, sym, ap, subst, ◌∙◌, List, [], ◌∷◌,
  some, length, length-set, get_elem?, get_elem?-some, set, arith,
}
use minic_os.Base.Powers.{pow-add, two-pow_pos}
use minic_os.Base.Exec.{done}
use minic_os.Security.Bignum.{
  bignum_limbs, limb_base, bignum_zero, import_loop, bignum_from_bytes_be,
}
use minic_os.Security.Bignum.Value.{IsLimbs, value, value-replicate, replicate-IsLimbs}
use minic_os.Security.Bignum.Bits.{bit_or-above}

-- Every number is a byte.
abbrev pub IsBytes : List ℕ → Type 0
IsBytes [] = Unit
IsBytes (b ∷ bs) = (b < 256) × IsBytes bs

-- The number that the bytes stand for, the least significant first.
abbrev pub number : List ℕ → ℕ
number [] = 0
number (b ∷ bs) = b + 256 * number bs

-- A byte is put above the bits of a number.
put_byte :
    (xs : List ℕ) (k s b a : ℕ)
    → IsLimbs xs
    → s + 8 ≤ 32
    → b < 256
    → get_elem? xs k ≡ some a
    → value xs < 2 ^ (k * 32 + s)
    → IsLimbs (set xs k (bit_or a (b * 2 ^ s)))
      × (value (set xs k (bit_or a (b * 2 ^ s))) ≡ value xs + b * 2 ^ (k * 32 + s))
put_byte [] k s b a v le lt at h = absurd (cc)
put_byte (x ∷ xs) zero s b a (hx, v) le lt at h =
    let same : x ≡ a = ground arith in
    let e : 0 * 32 + s ≡ s = omega arith in
    let top : 2 ^ s ≤ 2 ^ 24 =
      pow-le-pow_right {n = 2} (omega arith) {i = s} {j = 24} (omega arith) in
    let low : x + limb_base * value xs < 2 ^ s =
      subst (λ k. x + limb_base * value xs < 2 ^ k) e h in
    let joined : bit_or a (b * 2 ^ s) ≡ a + b * 2 ^ s = bit_or-above s a b (omega arith) in
    let small : b * 2 ^ s ≤ 255 * 2 ^ s = mul-le-mul_right (2 ^ s) (omega arith) in
    rw (joined, e) ((omega arith, v), omega arith)
put_byte (x ∷ xs) (suc k) s b a (hx, v) le lt at h =
    let e : suc k * 32 + s ≡ 32 + (k * 32 + s) = omega arith in
    let up : 2 ^ (suc k * 32 + s) ≡ limb_base * 2 ^ (k * 32 + s) =
      ap (λ n. 2 ^ n) e ∙ pow-add 2 32 (k * 32 + s) in
    let (w, number) = put_byte xs k s b a v le lt at (omega (arith, up)) in
    let times : b * 2 ^ (suc k * 32 + s) ≡ limb_base * (b * 2 ^ (k * 32 + s)) =
      ap (λ n. b * n) up
      ∙ sym (mul_assoc b limb_base (2 ^ (k * 32 + s)))
      ∙ ap (λ n. n * 2 ^ (k * 32 + s)) (mul_comm b limb_base)
      ∙ mul_assoc limb_base b (2 ^ (k * 32 + s)) in
    ((hx, w), omega (arith, number, times))

import_loop_lem :
    (i : ℕ) (bytes out : List ℕ)
    → IsBytes bytes
    → IsLimbs out
    → length out ≡ bignum_limbs
    → i + length bytes ≤ 512
    → value out < 2 ^ (i * 8)
    → (r : List ℕ) × (import_loop i bytes out ≡ done r)
      × IsLimbs r
      × (length r ≡ bignum_limbs)
      × (value r ≡ value out + number bytes * 2 ^ (i * 8))
unfolding import_loop
import_loop_lem i [] out v w size room below = (out, refl, w, size, omega arith)
import_loop_lem i (b ∷ bytes) out (h, v) w size room below =
    let (a, at) = get_elem?-some out (i / 4) (omega arith) in
    let e : i / 4 * 32 + i % 4 * 8 ≡ i * 8 = omega arith in
    let next : 2 ^ ((i + 1) * 8) ≡ 256 * 2 ^ (i * 8) =
      let split : (i + 1) * 8 ≡ 8 + i * 8 = omega arith in
      ap (λ n. 2 ^ n) split ∙ pow-add 2 8 (i * 8) in
    let (w', put) =
      put_byte out (i / 4) (i % 4 * 8) b a w (omega arith) h at
        (subst (λ n. value out < 2 ^ n) (sym e) below) in
    let sum : value (set out (i / 4) (bit_or a (b * 2 ^ (i % 4 * 8))))
        ≡ value out + b * 2 ^ (i * 8) =
      put ∙ ap (λ n. value out + b * 2 ^ n) e in
    let small : b * 2 ^ (i * 8) ≤ 255 * 2 ^ (i * 8) =
      mul-le-mul_right (2 ^ (i * 8)) (omega arith) in
    let (r, run, r_limbs, r_size, r_value) =
      import_loop_lem (i + 1) bytes (set out (i / 4) (bit_or a (b * 2 ^ (i % 4 * 8)))) v w'
        (length-set out (i / 4) _ ∙ size) (omega arith) (omega (arith, sum, next)) in
    let shifted : number bytes * 2 ^ ((i + 1) * 8) ≡ 256 * number bytes * 2 ^ (i * 8) =
      ap (λ n. number bytes * n) next
      ∙ sym (mul_assoc (number bytes) 256 (2 ^ (i * 8)))
      ∙ ap (λ n. n * 2 ^ (i * 8)) (mul_comm (number bytes) 256) in
    (
      r,
      rw at run,
      r_limbs,
      r_size,
      omega (arith, r_value, sum, shifted, add-mul b (256 * number bytes) (2 ^ (i * 8))),
    )

-- From at most 512 bytes, the most significant first, bignum_from_bytes_be writes nothing outside the
-- array and gives the number that they stand for.
pub bignum_from_bytes_be_lem :
    (bytes : List ℕ)
    → IsBytes (reverse bytes)
    → length (reverse bytes) ≤ 512
    → (r : List ℕ) × (bignum_from_bytes_be bytes ≡ done r)
      × IsLimbs r
      × (length r ≡ bignum_limbs)
      × (value r ≡ number (reverse bytes))
unfolding bignum_from_bytes_be
bignum_from_bytes_be_lem bytes v short =
    let start : value bignum_zero < 2 ^ (0 * 8) =
      omega (arith, value-replicate 128, two-pow_pos (0 * 8)) in
    let (r, run, r_limbs, size, e) =
      import_loop_lem 0 (reverse bytes) bignum_zero v (replicate-IsLimbs 128) refl (omega arith)
        start in
    let one : number (reverse bytes) * 2 ^ (0 * 8) ≡ number (reverse bytes) =
      omega (arith, pow-zero 2) in
    (r, run, r_limbs, size, omega (arith, e, one, value-replicate 128))
