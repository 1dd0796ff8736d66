-- ===== src/Security/Bignum/Export.antt =====
-- `bignum_to_bytes_be`, after `bignum_from_bytes_be`.
use mathlib.Core.List.{reverse, reverse_aux, reverse-reverse}
use native.Mathlib.Nat.{
  mul_assoc, mul_comm, add-mul-div_right, div-div-eq-div-mul, div-one, pow-zero,
}
use minic_os.Base.{
  ℕ, zero, suc, ◌+◌, ◌-◌, ◌*◌, ◌/◌, ◌%◌, ◌^◌, ◌≤◌, ◌≡◌, refl, sym, ap, ◌∙◌, List, [], ◌∷◌, some,
  length, get_elem?, get_elem?-some, arith,
}
use minic_os.Base.Powers.{pow-add, two-pow_pos}
use minic_os.Base.Exec.{done}
use minic_os.Security.Bignum.{
  bignum_limbs, limb_base, export_loop, bignum_from_bytes_be, bignum_to_bytes_be,
}
use minic_os.Security.Bignum.Value.{IsLimbs, value}
use minic_os.Security.Bignum.Import.{IsBytes, number, bignum_from_bytes_be_lem}

-- A byte of a limb is a byte of the number.
limb_byte :
    (xs : List ℕ) (k s a : ℕ)
    → s + 8 ≤ 32
    → IsLimbs xs
    → get_elem? xs k ≡ some a
    → a / 2 ^ s % 256 ≡ value xs / 2 ^ (k * 32 + s) % 256
limb_byte [] k s a le v at = absurd (cc)
limb_byte (x ∷ xs) zero s a le (h, v) at =
    let same : x ≡ a = ground arith in
    let e : 0 * 32 + s ≡ s = omega arith in
    let parts : (24 - s) + 8 + s ≡ 32 = omega arith in
    let high : limb_base * value xs ≡ value xs * 2 ^ (24 - s) * 256 * 2 ^ s =
      mul_comm limb_base (value xs)
      ∙ ap (λ n. value xs * n)
          (ap (λ n. 2 ^ n) (sym parts)
            ∙ pow-add 2 ((24 - s) + 8) s
            ∙ ap (λ n. n * 2 ^ s) (pow-add 2 (24 - s) 8))
      ∙ sym (mul_assoc (value xs) (2 ^ (24 - s) * 256) (2 ^ s))
      ∙ ap (λ n. n * 2 ^ s) (sym (mul_assoc (value xs) (2 ^ (24 - s)) 256)) in
    let quotient : (x + limb_base * value xs) / 2 ^ s ≡ x / 2 ^ s + value xs * 2 ^ (24 - s) * 256 =
      ap (λ n. (x + n) / 2 ^ s) high
      ∙ add-mul-div_right x (value xs * 2 ^ (24 - s) * 256) (two-pow_pos s) in
    rw (e, ← same) (omega (arith, quotient))
limb_byte (x ∷ xs) (suc k) s a le (h, v) at =
    let e : suc k * 32 + s ≡ 32 + (k * 32 + s) = omega arith in
    let drop_limb : (x + limb_base * value xs) / limb_base ≡ value xs = omega arith in
    limb_byte xs k s a le v at
    ∙ ap (λ n. n % 256)
        (ap (λ n. n / 2 ^ (k * 32 + s)) (sym drop_limb)
          ∙ div-div-eq-div-mul (x + limb_base * value xs) limb_base (2 ^ (k * 32 + s))
          ∙ ap (λ n. (x + limb_base * value xs) / n)
              (sym (pow-add 2 32 (k * 32 + s)) ∙ ap (λ n. 2 ^ n) (sym e)))

export_loop_lem :
    (i : ℕ) (bytes n out : List ℕ)
    → IsBytes bytes
    → IsLimbs n
    → length n ≡ bignum_limbs
    → i + length bytes ≤ 512
    → value n / 2 ^ (i * 8) ≡ number bytes
    → export_loop (length bytes) i n out ≡ done (reverse_aux bytes out)
unfolding export_loop
export_loop_lem i [] n out v w size room e = refl
export_loop_lem i (b ∷ bytes) n out (h, v) w size room e =
    let (a, at) = get_elem?-some n (i / 4) (omega arith) in
    let place : i / 4 * 32 + i % 4 * 8 ≡ i * 8 = omega arith in
    let byte : a / 2 ^ (i % 4 * 8) % 256 ≡ b =
      limb_byte n (i / 4) (i % 4 * 8) a (omega arith) w at
      ∙ ap (λ k. value n / 2 ^ k % 256) place
      ∙ ap (λ k. k % 256) e
      ∙ omega arith in
    let next : value n / 2 ^ ((i + 1) * 8) ≡ number bytes =
      let split : (i + 1) * 8 ≡ i * 8 + 8 = omega arith in
      ap (λ k. value n / k) (ap (λ k. 2 ^ k) split ∙ pow-add 2 (i * 8) 8)
      ∙ sym (div-div-eq-div-mul (value n) (2 ^ (i * 8)) 256)
      ∙ ap (λ k. k / 256) e
      ∙ omega arith in
    rw (at, byte) (export_loop_lem (i + 1) bytes n (b ∷ out) v w size (omega arith) next)

length-reverse_aux : (xs ys : List ℕ) → length (reverse_aux xs ys) ≡ length xs + length ys
length-reverse_aux [] ys = omega arith
length-reverse_aux (x ∷ xs) ys = omega (arith, length-reverse_aux xs (x ∷ ys))

reverse_aux-IsBytes : (xs ys : List ℕ) → IsBytes xs → IsBytes ys → IsBytes (reverse_aux xs ys)
reverse_aux-IsBytes [] ys v w = w
reverse_aux-IsBytes (x ∷ xs) ys (h, v) w = reverse_aux-IsBytes xs (x ∷ ys) v (h, w)

-- At most 512 bytes that bignum_from_bytes_be reads are written again by bignum_to_bytes_be.
pub bignum_to_bytes_be-from_bytes_be :
    (bytes : List ℕ)
    → IsBytes bytes
    → length bytes ≤ 512
    → (r : List ℕ) × (bignum_from_bytes_be bytes ≡ done r)
      × (value r ≡ number (reverse bytes))
      × (bignum_to_bytes_be r (length bytes) ≡ done bytes)
unfolding bignum_to_bytes_be
bignum_to_bytes_be-from_bytes_be bytes v short =
    let w : IsBytes (reverse bytes) = reverse_aux-IsBytes bytes [] v tt in
    let same_length : length (reverse bytes) ≡ length bytes =
      length-reverse_aux bytes [] ∙ omega arith in
    let (r, run, r_limbs, size, e) =
      bignum_from_bytes_be_lem bytes w (omega (arith, same_length)) in
    let whole : value r / 2 ^ (0 * 8) ≡ number (reverse bytes) =
      let one : 2 ^ (0 * 8) ≡ 1 = omega (arith, pow-zero 2) in
      ap (λ k. value r / k) one ∙ div-one (value r) ∙ e in
    (
      r,
      run,
      e,
      ap (λ k. export_loop k 0 r []) (sym same_length)
          ∙ export_loop_lem 0 (reverse bytes) r [] w r_limbs size (omega (arith, same_length)) whole
          ∙ ap done (reverse-reverse bytes),
    )
