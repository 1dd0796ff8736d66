-- ===== src/Security/Bignum/Reduce.antt =====
-- `mod_reduce_wide` and `bignum_mulmod`, and the remainder.
use native.Mathlib.Nat.{
  pow-zero, pow-succ', mul_assoc, mul_comm, mul-le-mul_left, mul-le-mul_right, pow-le-pow_right,
  mod-lt, mod-eq_of_lt, mod-eq-sub-mod, add-mul, add-mul-mod_self_right,
}
use minic_os.Base.{
  ℕ, zero, suc, ◌+◌, ◌-◌, ◌*◌, ◌%◌, ◌^◌, ◌<◌, ◌≤◌, ◌≡◌, refl, sym, ap, ◌∙◌, true, false, List, ltb,
  if◌then◌else◌, length, get_or, length-tabulate, Bool-cases, inl, inr, arith,
}
use minic_os.Base.Int.{ℤ}
use minic_os.Base.Powers.{pow-add, two-pow_words, two-pow_pos}
use minic_os.Base.Exec.{done}
use minic_os.Security.Bignum.{
  limb_base, cmp_limbs, shr1_limbs, shl_limbs, at_least_zero, reduce_once, reduce_loop, copy_limbs,
  reduce_shifted, reduce_by, mod_reduce_wide, bignum_mulmod,
}
use minic_os.Security.Bignum.Value.{
  IsLimbs, value, value-lt, value-copy_limbs, tabulate-IsLimbs, get_or-lt, cmp_limbs_lem,
}
use minic_os.Security.Bignum.Subtract.{Limbs, sub_limbs_lem, shr1_limbs_lem}
use minic_os.Security.Bignum.Shift.{shl_limbs_lem}
use minic_os.Security.Bignum.Multiply.{mul_limbs_lem}
use minic_os.Security.Bignum.Top.{Highest, no_bit, at_bit, highest_bit_index_lem}

reduce_once_lem :
    (wide s : List ℕ)
    → IsLimbs wide
    → IsLimbs s
    → length wide ≡ length s
    → Limbs
        (reduce_once wide s)
        (length wide)
        (if ltb (value wide) (value s) then value wide else value wide - value s)
reduce_once_lem wide s v w e = elim (Bool-cases (ltb (value wide) (value s))) [
  | inl less ↦
      let below : at_least_zero (cmp_limbs wide s) ≡ false =
        ground (arith, ap at_least_zero (cmp_limbs_lem wide s v w e)) in
      rw (below, less) (record { limbs = v; size = refl; number = refl })
  | inr enough ↦
      let above : at_least_zero (cmp_limbs wide s) ≡ true =
        ground (arith, ap at_least_zero (cmp_limbs_lem wide s v w e)) in
      rw (above, enough) (sub_limbs_lem wide s v w e (ground arith))
]

copy-Limbs :
    (n : ℕ) (xs : List ℕ)
    → IsLimbs xs
    → value xs < limb_base ^ n
    → Limbs (copy_limbs n xs) n (value xs)
copy-Limbs n xs v fits = record {
  limbs = tabulate-IsLimbs n (λ i. get_or xs i 0) (λ i. get_or-lt xs i v);
  size = length-tabulate n (λ i. get_or xs i 0);
  number = value-copy_limbs n xs fits;
}

module _ (M : ℕ) (pos_M : 0 < M) where
  -- Taking off a multiple leaves the remainder.
  same_remainder : (R k : ℕ) → k * M ≤ R → (R - k * M) % M ≡ R % M
  same_remainder R k le =
      let e : R ≡ R - k * M + k * M = omega arith in
      sym (ap (λ x. x % M) e ∙ add-mul-mod_self_right (R - k * M) k M)

  reduce_loop_lem :
      (s : ℕ) (wide shifted : List ℕ)
      → IsLimbs wide
      → IsLimbs shifted
      → length wide ≡ length shifted
      → value shifted ≡ 2 ^ s * M
      → value wide < 2 * (2 ^ s * M)
      → Limbs (reduce_loop s wide shifted) (length wide) (value wide % M)
  unfolding reduce_loop
  reduce_loop_lem zero wide shifted v w e number fits =
      let one : 2 ^ 0 * M ≡ M = omega (arith, pow-zero 2) in
      let r = reduce_once_lem wide shifted v w e in
      record { limbs = r.limbs; size = r.size; number = r.number ∙ last one }
    where
      last :
          2 ^ 0 * M ≡ M
          → (if ltb (value wide) (value shifted) then value wide else value wide - value shifted)
            ≡ value wide % M
      last one = elim (Bool-cases (ltb (value wide) (value shifted))) [
        | inl less ↦ rw less (sym (mod-eq_of_lt (ground (arith, number, one))))
        | inr enough ↦
            let is_M : value shifted ≡ M = number ∙ one in
            let le : M ≤ value wide = ground arith in
            rw (enough, is_M) (sym (mod-eq-sub-mod le ∙ mod-eq_of_lt (omega (arith, one))))
      ]
  reduce_loop_lem (suc s) wide shifted v w e number fits =
      let double : 2 ^ suc s * M ≡ 2 * (2 ^ s * M) =
        ap (λ x. x * M) (pow-succ' 2 s) ∙ mul_assoc 2 (2 ^ s) M in
      let r = reduce_once_lem wide shifted v w e in
      let (h, carry) = shr1_limbs_lem shifted w in
      let half : value (shr1_limbs shifted).0 ≡ 2 ^ s * M =
        h.number ∙ omega (arith, number, double) in
      let rest =
        reduce_loop_lem s (reduce_once wide shifted) (shr1_limbs shifted).0 r.limbs h.limbs
          (r.size ∙ e ∙ sym h.size) half (ground (arith, r.number, number, double)) in
      record {
        limbs = rest.limbs;
        size = rest.size ∙ r.size;
        number = rest.number ∙ ap (λ x. x % M) r.number ∙ taken_off;
      }
    where
      taken_off :
          (if ltb (value wide) (value shifted) then value wide else value wide - value shifted) % M
          ≡ value wide % M
      taken_off = elim (Bool-cases (ltb (value wide) (value shifted))) [
        | inl less ↦ rw less
        | inr enough ↦ rw enough (
            ap (λ x. (value wide - x) % M) number
            ∙ same_remainder (value wide) (2 ^ suc s) (ground (arith, number)))
      ]

reduce_shifted_lem :
    (shift : ℕ) (wide modulus : List ℕ)
    → IsLimbs wide
    → IsLimbs modulus
    → 0 < value modulus
    → value modulus * 2 ^ shift < limb_base ^ length wide
    → value wide < 2 * (value modulus * 2 ^ shift)
    → Limbs (reduce_shifted shift wide modulus) (length wide) (value wide % value modulus)
unfolding reduce_shifted
reduce_shifted_lem shift wide modulus v w pos_m fits below =
    let M : ℕ = value modulus in
    let n : ℕ = length wide in
    let grows : M * 1 ≤ M * 2 ^ shift = mul-le-mul_left M (two-pow_pos shift) in
    let c = copy-Limbs n modulus w (omega arith) in
    let s = shl_limbs_lem (copy_limbs n modulus) shift c.limbs (rw (c.number, c.size) fits) in
    let number : value (shl_limbs (copy_limbs n modulus) shift) ≡ 2 ^ shift * M =
      s.number ∙ ap (λ x. x * 2 ^ shift) c.number ∙ mul_comm M (2 ^ shift) in
    reduce_loop_lem M pos_m shift wide (shl_limbs (copy_limbs n modulus) shift) v s.limbs
      (sym (s.size ∙ c.size)) number (omega (arith, mul_comm M (2 ^ shift)))

-- The remainder of a number of any length by a modulus other than 0.
pub mod_reduce_wide_lem :
    (wide modulus : List ℕ)
    → IsLimbs wide
    → IsLimbs modulus
    → 0 < value modulus
    → Limbs (mod_reduce_wide wide modulus) (length modulus) (value wide % value modulus)
unfolding mod_reduce_wide
mod_reduce_wide_lem wide modulus v w pos_m =
    finish _ (by_tops _ _ (highest_bit_index_lem wide v) (highest_bit_index_lem modulus w))
  where
    W : ℕ
    W = value wide

    M : ℕ
    M = value modulus

    by_tops :
        (r m : ℤ)
        → Highest wide r
        → Highest modulus m
        → Limbs (reduce_by r m wide modulus) (length wide) (W % M)
    by_tops r m (no_bit none) h = record {
      limbs = v;
      size = refl;
      number = sym (mod-eq_of_lt (omega arith));
    }
    by_tops r m (at_bit k t lt) (no_bit none) = absurd (omega arith)
    by_tops r m (at_bit k t lt) (at_bit j u below) = elim (Bool-cases (ltb k j)) [
      | inl less ↦
          let up : 2 ^ suc k ≤ 2 ^ j =
            pow-le-pow_right {n = 2} (omega arith) {i = suc k} {j = j} (ground arith) in
          rw less (record {
            limbs = v;
            size = refl;
            number = sym (mod-eq_of_lt (omega (arith, t.upper, u.lower, pow-succ' 2 k)));
          })
      | inr enough ↦
          let le : j ≤ k = ground arith in
          let whole : 2 ^ j * 2 ^ (k - j) ≡ 2 ^ k =
            let e : j + (k - j) ≡ k = omega arith in
            sym (pow-add 2 j (k - j)) ∙ ap (λ n. 2 ^ n) e in
          let at_least : 2 ^ k ≤ M * 2 ^ (k - j) =
            let e : 2 ^ j * 2 ^ (k - j) ≤ M * 2 ^ (k - j) =
              mul-le-mul_right (2 ^ (k - j)) u.lower in
            omega (arith, whole) in
          let at_most : M * 2 ^ (k - j) < 2 * 2 ^ k =
            let e : (M + 1) * 2 ^ (k - j) ≤ 2 * 2 ^ j * 2 ^ (k - j) =
              mul-le-mul_right (2 ^ (k - j)) (omega (arith, u.upper)) in
            omega (
              arith,
              whole,
              mul_assoc 2 (2 ^ j) (2 ^ (k - j)),
              add-mul M 1 (2 ^ (k - j)),
              two-pow_pos (k - j),
            ) in
          let room : 2 ^ suc k ≤ 2 ^ (length wide * 32) =
            pow-le-pow_right {n = 2} (omega arith) {i = suc k} {j = length wide * 32}
              (omega arith) in
          rw enough (
            reduce_shifted_lem (k - j) wide modulus v w pos_m
              (omega (arith, at_most, pow-succ' 2 k, two-pow_words (length wide)))
              (omega (arith, t.upper)))
    ]

    finish :
        (reduced : List ℕ)
        → Limbs reduced (length wide) (W % M)
        → Limbs (copy_limbs (length modulus) reduced) (length modulus) (W % M)
    finish reduced r =
        let c =
          copy-Limbs (length modulus) reduced r.limbs
            (omega (arith, r.number, mod-lt W pos_m, value-lt modulus w)) in
        record { limbs = c.limbs; size = c.size; number = c.number ∙ r.number }

-- For a modulus other than 0, `bignum_mulmod` writes nothing outside its arrays and gives the product
-- modulo the modulus, in as many limbs as the modulus has.
pub bignum_mulmod_lem :
    (xs ys modulus : List ℕ)
    → IsLimbs xs
    → IsLimbs ys
    → IsLimbs modulus
    → 0 < value modulus
    → (r : List ℕ) × (bignum_mulmod xs ys modulus ≡ done r)
      × IsLimbs r
      × (length r ≡ length modulus)
      × (value r ≡ value xs * value ys % value modulus)
unfolding bignum_mulmod
bignum_mulmod_lem xs ys modulus v w u pos_m =
    let (wide, run, x) = mul_limbs_lem xs ys v w in
    let r = mod_reduce_wide_lem wide modulus x.limbs u pos_m in
    (
      mod_reduce_wide wide modulus,
      rw run,
      r.limbs,
      r.size,
      r.number ∙ ap (λ n. n % value modulus) x.number,
    )
