-- ===== src/Security/Bignum/Multiply.antt =====
-- `mul_limbs` is multiplication, and writes no limb outside its result.
use native.Mathlib.Nat.{
  pow-zero, pow-succ', mul-add, add-mul, mul_assoc, mul_comm, pow-le-pow_right, mod-eq_of_lt,
  mul-le-mul, mul-le-mul_right,
}
use minic_os.Base.{
  ℕ, suc, ◌+◌, ◌-◌, ◌*◌, ◌/◌, ◌%◌, ◌^◌, ◌<◌, ◌≤◌, ◌≡◌, refl, sym, ap, ◌∙◌, List, [], ◌∷◌, ◌==◌,
  length, replicate, length-replicate, Bool-cases, inl, inr, arith,
}
use minic_os.Base.Exec.{Exec, done}
use minic_os.Security.Bignum.{limb_base, carry_loop, mul_row, mul_rows, mul_limbs}
use minic_os.Security.Bignum.Value.{IsLimbs, value, value-lt, value-replicate, replicate-IsLimbs}
use minic_os.Security.Bignum.Subtract.{Limbs}

-- The loop ends inside the array, with a number in it.
abbrev pub Ends : Exec (List ℕ) → ℕ → ℕ → Type 0
Ends m n v = (r : List ℕ) × (m ≡ done r) × Limbs r n v

carry_loop_lem :
    (carry : ℕ) (out : List ℕ)
    → carry < limb_base
    → IsLimbs out
    → value out + carry < limb_base ^ length out
    → Ends (carry_loop carry out) (length out) (value out + carry)
unfolding carry_loop
carry_loop_lem carry [] small v fits =
    let none : carry ≡ 0 = omega (arith, pow-zero limb_base) in
    rw none ([], refl, record { limbs = tt; size = refl; number = refl })
carry_loop_lem carry (o ∷ out) small (h, v) fits = elim (Bool-cases (carry == 0)) [
  | inl none ↦
      let z : carry ≡ 0 = ground arith in
      rw z (o ∷ out, refl, record { limbs = (h, v); size = refl; number = omega arith })
  | inr more ↦
      let sum : (o + carry) % 2 ^ 64 ≡ o + carry = omega arith in
      let (r, run, w) =
        carry_loop_lem ((o + carry) / limb_base) out (omega arith) v
          (omega (arith, pow-succ' limb_base (length out))) in
      rw (more, sum)
        (
          (o + carry) % limb_base ∷ r,
          rw run,
          record {
            limbs = (omega arith, w.limbs);
            size = ap suc w.size;
            number = omega (arith, w.number);
          },
        )
]

-- A row of the product, split at the lowest limb.
spread : (a b y : ℕ) → a * (b + limb_base * y) ≡ a * b + limb_base * (a * y)
spread a b y =
    mul-add a b (limb_base * y)
    ∙ ap (λ x. a * b + x)
        (sym (mul_assoc a limb_base y)
          ∙ ap (λ x. x * y) (mul_comm a limb_base)
          ∙ mul_assoc limb_base a y)

product-le : (a b : ℕ) → a < limb_base → b < limb_base → a * b ≤ (limb_base - 1) * (limb_base - 1)
product-le a b p q =
    mul-le-mul {n₂ = limb_base - 1} {m₂ = limb_base - 1} (omega arith) (omega arith)

mul_row_lem :
    (a carry : ℕ) (ys out : List ℕ)
    → a < limb_base
    → carry < limb_base
    → IsLimbs ys
    → IsLimbs out
    → length ys ≤ length out
    → a * value ys + value out + carry < limb_base ^ length out
    → Ends (mul_row a carry ys out) (length out) (a * value ys + value out + carry)
unfolding mul_row
mul_row_lem a carry [] out ha hc v w le fits =
    let none : a * 0 + value out + carry ≡ value out + carry = omega arith in
    rw none (carry_loop_lem carry out hc w (omega arith))
mul_row_lem a carry (b ∷ ys) [] ha hc v w le fits = absurd (omega arith)
mul_row_lem a carry (b ∷ ys) (o ∷ out) ha hc (hb, v) (ho, w) le fits =
    let bound = product-le a b ha hb in
    let prod : (a * b + o + carry) % 2 ^ 64 ≡ a * b + o + carry = mod-eq_of_lt (omega arith) in
    let split = spread a b (value ys) in
    let (r, run, x) =
      mul_row_lem a ((a * b + o + carry) / limb_base) ys out ha (omega arith) v w (omega arith)
        (omega (arith, split, pow-succ' limb_base (length out))) in
    rw prod (
      (a * b + o + carry) % limb_base ∷ r,
      rw run,
      record {
        limbs = (omega arith, x.limbs);
        size = ap suc x.size;
        number = omega (arith, x.number, split);
      },
    )

row-le : (a y : ℕ) → a < limb_base → a * y ≤ (limb_base - 1) * y
row-le a y h = mul-le-mul_right y (omega arith)

mul_rows_lem :
    (xs ys out : List ℕ)
    → IsLimbs xs
    → IsLimbs ys
    → IsLimbs out
    → length out ≡ length xs + length ys
    → value out < limb_base ^ length ys
    → Ends (mul_rows xs ys out) (length out) (value xs * value ys + value out)
unfolding mul_rows
mul_rows_lem [] ys out v w u e fits =
    (out, refl, record { limbs = u; size = refl; number = omega arith })
mul_rows_lem (a ∷ xs) ys out (ha, v) w u e fits =
    go (mul_row_lem a 0 ys out ha (omega arith) w u (omega arith) (omega (arith, row_fits, grows)))
      (λ rest u' e' fits'. mul_rows_lem xs ys rest v w u' e' fits')
  where
    Y : ℕ
    Y = value ys

    P : ℕ
    P = limb_base ^ length ys

    row_fits : a * Y + value out < limb_base * P
    row_fits = omega (arith, row-le a Y ha, value-lt ys w)

    grows : limb_base * P ≤ limb_base ^ length out
    grows = omega (
      arith,
      pow-succ' limb_base (length ys),
      pow-le-pow_right {n = limb_base} (omega arith) {i = suc (length ys)} {j = length out}
          (omega arith),
    )

    expand : (a + limb_base * value xs) * Y ≡ a * Y + limb_base * (value xs * Y)
    expand =
        add-mul a (limb_base * value xs) Y ∙ ap (λ x. a * Y + x) (mul_assoc limb_base (value xs) Y)

    go :
        Ends (mul_row a 0 ys out) (length out) (a * Y + value out + 0)
        → ((rest : List ℕ)
            → IsLimbs rest
            → length rest ≡ length xs + length ys
            → value rest < P
            → Ends (mul_rows xs ys rest) (length rest) (value xs * value ys + value rest))
        → Ends (mul_rows (a ∷ xs) ys out) (length out) (value (a ∷ xs) * value ys + value out)
    go ([], run, x) ih = absurd (omega (arith, x.size))
    go (o ∷ rest, run, x) ih =
        let (r, run', z) =
          ih rest x.limbs.1 (omega (arith, x.size)) (omega (arith, x.number, row_fits)) in
        (
          o ∷ r,
          rw (run, run'),
          record {
            limbs = (x.limbs.0, z.limbs);
            size = omega (arith, z.size, x.size);
            number = omega (arith, z.number, x.number, expand);
          },
        )

-- The product of two numbers, in as many limbs as both have together.
pub mul_limbs_lem :
    (xs ys : List ℕ)
    → IsLimbs xs
    → IsLimbs ys
    → Ends (mul_limbs xs ys) (length xs + length ys) (value xs * value ys)
unfolding mul_limbs
mul_limbs_lem xs ys v w =
    let n : ℕ = length xs + length ys in
    let size : length (replicate n 0) ≡ n = length-replicate n 0 in
    let zero_value = value-replicate n in
    let (r, run, x) =
      mul_rows_lem xs ys (replicate n 0) v w (replicate-IsLimbs n) size
        (omega (arith, zero_value, value-lt ys w)) in
    (
      r,
      run,
      record {
        limbs = x.limbs;
        size = x.size ∙ size;
        number = omega (arith, x.number, zero_value);
      },
    )
