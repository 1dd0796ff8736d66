-- ===== src/Security/Bignum/Subtract.antt =====
-- `sub_limbs` and `shr1_limbs`: subtraction, and division by two.
use Prim.Native.Nat.{bit_or}
use minic_os.Base.{
  ℕ, suc, ◌+◌, ◌-◌, ◌*◌, ◌/◌, ◌%◌, ◌^◌, ◌≤◌, ◌≡◌, refl, ap, List, [], ◌∷◌, ltb, length, Bool-cases,
  inl, inr, arith,
}
use minic_os.Security.Bignum.{sub_loop, sub_limbs, shr1_limbs}
use minic_os.Security.Bignum.Value.{IsLimbs, value}
use minic_os.Security.Bignum.Bits.{bit_or-above}

-- What an operation that keeps the length and the limbs' range gives back.
pub record Limbs (xs : List ℕ) (n v : ℕ) : Type 0 where
  pub limbs : IsLimbs xs
  pub size : length xs ≡ n
  pub number : value xs ≡ v

sub_loop_lem :
    (borrow : ℕ) (xs ys : List ℕ)
    → borrow ≤ 1
    → IsLimbs xs
    → IsLimbs ys
    → length xs ≡ length ys
    → value ys + borrow ≤ value xs
    → Limbs (sub_loop borrow xs ys) (length xs) (value xs - value ys - borrow)
unfolding sub_loop
sub_loop_lem borrow [] [] small v w e le = record { limbs = tt; size = refl; number = omega arith }
sub_loop_lem borrow [] (b ∷ ys) small v w e le = absurd (omega arith)
sub_loop_lem borrow (a ∷ xs) [] small v w e le = absurd (omega arith)
sub_loop_lem borrow (a ∷ xs) (b ∷ ys) small (ha, v) (hb, w) e le =
    elim (Bool-cases (ltb a (b + borrow))) [
      | inl short ↦
          let rest = sub_loop_lem 1 xs ys (omega arith) v w (omega arith) (ground arith) in
          rw short (record {
            limbs = (ground arith, rest.limbs);
            size = ap suc rest.size;
            number = ground (arith, rest.number);
          })
      | inr enough ↦
          let rest = sub_loop_lem 0 xs ys (omega arith) v w (omega arith) (ground arith) in
          rw enough (record {
            limbs = (ground arith, rest.limbs);
            size = ap suc rest.size;
            number = ground (arith, rest.number);
          })
    ]

-- Subtraction of a number that is not the larger.
pub sub_limbs_lem :
    (xs ys : List ℕ)
    → IsLimbs xs
    → IsLimbs ys
    → length xs ≡ length ys
    → value ys ≤ value xs
    → Limbs (sub_limbs xs ys) (length xs) (value xs - value ys)
unfolding sub_limbs
sub_limbs_lem xs ys v w e le =
    let r = sub_loop_lem 0 xs ys (omega arith) v w e (omega arith) in
    record { limbs = r.limbs; size = r.size; number = omega (arith, r.number) }

-- A shift to the right by one halves the number; the carry is its lowest bit.
pub shr1_limbs_lem :
    (xs : List ℕ)
    → IsLimbs xs
    → Limbs (shr1_limbs xs).0 (length xs) (value xs / 2) × ((shr1_limbs xs).1 ≡ value xs % 2)
unfolding shr1_limbs
shr1_limbs_lem [] v = (record { limbs = tt; size = refl; number = refl }, refl)
shr1_limbs_lem (a ∷ xs) (h, v) =
    let (rest, carry) = shr1_limbs_lem xs v in
    let both : bit_or (a / 2) ((shr1_limbs xs).1 * 2 ^ 31) ≡ a / 2 + (shr1_limbs xs).1 * 2 ^ 31 =
      bit_or-above 31 (a / 2) (shr1_limbs xs).1 (omega arith) in
    (
      record {
        limbs = (omega (arith, both, carry), rest.limbs);
        size = ap suc rest.size;
        number = omega (arith, both, carry, rest.number);
      },
      omega arith,
    )
