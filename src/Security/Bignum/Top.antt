-- ===== src/Security/Bignum/Top.antt =====
-- `highest_bit_index`, and the highest bit of a number.
use native.Mathlib.Nat.{pow-zero, pow-succ', div-eq_of_lt, div-eq_of_lt-le}
use native.Mathlib.Decide.{dec_lt}
use minic_os.Base.{
  ℕ, zero, suc, ◌+◌, ◌*◌, ◌/◌, ◌%◌, ◌^◌, ◌<◌, ◌≤◌, ◌≡◌, refl, ap, ◌∙◌, true, false, List, [], ◌∷◌,
  ◌==◌, length, Bool-cases, inl, inr, arith,
}
use minic_os.Base.Int.{ℤ, pos, negsuc}
use minic_os.Base.Powers.{pow-add}
use minic_os.Security.Bignum.{limb_base, top_bit, in_limb, highest_bit_index}
use minic_os.Security.Bignum.Value.{IsLimbs, value}

-- The bit `k` is the highest of `v`.
pub record IsTop (v k : ℕ) : Type 0 where
  pub lower : 2 ^ k ≤ v
  pub upper : v < 2 * 2 ^ k

top_bit_lem :
    (v bit : ℕ) → 0 < v → v < 2 * 2 ^ bit → IsTop v (top_bit v bit) × (top_bit v bit ≤ bit)
unfolding top_bit
top_bit_lem v zero some_bit fits =
    (record { lower = omega (arith, pow-zero 2); upper = fits }, omega arith)
top_bit_lem v (suc bit) some_bit fits = elim (dec_lt v (2 ^ suc bit)) [
  | yes below ↦
      let none : v / 2 ^ suc bit ≡ 0 = div-eq_of_lt below in
      let clear : (v / 2 ^ suc bit % 2 == 0) ≡ true = ap (λ x. x % 2 == 0) none in
      let (t, le) = top_bit_lem v bit some_bit (omega (arith, pow-succ' 2 bit)) in
      rw clear (t, omega arith)
  | no above ↦
      let one : v / 2 ^ suc bit ≡ 1 = div-eq_of_lt-le (2 ^ suc bit) (omega arith) (omega arith) in
      let set : (v / 2 ^ suc bit % 2 == 0) ≡ false = ap (λ x. x % 2 == 0) one in
      rw set (record { lower = omega arith; upper = fits }, omega arith)
]

-- No limb has a bit, or the index is that of the highest bit.
pub data Highest (xs : List ℕ) : ℤ → Type 0 where
  no_bit : value xs ≡ 0 → Highest xs (negsuc 0)
  at_bit : (k : ℕ) → IsTop (value xs) k → k < length xs * 32 → Highest xs (pos k)

pub highest_bit_index_lem : (xs : List ℕ) → IsLimbs xs → Highest xs (highest_bit_index xs)
unfolding highest_bit_index
highest_bit_index_lem [] v = no_bit refl
highest_bit_index_lem (a ∷ xs) (h, v) = go (highest_bit_index xs) (highest_bit_index_lem xs v)
  where
    go : (z : ℤ) → Highest xs z → Highest (a ∷ xs) (in_limb a z)
    go z (no_bit none) = elim (Bool-cases (a == 0)) [
      | inl empty ↦ rw empty (no_bit (ground arith))
      | inr some_bit ↦
          let (t, le) = top_bit_lem a 31 (ground arith) (omega arith) in
          let same : a + limb_base * value xs ≡ a = omega arith in
          rw some_bit (at_bit (top_bit a 31) (rw same t) (omega arith))
    ]
    go z (at_bit k t lt) =
        let up : 2 ^ (k + 32) ≡ limb_base * 2 ^ k = pow-add 2 k 32 ∙ omega arith in
        at_bit (k + 32)
          (record { lower = omega (arith, up, t.lower); upper = omega (arith, up, t.upper) })
          (omega arith)
