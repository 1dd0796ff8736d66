-- ===== src/Security/Bignum.antt =====
-- kernel/security/bignum/bignum.c: unsigned numbers as arrays of 32-bit limbs, the least significant
-- first, and modular exponentiation.
-- An array is the list of its limbs, and a loop over two arrays recurses on the lists. A loop that
-- goes down from the last limb is the recursion that first treats the tail. `x & 0xFFFFFFFF` and
-- `x >> k` are `x % 2 ^ 32` and `x / 2 ^ k`.
pub mod Value
pub mod Bits
pub mod Subtract
pub mod Multiply
pub mod Shift
pub mod Top
pub mod Reduce
pub mod Power
pub mod Import
pub mod Export
use Prim.Native.Nat.{bit_or}
use mathlib.Core.List.{reverse}
use minic_os.Base.{
  ℕ, zero, suc, ◌+◌, ◌-◌, ◌*◌, ◌/◌, ◌%◌, ◌^◌, Bool, true, false, List, [], ◌∷◌, ◌==◌, ltb, leb,
  if◌then◌else◌, length, get_elem?, get_or, set, replicate, tabulate,
}
use minic_os.Base.Int.{ℤ, pos, negsuc}
use minic_os.Base.Exec.{Exec, done, fault, ◌>>=◌, at_index}

abbrev pub bignum_limbs : ℕ
bignum_limbs = 128

abbrev pub limb_base : ℕ
limb_base = 2 ^ 32

abbrev pub bignum_zero : List ℕ
bignum_zero = replicate bignum_limbs 0

unfoldable pub bignum_set_u32 : ℕ → List ℕ
bignum_set_u32 v = set bignum_zero 0 v

abbrev pub bignum_copy : List ℕ → List ℕ
bignum_copy src = tabulate bignum_limbs (λ i. get_or src i 0)

-- What the limbs above say, if they differ, and what this one says otherwise.
abbrev pub unless_above : ℤ → ℤ → ℤ
unless_above (pos zero) here = here
unless_above (pos (suc n)) here = pos (suc n)
unless_above (negsuc n) here = negsuc n

unfoldable pub cmp_limbs : List ℕ → List ℕ → ℤ
cmp_limbs [] bs = pos 0
cmp_limbs (a ∷ xs) [] = pos 0
cmp_limbs (a ∷ xs) (b ∷ ys) =
    unless_above (cmp_limbs xs ys) (if a == b then pos 0 else if ltb b a then pos 1 else negsuc 0)

-- The loop of `sub_limbs`, from a borrow on.
unfoldable pub sub_loop : ℕ → List ℕ → List ℕ → List ℕ
sub_loop borrow [] bs = []
sub_loop borrow (a ∷ xs) [] = []
sub_loop borrow (a ∷ xs) (b ∷ ys) =
    let short : Bool = ltb a (b + borrow) in
    (if short then a + limb_base - b - borrow else a - b - borrow)
    ∷ sub_loop (if short then 1 else 0) xs ys

unfoldable pub sub_limbs : List ℕ → List ℕ → List ℕ
unfolding sub_loop
sub_limbs xs ys = sub_loop 0 xs ys

-- The shifted limbs, and the carry that leaves the last one.
unfoldable pub shr1_limbs : List ℕ → List ℕ × ℕ
shr1_limbs [] = ([], 0)
shr1_limbs (a ∷ xs) =
    let (ys, carry) = shr1_limbs xs in (bit_or (a / 2) (carry * 2 ^ 31) ∷ ys, a % 2)

-- The first two loops of `shl_limbs`: whole limbs. The first goes down, so it reads no limb that
-- it has written.
abbrev pub shift_limbs : ℕ → List ℕ → List ℕ
shift_limbs limb_shift xs =
    tabulate (length xs) (λ i. if ltb i limb_shift then 0 else get_or xs (i - limb_shift) 0)

-- The third: less than a limb, from a carry on.
unfoldable pub shift_bits : ℕ → ℕ → List ℕ → List ℕ
shift_bits bit_shift carry [] = []
shift_bits bit_shift carry (a ∷ xs) =
    bit_or (a * 2 ^ bit_shift % limb_base) carry
    ∷ shift_bits bit_shift (a / 2 ^ (32 - bit_shift)) xs

unfoldable pub shl_limbs : List ℕ → ℕ → List ℕ
unfolding shift_bits
shl_limbs xs bits =
    let limb_shift : ℕ = bits / 32 in
    let bit_shift : ℕ = bits % 32 in
    let moved : List ℕ = if limb_shift == 0 then xs else shift_limbs limb_shift xs in
    if bit_shift == 0 then moved else shift_bits bit_shift 0 moved

-- The inner loop of `highest_bit_index`, at a bit.
unfoldable pub top_bit : ℕ → ℕ → ℕ
top_bit v zero = 0
top_bit v (suc bit) =
    let below : ℕ = top_bit v bit in if v / 2 ^ suc bit % 2 == 0 then below else suc bit

-- The index of this limb's highest bit, where no limb above has one.
abbrev pub in_limb : ℕ → ℤ → ℤ
in_limb a (pos k) = pos (k + 32)
in_limb a (negsuc k) = if a == 0 then negsuc 0 else pos (top_bit a 31)

unfoldable pub highest_bit_index : List ℕ → ℤ
unfolding top_bit
highest_bit_index [] = negsuc 0
highest_bit_index (a ∷ xs) = in_limb a (highest_bit_index xs)

-- The carry loop of `mul_limbs`.
unfoldable pub carry_loop : ℕ → List ℕ → Exec (List ℕ)
carry_loop carry [] = if carry == 0 then done [] else fault
carry_loop carry (o ∷ out) =
    let sum : ℕ = (o + carry) % 2 ^ 64 in
    let rest : Exec (List ℕ) =
      carry_loop (sum / limb_base) out >>= λ out'. done (sum % limb_base ∷ out') in
    if carry == 0 then done (o ∷ out) else rest

-- The inner loop of `mul_limbs`, for one limb `a` of the first number.
unfoldable pub mul_row : ℕ → ℕ → List ℕ → List ℕ → Exec (List ℕ)
unfolding carry_loop
mul_row a carry [] out = carry_loop carry out
mul_row a carry (b ∷ ys) [] = fault
mul_row a carry (b ∷ ys) (o ∷ out) =
    let prod : ℕ = (a * b + o + carry) % 2 ^ 64 in
    mul_row a (prod / limb_base) ys out >>= λ out'. done (prod % limb_base ∷ out')

-- The outer loop of `mul_limbs`; the limbs below `i` are not touched again.
unfoldable pub mul_rows : List ℕ → List ℕ → List ℕ → Exec (List ℕ)
unfolding mul_row
mul_rows [] ys out = done out
mul_rows (a ∷ xs) ys out = mul_row a 0 ys out >>= λ out'. elim out' [
  | [] ↦ fault
  | o ∷ rest ↦ mul_rows xs ys rest >>= λ rest'. done (o ∷ rest')
]

unfoldable pub mul_limbs : List ℕ → List ℕ → Exec (List ℕ)
unfolding mul_rows
mul_limbs xs ys = mul_rows xs ys (replicate (length xs + length ys) 0)

abbrev pub at_least_zero : ℤ → Bool
at_least_zero (pos n) = true
at_least_zero (negsuc n) = false

-- A round of the loop of `mod_reduce_wide`: `wide` afterwards.
abbrev pub reduce_once : List ℕ → List ℕ → List ℕ
reduce_once wide shifted_mod =
    if at_least_zero (cmp_limbs wide shifted_mod) then sub_limbs wide shifted_mod else wide

-- The loop of `mod_reduce_wide`, from round `s` down.
unfoldable pub reduce_loop : ℕ → List ℕ → List ℕ → List ℕ
unfolding sub_limbs cmp_limbs shr1_limbs
reduce_loop zero wide shifted_mod = reduce_once wide shifted_mod
reduce_loop (suc s) wide shifted_mod =
    reduce_loop s (reduce_once wide shifted_mod) (shr1_limbs shifted_mod).0

-- The first `n` limbs of an array, which is padded with 0.
abbrev pub copy_limbs : ℕ → List ℕ → List ℕ
copy_limbs n xs = tabulate n (λ i. get_or xs i 0)

-- The division by `modulus` shifted by `shift`.
unfoldable pub reduce_shifted : ℕ → List ℕ → List ℕ → List ℕ
unfolding reduce_loop shl_limbs
reduce_shifted shift wide modulus =
    reduce_loop shift wide (shl_limbs (copy_limbs (length wide) modulus) shift)

-- The cases of the two bit indices; nothing is to be done for a number of fewer bits than the modulus.
unfoldable pub reduce_by : ℤ → ℤ → List ℕ → List ℕ → List ℕ
unfolding reduce_shifted
reduce_by (negsuc r) top_mod wide modulus = wide
reduce_by (pos r) (negsuc m) wide modulus = reduce_shifted (r + 1) wide modulus
reduce_by (pos r) (pos m) wide modulus =
    if ltb r m then wide else reduce_shifted (r - m) wide modulus

unfoldable pub mod_reduce_wide : List ℕ → List ℕ → List ℕ
unfolding reduce_by highest_bit_index
mod_reduce_wide wide modulus =
    copy_limbs (length modulus)
      (reduce_by (highest_bit_index wide) (highest_bit_index modulus) wide modulus)

unfoldable pub bignum_compare : List ℕ → List ℕ → ℤ
unfolding cmp_limbs
bignum_compare xs ys = cmp_limbs xs ys

unfoldable pub bignum_bit_length : List ℕ → ℕ
unfolding highest_bit_index
bignum_bit_length xs = elim (highest_bit_index xs) [ pos top ↦ top + 1 | negsuc k ↦ 0 ]

unfoldable pub bignum_sub : List ℕ → List ℕ → List ℕ
unfolding sub_limbs
bignum_sub xs ys = sub_limbs xs ys

unfoldable pub bignum_mulmod : List ℕ → List ℕ → List ℕ → Exec (List ℕ)
unfolding mul_limbs mod_reduce_wide
bignum_mulmod xs ys modulus = mul_limbs xs ys >>= λ wide. done (mod_reduce_wide wide modulus)

unfoldable pub bignum_test_bit : List ℕ → ℕ → Bool
bignum_test_bit xs bit_index = get_or xs (bit_index / 32) 0 / 2 ^ (bit_index % 32) % 2 == 1

-- The loop of `bignum_modexp`, with the bits below `i` to go.
unfoldable pub power_loop : List ℕ → List ℕ → List ℕ → ℕ → List ℕ → Exec (List ℕ)
unfolding bignum_mulmod bignum_test_bit
power_loop b exponent modulus zero acc = done acc
power_loop b exponent modulus (suc i) acc = do
  square ← bignum_mulmod acc acc modulus
  let times_b : Exec (List ℕ) = bignum_mulmod square b modulus
  acc' ← if bignum_test_bit exponent i then times_b else done square
  power_loop b exponent modulus i acc'

unfoldable pub bignum_modexp : List ℕ → List ℕ → List ℕ → Exec (List ℕ)
unfolding power_loop bignum_bit_length bignum_set_u32
bignum_modexp base exponent modulus =
    power_loop base exponent modulus (bignum_bit_length exponent) (bignum_set_u32 1)

-- The loop of `bignum_from_bytes_be`, which walks the bytes from the last one, of index `i` = 0. A
-- byte that is shifted by at most 24 bits fits in a limb.
unfoldable pub import_loop : ℕ → List ℕ → List ℕ → Exec (List ℕ)
import_loop i [] out = done out
import_loop i (b ∷ bytes) out = do
  limb ← at_index (get_elem? out (i / 4))
  import_loop (i + 1) bytes (set out (i / 4) (bit_or limb (b * 2 ^ (i % 4 * 8))))

unfoldable pub bignum_from_bytes_be : List ℕ → Exec (List ℕ)
unfolding import_loop
bignum_from_bytes_be bytes = import_loop 0 (reverse bytes) bignum_zero

-- The loop of `bignum_to_bytes_be`, with `left` rounds to go: it fills the array from its end, and
-- `out` is what it has filled in.
unfoldable pub export_loop : ℕ → ℕ → List ℕ → List ℕ → Exec (List ℕ)
export_loop zero i n out = done out
export_loop (suc left) i n out = do
  limb ← at_index (get_elem? n (i / 4))
  export_loop left (i + 1) n (limb / 2 ^ (i % 4 * 8) % 256 ∷ out)

unfoldable pub bignum_to_bytes_be : List ℕ → ℕ → Exec (List ℕ)
unfolding export_loop
bignum_to_bytes_be n len = export_loop len 0 n []
