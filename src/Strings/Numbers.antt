-- ===== src/Strings/Numbers.antt =====
-- Numbers written and read back.
use native.Mathlib.Nat.{pow-zero, pow-suc, mod-eq_of_lt}
use minic_os.Base.{
  ℕ, zero, suc, ◌+◌, ◌-◌, ◌*◌, ◌/◌, ◌%◌, ◌^◌, ◌<◌, ◌≤◌, ◌≡◌, refl, sym, ap, ap₂, ◌∙◌, true, ◌&&◌,
  List, [], ◌∷◌, ◌==◌, leb, if◌then◌else◌, get_or, set, length, length-set, get_or-set_self,
  get_or-set_ne, tabulate, tabulate-ext, arith, Bool-cases, inl, inr,
}
use minic_os.Strings.{
  decimal_loop, parse_decimal_u32, hex_loop, parse_hex, fill, formatted, hex_digit, decimal_digit,
  format_hex, format_decimal,
}

-- A reader that takes the digits of a base, modulo `m`.
module _ (base size m : ℕ) (digit : ℕ → ℕ) (read : ℕ → List ℕ → ℕ) (some_base : 0 < base)
    (small : (v : ℕ) → v % base < base)
    (shrinks : (i v : ℕ) → v < base ^ suc i → v / base < base ^ i)
    (join : (v : ℕ) → ((v / base % m) * base + v % base) % m ≡ v % m)
    (reads : (acc d : ℕ) (cs : List ℕ)
      → d < base
      → read acc (digit d ∷ cs) ≡ read ((acc * base + d) % m) cs) where
  -- The buffer from a place on.
  abbrev from : ℕ → List ℕ → List ℕ
  from i buf = tabulate (size - i) (λ j. get_or buf (i + j) 0)

  from-suc : (i : ℕ) (buf : List ℕ) → i < size → from i buf ≡ get_or buf i 0 ∷ from (suc i) buf
  from-suc i buf lt =
      let e : size - i ≡ suc (size - suc i) = omega arith in
      let z : i + 0 ≡ i = omega arith in
      ap (λ n. tabulate n (λ j. get_or buf (i + j) 0)) e
      ∙ ap₂ (λ x y. x ∷ y) (ap (λ k. get_or buf k 0) z)
          (tabulate-ext (size - suc i) _ _ (λ j l. ap (λ k. get_or buf k 0) (omega arith)))

  from-set : (i c : ℕ) (buf : List ℕ) → from (suc i) (set buf i c) ≡ from (suc i) buf
  from-set i c buf =
      tabulate-ext (size - suc i) _ _ (λ j l. get_or-set_ne buf i (suc i + j) c 0 (omega arith))

  -- Reading what the loop has filled in gives the value, and then what is behind it is read.
  read-fill :
      (i v : ℕ) (buf : List ℕ)
      → v < base ^ i
      → i ≤ size
      → length buf ≡ size
      → read (0 % m) (from (fill base digit i v buf).0 (fill base digit i v buf).1)
        ≡ read (v % m) (from i buf)
  unfolding fill
  read-fill zero v buf lt le room = let e : v ≡ 0 = omega (arith, pow-zero base) in rw e refl
  read-fill (suc i) v buf lt le room = elim (Bool-cases (v == 0)) [
    | inl none ↦ let e : v ≡ 0 = ground arith in rw (none, e) refl
    | inr more ↦
        let put : List ℕ = set buf i (digit (v % base)) in
        let rest =
          read-fill i (v / base) put (shrinks i v lt) (omega arith) (length-set buf i _ ∙ room) in
        let here : from i put ≡ digit (v % base) ∷ from (suc i) buf =
          from-suc i put (omega arith)
          ∙ ap₂ (λ x y. x ∷ y) (get_or-set_self buf i _ 0 (omega arith)) (from-set i _ buf) in
        rw more (
          rest
          ∙ ap (read (v / base % m)) here
          ∙ reads (v / base % m) (v % base) _ (small v)
          ∙ ap (λ x. read x (from (suc i) buf)) (join v))
  ]

  -- With nothing behind the buffer, what is written is read back.
  read-formatted :
      (v : ℕ) (buf : List ℕ)
      → v < base ^ size
      → length buf ≡ size
      → ((x : ℕ) → read x [] ≡ x)
      → 0 < m
      → read 0 (formatted base size digit v buf) ≡ v % m
  unfolding formatted
  read-formatted v buf lt room ends pos_m = elim (Bool-cases (v == 0)) [
    | inl none ↦
        let e : v ≡ 0 = ground arith in
        let z : 0 * base + 0 ≡ 0 = omega arith in
        rw (none, e) (reads 0 0 [] some_base ∙ ends _ ∙ ap (λ x. x % m) z)
    | inr more ↦
        let start : 0 % m ≡ 0 = mod-eq_of_lt pos_m in
        let none_left : size - size ≡ 0 = omega arith in
        let last : from size buf ≡ [] =
          ap (λ n. tabulate n (λ j. get_or buf (size + j) 0)) none_left in
        rw more (
          ap (λ x. read x (from (fill base digit size v buf).0 (fill base digit size v buf).1))
            (sym start)
          ∙ read-fill size v buf lt (omega arith) room
          ∙ ap (read (v % m)) last
          ∙ ends (v % m))
  ]

-- What `format_decimal` writes for a 64-bit value, `parse_decimal_u32` reads as its low 32 bits.
pub parse_decimal_u32-format_decimal :
    (v : ℕ) (buf : List ℕ)
    → v < 2 ^ 64
    → length buf ≡ 20
    → parse_decimal_u32 (format_decimal v buf) ≡ v % 2 ^ 32
unfolding parse_decimal_u32 format_decimal decimal_loop
parse_decimal_u32-format_decimal v buf lt room =
    read-formatted 10 20 (2 ^ 32) decimal_digit decimal_loop (omega arith) (λ v. omega arith)
      shrinks (λ v. omega arith) reads v buf (omega arith) room (λ x. refl) (omega arith)
  where
    shrinks : (i v : ℕ) → v < 10 ^ suc i → v / 10 < 10 ^ i
    shrinks i v h = omega (arith, pow-suc 10 i)

    reads :
        (acc d : ℕ) (cs : List ℕ)
        → d < 10
        → decimal_loop acc (decimal_digit d ∷ cs) ≡ decimal_loop ((acc * 10 + d) % 2 ^ 32) cs
    reads acc d cs h =
        let is_digit : (leb 48 (48 + d) && leb (48 + d) 57) ≡ true = ground arith in
        let back : 48 + d - 48 ≡ d = omega arith in rw (is_digit, back)

-- What `format_hex` writes for a 64-bit value, `parse_hex` reads behind the prefix "0x" as that value.
pub parse_hex-format_hex :
    (v : ℕ) (buf : List ℕ)
    → v < 2 ^ 64
    → length buf ≡ 16
    → parse_hex (48 ∷ 120 ∷ format_hex v buf) ≡ v
unfolding parse_hex format_hex hex_loop
parse_hex-format_hex v buf lt room =
    read-formatted 16 16 (2 ^ 64) hex_digit hex_loop (omega arith) (λ v. omega arith) shrinks
      (λ v. omega arith) reads v buf (omega arith) room (λ x. refl) (omega arith)
    ∙ mod-eq_of_lt lt
  where
    shrinks : (i v : ℕ) → v < 16 ^ suc i → v / 16 < 16 ^ i
    shrinks i v h = omega (arith, pow-suc 16 i)

    step :
        (acc d : ℕ)
        → d < 16
        → (if leb 48 (hex_digit d) && leb (hex_digit d) 57
            then (acc * 16 + (hex_digit d - 48)) % 2 ^ 64
            else if leb 97 (hex_digit d) && leb (hex_digit d) 102
            then (acc * 16 + (hex_digit d - 97 + 10)) % 2 ^ 64
            else acc)
          ≡ (acc * 16 + d) % 2 ^ 64
    step acc d h = ground arith

    reads :
        (acc d : ℕ) (cs : List ℕ)
        → d < 16
        → hex_loop acc (hex_digit d ∷ cs) ≡ hex_loop ((acc * 16 + d) % 2 ^ 64) cs
    reads acc d cs h = ap (λ x. hex_loop x cs) (step acc d h)
