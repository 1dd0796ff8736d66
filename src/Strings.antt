-- ===== src/Strings.antt =====
-- kernel/lib/strings.c: comparing strings, and numbers as text. A string is the list of its
-- characters up to the terminating 0.
pub mod Compare
pub mod Numbers
pub mod Search
pub mod Address
use minic_os.Base.{
  ℕ, zero, suc, ◌+◌, ◌-◌, ◌*◌, ◌/◌, ◌%◌, ◌^◌, Bool, true, false, ◌&&◌, List, [], ◌∷◌, ◌==◌, ltb,
  leb, if◌then◌else◌, get_or, set, tabulate,
}

-- Where one string has ended, its character is 0.
unfoldable pub streq : List ℕ → List ℕ → Bool
streq [] [] = true
streq [] (b ∷ bs) = 0 == b
streq (a ∷ xs) [] = a == 0
streq (a ∷ xs) (b ∷ bs) = let rest : Bool = streq xs bs in if a == b then rest else false

unfoldable pub starts_with : List ℕ → List ℕ → Bool
starts_with s [] = true
starts_with [] (p ∷ ps) = let rest : Bool = starts_with [] ps in if 0 == p then rest else false
starts_with (c ∷ cs) (p ∷ ps) =
    let rest : Bool = starts_with cs ps in if c == p then rest else false

-- The loop of `parse_decimal_u32`, with `value` read so far.
unfoldable pub decimal_loop : ℕ → List ℕ → ℕ
decimal_loop value [] = value
decimal_loop value (c ∷ cs) =
    let rest : ℕ = decimal_loop ((value * 10 + (c - 48)) % 2 ^ 32) cs in
    if leb 48 c && leb c 57 then rest else value

unfoldable pub parse_decimal_u32 : List ℕ → ℕ
unfolding decimal_loop
parse_decimal_u32 s = decimal_loop 0 s

-- The loop of `parse_hex`: a character that is no digit is skipped.
unfoldable pub hex_loop : ℕ → List ℕ → ℕ
hex_loop value [] = value
hex_loop value (c ∷ cs) =
    hex_loop
      (if leb 48 c && leb c 57
        then (value * 16 + (c - 48)) % 2 ^ 64
        else if leb 97 c && leb c 102
        then (value * 16 + (c - 97 + 10)) % 2 ^ 64
        else value)
      cs

unfoldable pub parse_hex : List ℕ → ℕ
unfolding hex_loop
parse_hex [] = 0
parse_hex (c ∷ []) = hex_loop 0 (c ∷ [])
parse_hex (c ∷ d ∷ s) = if c == 48 && d == 120 then hex_loop 0 s else hex_loop 0 (c ∷ d ∷ s)

-- The loops of `format_hex` and `format_decimal`, which fill a buffer from its end while the value is
-- not 0, with `room` places left: where they stop, and the buffer.
unfoldable pub fill : (base : ℕ) (digit : ℕ → ℕ) → ℕ → ℕ → List ℕ → ℕ × List ℕ
fill base digit zero value buf = (0, buf)
fill base digit (suc i) value buf =
    let rest : ℕ × List ℕ = fill base digit i (value / base) (set buf i (digit (value % base))) in
    if value == 0 then (suc i, buf) else rest

-- What they copy out: the buffer from there on.
unfoldable pub formatted : (base size : ℕ) (digit : ℕ → ℕ) → ℕ → List ℕ → List ℕ
unfolding fill
formatted base size digit value buf =
    let (start, filled) = fill base digit size value buf in
    if value == 0 then digit 0 ∷ [] else tabulate (size - start) (λ j. get_or filled (start + j) 0)

-- `digits[nibble]`
abbrev pub hex_digit : ℕ → ℕ
hex_digit n = if ltb n 10 then 48 + n else 87 + n

abbrev pub decimal_digit : ℕ → ℕ
decimal_digit n = 48 + n

-- `buf` is what the local buffer holds before.
unfoldable pub format_hex : ℕ → List ℕ → List ℕ
unfolding formatted
format_hex value buf = formatted 16 16 hex_digit value buf

unfoldable pub format_decimal : ℕ → List ℕ → List ℕ
unfolding formatted
format_decimal value buf = formatted 10 20 decimal_digit value buf
