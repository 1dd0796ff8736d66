-- ===== src/Tests/Strings.antt =====
-- Some texts and numbers.
use minic_os.Base.{
  ℕ, zero, suc, ◌≡◌, refl, ◌%◌, ◌^◌, Bool, true, List, length, [], ◌∷◌, ◌++◌, replicate, arith,
}
use minic_os.Strings.{parse_decimal_u32, format_decimal, format_hex}
use minic_os.Strings.Compare.{IsText}
use minic_os.Base.Exec.{done}
use minic_os.Strings.Address.{parse_ip, parse_ip6}
use minic_os.Strings.Address.Ip.{dotted, parse_ip-dotted}
use minic_os.Strings.Address.Ip6.{Below}
use minic_os.Strings.Address.Ip6Write.{parse_ip6_bounds}
use minic_os.Strings.Search.{find_bytes}
use minic_os.Strings.Search.Find.{FirstIn, find_bytes_lem}
use minic_os.Strings.Numbers.{parse_decimal_u32-format_decimal}

-- "ls" and "lsusb"
abbrev ls : List ℕ
ls = 108 ∷ 115 ∷ []

abbrev lsusb : List ℕ
lsusb = 108 ∷ 115 ∷ 117 ∷ 115 ∷ 98 ∷ []

ls-IsText : IsText ls
ls-IsText zero c at = λ e. absurd (ground arith)
ls-IsText (suc zero) c at = λ e. absurd (ground arith)
ls-IsText (suc (suc i)) c at = absurd (cc)

parse_decimal_u32-format_decimal_example :
    parse_decimal_u32 (format_decimal 5000000000 (replicate 20 0)) ≡ 5000000000 % 2 ^ 32
parse_decimal_u32-format_decimal_example =
    parse_decimal_u32-format_decimal 5000000000 (replicate 20 0) (omega arith) refl

-- "48879" and "beef"
decimal_text : format_decimal 48879 (replicate 20 0) ≡ 52 ∷ 56 ∷ 56 ∷ 55 ∷ 57 ∷ []
unfolding format_decimal
decimal_text = refl

hex_text : format_hex 48879 (replicate 16 0) ≡ 98 ∷ 101 ∷ 101 ∷ 102 ∷ []
unfolding format_hex
hex_text = refl

-- "192.168.0.1"
parse_ip-dotted_example :
    parse_ip (dotted 192 168 0 1) (0 ∷ 0 ∷ 0 ∷ 0 ∷ []) ≡ (true, 192 ∷ 168 ∷ 0 ∷ 1 ∷ [])
parse_ip-dotted_example =
    parse_ip-dotted 192 168 0 1 0 0 0 0 (omega arith) (omega arith) (omega arith) (omega arith)

-- "::1"
abbrev loopback : List ℕ
loopback = b':' ∷ b':' ∷ b'1' ∷ []

parse_ip6_bounds_example :
    (ok : Bool) × (out' : List ℕ) × (parse_ip6 loopback (replicate 8 0) (replicate 16 255)
      ≡ done (ok, out'))
    × (length out' ≡ 16)
    × Below (2 ^ 8) out'
parse_ip6_bounds_example =
    parse_ip6_bounds loopback (replicate 8 0) (replicate 16 255) refl (below_8 8) refl (below_16 16)
  where
    below_8 : (n : ℕ) → Below (2 ^ 16) (replicate n 0)
    below_8 zero = tt
    below_8 (suc n) = (omega arith, below_8 n)

    below_16 : (n : ℕ) → Below (2 ^ 8) (replicate n 255)
    below_16 zero = tt
    below_16 (suc n) = (omega arith, below_16 n)

loopback_bytes :
    parse_ip6 loopback (replicate 8 0) (replicate 16 255) ≡ done (true, replicate 15 0 ++ 1 ∷ [])
unfolding parse_ip6
loopback_bytes = refl

-- A colon at the end is let through: "1:2:3:4:5:6:7:8:".
trailing_colon :
    parse_ip6
      (49 ∷ 58 ∷ 50 ∷ 58 ∷ 51 ∷ 58 ∷ 52 ∷ 58 ∷ 53 ∷ 58 ∷ 54 ∷ 58 ∷ 55 ∷ 58 ∷ 56 ∷ 58 ∷ [])
      (replicate 8 0)
      (replicate 16 0)
    ≡ done (true, 0 ∷ 1 ∷ 0 ∷ 2 ∷ 0 ∷ 3 ∷ 0 ∷ 4 ∷ 0 ∷ 5 ∷ 0 ∷ 6 ∷ 0 ∷ 7 ∷ 0 ∷ 8 ∷ [])
unfolding parse_ip6
trailing_colon = refl

find_bytes_lem_example : FirstIn lsusb (115 ∷ 117 ∷ []) 0 (find_bytes lsusb (115 ∷ 117 ∷ []))
find_bytes_lem_example = find_bytes_lem lsusb (115 ∷ 117 ∷ []) (omega arith)
