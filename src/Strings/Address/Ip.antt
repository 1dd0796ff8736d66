-- ===== src/Strings/Address/Ip.antt =====
-- `parse_ip`, and dotted decimal notation.
use mathlib.Core.List.{append-nil}
use minic_os.Base.{
  ℕ, ◌+◌, ◌-◌, ◌*◌, ◌/◌, ◌%◌, ◌^◌, ◌<◌, ◌≡◌, refl, sym, ap, ap₂, ◌∙◌, true, false, ◌||◌, List, [],
  ◌∷◌, ◌++◌, ◌==◌, ltb, leb, if◌then◌else◌, set, Bool-cases, inl, inr, arith,
}
use minic_os.Strings.Address.{is_digit, ip_loop, parse_ip}

-- A byte in decimal.
abbrev pub octet_text : ℕ → List ℕ
octet_text v =
    if ltb v 10
    then (48 + v) ∷ []
    else if ltb v 100
    then (48 + v / 10) ∷ (48 + v % 10) ∷ []
    else (48 + v / 100) ∷ (48 + v / 10 % 10) ∷ (48 + v % 10) ∷ []

abbrev pub dotted : ℕ → ℕ → ℕ → ℕ → List ℕ
dotted a b c d =
    octet_text a ++ b'.' ∷ (octet_text b ++ b'.' ∷ (octet_text c ++ b'.' ∷ octet_text d))

digit_step :
    (octet value digits d : ℕ) (s out : List ℕ)
    → d < 10
    → digits < 3
    → value * 10 + d < 256
    → ip_loop octet value digits ((48 + d) ∷ s) out
      ≡ ip_loop octet (value * 10 + d) (digits + 1) s out
unfolding ip_loop
digit_step octet value digits d s out small few fits =
    let shown : is_digit (48 + d) ≡ true = ground arith in
    let read : 48 + d - 48 ≡ d = omega arith in
    let in_range : (ltb 3 (digits + 1) || ltb 255 (value * 10 + d)) ≡ false = ground arith in
    rw (shown, read, in_range) refl

-- The digits of a byte are read as the byte.
octet_lem :
    (octet v : ℕ) (s out : List ℕ)
    → v < 256
    → (n : ℕ) × (0 < n) × (ip_loop octet 0 0 (octet_text v ++ s) out ≡ ip_loop octet v n s out)
octet_lem octet v s out lt = elim (Bool-cases (ltb v 10)) [
  | inl one ↦ (
    1,
    omega arith,
    rw one (
        digit_step octet 0 0 v s out (ground arith) (omega arith) (ground arith)
        ∙ ap₂ (λ x y. ip_loop octet x y s out) (omega arith) refl),
  )
  | inr more ↦ elim (Bool-cases (ltb v 100)) [
    | inl two ↦ (
      2,
      omega arith,
      rw (more, two)
          (digit_step octet 0 0 (v / 10) ((48 + v % 10) ∷ s) out (ground arith) (omega arith)
              (ground arith)
            ∙ digit_step octet (0 * 10 + v / 10) 1 (v % 10) s out (omega arith) (omega arith)
                (ground arith)
            ∙ ap₂ (λ x y. ip_loop octet x y s out) (omega arith) refl),
    )
    | inr three ↦ (
      3,
      omega arith,
      rw (more, three)
          (digit_step octet 0 0 (v / 100) ((48 + v / 10 % 10) ∷ (48 + v % 10) ∷ s) out
              (ground arith) (omega arith) (ground arith)
            ∙ digit_step octet (0 * 10 + v / 100) 1 (v / 10 % 10) ((48 + v % 10) ∷ s) out
                (omega arith) (omega arith) (ground arith)
            ∙ digit_step octet ((0 * 10 + v / 100) * 10 + v / 10 % 10) 2 (v % 10) s out
                (omega arith) (omega arith) (ground arith)
            ∙ ap₂ (λ x y. ip_loop octet x y s out) (omega arith) refl),
    )
  ]
]

dot_step :
    (octet v n : ℕ) (s out : List ℕ)
    → v < 256
    → 0 < n
    → octet < 4
    → ip_loop octet v n (b'.' ∷ s) out ≡ ip_loop (octet + 1) 0 0 s (set out octet v)
unfolding ip_loop
dot_step octet v n s out lt some_digit room =
    let whole : v % 2 ^ 8 ≡ v = omega arith in
    let go_on : (n == 0 || leb 4 octet) ≡ false = ground arith in rw (go_on, whole) refl

last_step :
    (octet v n : ℕ) (out : List ℕ)
    → v < 256
    → 0 < n
    → octet < 4
    → ip_loop octet v n [] out ≡ (octet + 1 == 4, set out octet v)
unfolding ip_loop
last_step octet v n out lt some_digit room =
    let whole : v % 2 ^ 8 ≡ v = omega arith in
    let go_on : (n == 0 || leb 4 octet) ≡ false = ground arith in rw (go_on, whole) refl

octet_dot :
    (octet v : ℕ) (s out : List ℕ)
    → v < 256
    → octet < 4
    → ip_loop octet 0 0 (octet_text v ++ b'.' ∷ s) out ≡ ip_loop (octet + 1) 0 0 s (set out octet v)
octet_dot octet v s out lt room =
    let (n, some_digit, e) = octet_lem octet v (b'.' ∷ s) out lt in
    e ∙ dot_step octet v n s out lt some_digit room

octet_end :
    (octet v : ℕ) (out : List ℕ)
    → v < 256
    → octet < 4
    → ip_loop octet 0 0 (octet_text v) out ≡ (octet + 1 == 4, set out octet v)
octet_end octet v out lt room =
    let (n, some_digit, e) = octet_lem octet v [] out lt in
    ap (λ s. ip_loop octet 0 0 s out) (sym (append-nil (octet_text v)))
    ∙ e
    ∙ last_step octet v n out lt some_digit room

-- Four bytes in dotted decimal notation are read back into the caller's four bytes.
pub parse_ip-dotted :
    (a b c d w x y z : ℕ)
    → a < 256
    → b < 256
    → c < 256
    → d < 256
    → parse_ip (dotted a b c d) (w ∷ x ∷ y ∷ z ∷ []) ≡ (true, a ∷ b ∷ c ∷ d ∷ [])
unfolding parse_ip
parse_ip-dotted a b c d w x y z la lb lc ld =
    octet_dot 0 a (octet_text b ++ b'.' ∷ (octet_text c ++ b'.' ∷ octet_text d))
      (w ∷ x ∷ y ∷ z ∷ []) la (omega arith)
    ∙ octet_dot 1 b (octet_text c ++ b'.' ∷ octet_text d) (a ∷ x ∷ y ∷ z ∷ []) lb (omega arith)
    ∙ octet_dot 2 c (octet_text d) (a ∷ b ∷ y ∷ z ∷ []) lc (omega arith)
    ∙ octet_end 3 d (a ∷ b ∷ c ∷ z ∷ []) ld (omega arith)
