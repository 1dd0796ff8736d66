-- ===== src/Strings/Search.antt =====
-- kernel/lib/strings.c: searching bytes, comparing without regard to case, and joining paths.
-- The buffers with a length are lists of that length.
pub mod Find
pub mod IgnoreCase
use minic_os.Base.{
  ℕ, zero, suc, ◌+◌, ◌-◌, Bool, true, false, ◌&&◌, ◌||◌, List, [], ◌∷◌, ◌++◌, ◌==◌, ltb, leb,
  if◌then◌else◌, length,
}
use minic_os.Base.Int.{ℤ, pos, negsuc}

abbrev pub strlen_ : List ℕ → ℕ
strlen_ s = length s

abbrev pub join_path : List ℕ → List ℕ → List ℕ
join_path base name = base ++ b'/' ∷ name

-- Whether the inner loop of `find_bytes` comes to the end of the needle.
unfoldable pub matches : List ℕ → List ℕ → Bool
matches haystack [] = true
matches [] (n ∷ needle) = false
matches (h ∷ haystack) (n ∷ needle) =
    let rest : Bool = matches haystack needle in if h == n then rest else false

-- The outer loop, with `left` rounds to go; the haystack from `i` on.
unfoldable pub find_loop : ℕ → ℕ → List ℕ → List ℕ → ℤ
unfolding matches
find_loop zero i haystack needle = negsuc 0
find_loop (suc left) i [] needle = if matches [] needle then pos i else negsuc 0
find_loop (suc left) i (h ∷ haystack) needle =
    let rest : ℤ = find_loop left (i + 1) haystack needle in
    if matches (h ∷ haystack) needle then pos i else rest

unfoldable pub find_bytes : List ℕ → List ℕ → ℤ
unfolding find_loop
find_bytes haystack needle =
    let needle_len : ℕ = strlen_ needle in
    if needle_len == 0 || ltb (length haystack) needle_len
    then negsuc 0
    else find_loop (length haystack - needle_len + 1) 0 haystack needle

abbrev pub to_lower_ascii : ℕ → ℕ
to_lower_ascii c = if leb b'A' c && leb c b'Z' then c - b'A' + b'a' else c

-- `len` is the length of the first list.
unfoldable pub streq_ci_n : List ℕ → List ℕ → Bool
streq_ci_n [] [] = true
streq_ci_n [] (b ∷ bs) = b == 0
streq_ci_n (a ∷ xs) [] = false
streq_ci_n (a ∷ xs) (b ∷ bs) =
    let rest : Bool = streq_ci_n xs bs in
    if b == 0 then false else if to_lower_ascii a == to_lower_ascii b then rest else false
