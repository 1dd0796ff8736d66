-- ===== src/Strings/Search/Find.antt =====
-- `find_bytes`, and the first occurrence.
use minic_os.Base.{
  ℕ, zero, suc, ◌+◌, ◌-◌, ◌<◌, ◌≤◌, ◌≡◌, ◌≢◌, refl, ap, ap₂, subst, true, false, ◌||◌, List, [],
  ◌∷◌, ◌++◌, ◌==◌, ltb, length, length-append, Bool-cases, inl, inr, arith,
}
use minic_os.Base.Int.{ℤ, pos, negsuc}
use minic_os.Strings.Search.{matches, find_loop, find_bytes}

matches_sound : (h n : List ℕ) → matches h n ≡ true → (rest : List ℕ) × (h ≡ n ++ rest)
unfolding matches
matches_sound h [] m = (h, refl)
matches_sound [] (n ∷ ns) m = absurd (cc)
matches_sound (h ∷ hs) (n ∷ ns) m = elim (Bool-cases (h == n)) [
  | inl same ↦
      let (rest, e) = matches_sound hs ns (rw same at m) in
      (rest, ap₂ (λ x y. x ∷ y) (ground (arith, same)) e)
  | inr apart ↦ absurd (ground arith)
]

matches_complete : (n rest : List ℕ) → matches (n ++ rest) n ≡ true
unfolding matches
matches_complete [] rest = refl
matches_complete (n ∷ ns) rest =
    let here : (n == n) ≡ true = ground arith in rw here (matches_complete ns rest)

-- The answer of a search, where the haystack's first entry has the index `i`.
pub data FirstIn (haystack needle : List ℕ) (i : ℕ) : ℤ → Type 0 where
  found_at :
      (before after : List ℕ)
      → haystack ≡ before ++ needle ++ after
      → ((b a : List ℕ) → haystack ≡ b ++ needle ++ a → length before ≤ length b)
      → FirstIn haystack needle i (pos (i + length before))
  nowhere : ((b a : List ℕ) → haystack ≢ b ++ needle ++ a) → FirstIn haystack needle i (negsuc 0)

-- An occurrence behind a first entry at which there is none.
shifted :
    (h : ℕ) (haystack needle b a : List ℕ)
    → matches (h ∷ haystack) needle ≡ false
    → h ∷ haystack ≡ b ++ needle ++ a
    → (b' : List ℕ) × (haystack ≡ b' ++ needle ++ a) × (length b ≡ suc (length b'))
shifted h haystack needle [] a apart e =
    absurd (ground (arith, matches_complete needle a, ap (λ x. matches x needle) e))
shifted h haystack needle (x ∷ b) a apart e = (b, cc, refl)

FirstIn-cons :
    (h : ℕ) (haystack needle : List ℕ) (i : ℕ) (z : ℤ)
    → matches (h ∷ haystack) needle ≡ false
    → FirstIn haystack needle (i + 1) z
    → FirstIn (h ∷ haystack) needle i z
FirstIn-cons h haystack needle i z apart (found_at before after e least) =
    let sum : i + suc (length before) ≡ i + 1 + length before = omega arith in
    subst (λ k. FirstIn (h ∷ haystack) needle i (pos k)) sum
      (found_at (h ∷ before) after (ap (λ x. h ∷ x) e) (λ b a e'.
        let (b', rest, size) = shifted h haystack needle b a apart e' in
        omega (arith, size, least b' a rest)))
FirstIn-cons h haystack needle i z apart (nowhere never) =
    nowhere
      (λ b a e'. let (b', rest, size) = shifted h haystack needle b a apart e' in never b' a rest)

too_short :
    (haystack needle : List ℕ)
    → length haystack < length needle
    → (b a : List ℕ) → haystack ≢ b ++ needle ++ a
too_short haystack needle lt b a e =
    absurd (omega (arith, ap length e, length-append (b ++ needle) a, length-append b needle))

find_loop_lem :
    (left i : ℕ) (haystack needle : List ℕ)
    → 0 < length needle
    → left + length needle ≡ length haystack + 1
    → FirstIn haystack needle i (find_loop left i haystack needle)
unfolding find_loop
find_loop_lem zero i haystack needle some_byte e = nowhere (too_short haystack needle (omega arith))
find_loop_lem (suc left) i [] needle some_byte e = absurd (omega arith)
find_loop_lem (suc left) i (h ∷ haystack) needle some_byte e =
    elim (Bool-cases (matches (h ∷ haystack) needle)) [
      | inl here ↦
          let (after, split) = matches_sound (h ∷ haystack) needle here in
          let zero_more : i + 0 ≡ i = omega arith in
          rw here (
            subst (λ k. FirstIn (h ∷ haystack) needle i (pos k)) zero_more
              (found_at [] after split (λ b a e'. omega arith)))
      | inr apart ↦ rw apart (
          FirstIn-cons h haystack needle i _ apart
            (find_loop_lem left (i + 1) haystack needle some_byte (omega arith)))
    ]

-- For a needle that is not empty, find_bytes gives the place of the first occurrence in the haystack,
-- or -1 if there is none.
pub find_bytes_lem :
    (haystack needle : List ℕ)
    → 0 < length needle
    → FirstIn haystack needle 0 (find_bytes haystack needle)
unfolding find_bytes
find_bytes_lem haystack needle some_byte =
    elim (Bool-cases (length needle == 0 || ltb (length haystack) (length needle))) [
      | inl short ↦ rw short (nowhere (too_short haystack needle (ground arith)))
      | inr fits ↦ rw fits (
          find_loop_lem (length haystack - length needle + 1) 0 haystack needle some_byte
            (ground arith))
    ]
