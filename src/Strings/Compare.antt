-- ===== src/Strings/Compare.antt =====
-- `streq` and `starts_with` as equality and as having a prefix.
use minic_os.Base.{
  ℕ, suc, ◌≡◌, ◌≢◌, ◌↔◌, refl, sym, ap, ap₂, ◌∙◌, true, some, List, [], ◌∷◌, ◌++◌, ◌==◌, get_elem?,
  take, length, ◌≤◌, zero, Bool-cases, inl, inr, arith,
}
use minic_os.Strings.{streq, starts_with}

-- No character of a string is 0.
abbrev pub IsText : List ℕ → Type 0
IsText s = (i c : ℕ) → get_elem? s i ≡ some c → c ≢ 0

tail-IsText : (c : ℕ) (s : List ℕ) → IsText (c ∷ s) → IsText s
tail-IsText c s v i d at = v (suc i) d at

pub take-IsText : (n : ℕ) (s : List ℕ) → IsText s → IsText (take n s)
take-IsText zero s v i c at = absurd (cc)
take-IsText (suc n) [] v i c at = absurd (cc)
take-IsText (suc n) (x ∷ s) v zero c at = v 0 c at
take-IsText (suc n) (x ∷ s) v (suc i) c at = take-IsText n s (λ j. v (suc j)) i c at

pub take_all : (n : ℕ) (xs : List ℕ) → length xs ≤ n → take n xs ≡ xs
take_all zero [] h = refl
take_all zero (x ∷ xs) h = absurd (omega arith)
take_all (suc n) [] h = refl
take_all (suc n) (x ∷ xs) h = ap (λ ys. x ∷ ys) (take_all n xs (omega arith))

streq_sound : (a b : List ℕ) → IsText a → IsText b → streq a b ≡ true → a ≡ b
unfolding streq
streq_sound [] [] v w h = refl
streq_sound [] (b ∷ bs) v w h = absurd (w 0 b refl (ground arith))
streq_sound (a ∷ xs) [] v w h = absurd (v 0 a refl (ground arith))
streq_sound (a ∷ xs) (b ∷ bs) v w h = elim (Bool-cases (a == b)) [
  | inl same ↦
      let here : a ≡ b = ground arith in
      ap₂ (λ x y. x ∷ y) here
        (streq_sound xs bs (tail-IsText a xs v) (tail-IsText b bs w) (rw same at h))
  | inr apart ↦ absurd (ground arith)
]

streq_self : (a : List ℕ) → streq a a ≡ true
unfolding streq
streq_self [] = refl
streq_self (a ∷ xs) = let here : (a == a) ≡ true = ground arith in rw here (streq_self xs)

-- On strings without a 0 inside, `streq` answers true exactly when they are equal.
pub streq_iff : (a b : List ℕ) → IsText a → IsText b → (streq a b ≡ true) ↔ (a ≡ b)
streq_iff a b v w = (streq_sound a b v w, λ e. ap (streq a) (sym e) ∙ streq_self a)

prefix_sound :
    (s p : List ℕ) → IsText p → starts_with s p ≡ true → (rest : List ℕ) × (s ≡ p ++ rest)
unfolding starts_with
prefix_sound s [] w h = (s, refl)
prefix_sound [] (p ∷ ps) w h = elim (Bool-cases (0 == p)) [
  | inl same ↦ absurd (w 0 p refl (ground arith))
  | inr apart ↦ absurd (ground arith)
]
prefix_sound (c ∷ cs) (p ∷ ps) w h = elim (Bool-cases (c == p)) [
  | inl same ↦
      let here : c ≡ p = ground arith in
      let (rest, e) = prefix_sound cs ps (tail-IsText p ps w) (rw same at h) in
      (rest, ap₂ (λ x y. x ∷ y) here e)
  | inr apart ↦ absurd (ground arith)
]

prefix-starts : (p rest : List ℕ) → starts_with (p ++ rest) p ≡ true
unfolding starts_with
prefix-starts [] rest = refl
prefix-starts (p ∷ ps) rest =
    let here : (p == p) ≡ true = ground arith in rw here (prefix-starts ps rest)

-- For a prefix without a 0 inside, `starts_with` answers true exactly when the string is the prefix and
-- something behind it.
pub starts_with_iff :
    (s p : List ℕ) → IsText p → (starts_with s p ≡ true) ↔ ((rest : List ℕ) × (s ≡ p ++ rest))
starts_with_iff s p w =
    (prefix_sound s p w, λ (rest, e). ap (λ t. starts_with t p) e ∙ prefix-starts p rest)
