-- ===== src/Strings/Search/IgnoreCase.antt =====
-- `streq_ci_n`, and equality up to the case of letters.
use minic_os.Base.{
  ℕ, suc, ◌≡◌, ◌↔◌, refl, ap₂, true, false, List, [], ◌∷◌, ◌==◌, map, Bool-cases, ==_iff, inl, inr,
  arith,
}
use minic_os.Strings.Compare.{IsText}
use minic_os.Strings.Search.{to_lower_ascii, streq_ci_n}

ci_sound :
    (a b : List ℕ) → IsText b → streq_ci_n a b ≡ true → map to_lower_ascii a ≡ map to_lower_ascii b
unfolding streq_ci_n
ci_sound [] [] w h = refl
ci_sound [] (b ∷ bs) w h = absurd (w 0 b refl (ground arith))
ci_sound (a ∷ xs) [] w h = absurd (cc)
ci_sound (a ∷ xs) (b ∷ bs) w h = elim (Bool-cases (b == 0)) [
  | inl ended ↦ absurd (w 0 b refl (ground arith))
  | inr more ↦ elim (Bool-cases (to_lower_ascii a == to_lower_ascii b)) [
    | inl same ↦
        ap₂ (λ x y. x ∷ y) (ground (arith, same))
          (ci_sound xs bs (λ i. w (suc i)) (rw (more, same) at h))
    | inr apart ↦ absurd (ground arith)
  ]
]

ci_complete :
    (a b : List ℕ) → IsText b → map to_lower_ascii a ≡ map to_lower_ascii b → streq_ci_n a b ≡ true
unfolding streq_ci_n
ci_complete [] [] w h = refl
ci_complete [] (b ∷ bs) w h = absurd (cc)
ci_complete (a ∷ xs) [] w h = absurd (cc)
ci_complete (a ∷ xs) (b ∷ bs) w h =
    let more : (b == 0) ≡ false = ground (arith, w 0 b refl) in
    let (here, rest) : (to_lower_ascii a ≡ to_lower_ascii b)
        × (map to_lower_ascii xs ≡ map to_lower_ascii bs) =
      (cc, cc) in
    let same : (to_lower_ascii a == to_lower_ascii b) ≡ true = (==_iff _ _).1 here in
    rw (more, same) (ci_complete xs bs (λ i. w (suc i)) rest)

-- For a string `b` without a 0 inside, streq_ci_n answers true exactly when the two are equal once
-- their capital letters are made small.
pub streq_ci_n_iff :
    (a b : List ℕ)
    → IsText b
    → (streq_ci_n a b ≡ true) ↔ (map to_lower_ascii a ≡ map to_lower_ascii b)
streq_ci_n_iff a b w = (ci_sound a b w, ci_complete a b w)
