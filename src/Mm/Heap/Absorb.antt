-- ===== src/Mm/Heap/Absorb.antt =====
-- The blocks when a freed one takes in its free neighbours.
use minic_os.Base.{
  ℕ, ◌+◌, ◌%◌, ◌<◌, ◌≤◌, ◌≡◌, refl, sym, ap, subst, ◌∙◌, true, false, List, [], ◌∷◌, ◌==◌,
  if◌then◌else◌, Bool-cases, ◌⊎◌, inl, inr, arith,
}
use minic_os.Mm.Heap.{Block, header_size, absorb, join_previous}
use minic_os.Mm.Heap.Live.{extent, live, IsAligned}

-- All blocks but the one at an offset.
abbrev pub without : ℕ → List (ℕ × ℕ) → List (ℕ × ℕ)
without t [] = []
without t ((o, s) ∷ xs) = if o == t then without t xs else (o, s) ∷ without t xs

-- The block at `t` is in use.
abbrev pub Used : ℕ → ℕ → List Block → Type 0
Used t offset [] = ⊥
Used t offset (b ∷ bs) =
    ((offset ≡ t) × (b.free ≡ false)) ⊎ Used t (offset + header_size + b.size) bs

pub Used-ge : (t offset : ℕ) (bs : List Block) → Used t offset bs → offset ≤ t
Used-ge t offset [] u = absurd u
Used-ge t offset (b ∷ bs) (inl (e, used)) = omega arith
Used-ge t offset (b ∷ bs) (inr u) = omega (arith, Used-ge t (offset + header_size + b.size) bs u)

without-live :
    (t offset : ℕ) (bs : List Block) → t < offset → without t (live offset bs) ≡ live offset bs
without-live t offset [] lt = refl
without-live t offset (b ∷ bs) lt =
    ground (arith, without-live t (offset + header_size + b.size) bs)

-- The blocks when the free ones behind a freed block have been taken in.
pub absorb_lem :
    (offset size : ℕ) (bs : List Block)
    → size % 16 ≡ 0
    → IsAligned bs
    → (live offset (absorb size bs) ≡ live (offset + header_size + size) bs)
      × (extent (absorb size bs) ≡ header_size + size + extent bs)
      × IsAligned (absorb size bs)
      × ((m : ℕ) × (rest : List Block) × (absorb size bs ≡ record { size = m; free = true } ∷ rest))
unfolding absorb
absorb_lem offset size [] on v = (refl, refl, (on, tt), (size, [], refl))
absorb_lem offset size (b ∷ bs) on (h, v) = elim (Bool-cases b.free) [
  | inl free ↦
      let (l, e, a, shape) = absorb_lem offset (size + header_size + b.size) bs (omega arith) v in
      rw free (l ∙ ap (λ k. live k bs) (omega arith), omega (arith, e), a, shape)
  | inr used ↦
      let stays : absorb size (b ∷ bs) ≡ record { size = size; free = true } ∷ b ∷ bs =
        ap
          (λ f.
            if f
            then absorb (size + header_size + b.size) bs
            else record { size = size; free = true } ∷ b ∷ bs)
          used in
      subst
        (λ xs.
          (live offset xs ≡ live (offset + header_size + size) (b ∷ bs))
          × (extent xs ≡ header_size + size + extent (b ∷ bs))
          × IsAligned xs
          × ((m : ℕ) × (rest : List Block) × (xs ≡ record { size = m; free = true } ∷ rest)))
        (sym stays) (refl, refl, (on, (h, v)), (size, b ∷ bs, refl))
]

-- A block that is not the one at `t`, before others.
pub without-cons :
    (t offset : ℕ) (p : Block) (xs ys : List Block)
    → offset < t
    → live (offset + header_size + p.size) xs ≡ without t (live (offset + header_size + p.size) ys)
    → live offset (p ∷ xs) ≡ without t (live offset (p ∷ ys))
without-cons t offset p xs ys lt e = ground (arith, e)

-- The block at `t`, before others.
pub without-here :
    (offset : ℕ) (b : Block) (bs : List Block)
    → b.free ≡ false
    → without offset (live offset (b ∷ bs)) ≡ live (offset + header_size + b.size) bs
without-here offset b bs used =
    ground (arith, without-live offset (offset + header_size + b.size) bs)

pub join_previous_lem :
    (offset m : ℕ) (p : Block) (rest xs : List Block)
    → xs ≡ record { size = m; free = true } ∷ rest
    → IsAligned (p ∷ xs)
    → (live offset (join_previous p xs) ≡ live offset (p ∷ xs))
      × (extent (join_previous p xs) ≡ extent (p ∷ xs))
      × IsAligned (join_previous p xs)
join_previous_lem offset m p rest xs e v =
    subst
      (λ ys.
        IsAligned (p ∷ ys)
        → (live offset (join_previous p ys) ≡ live offset (p ∷ ys))
          × (extent (join_previous p ys) ≡ extent (p ∷ ys))
          × IsAligned (join_previous p ys))
      (sym e) joined v
  where
    joined :
        IsAligned (p ∷ record { size = m; free = true } ∷ rest)
        → (live offset (join_previous p (record { size = m; free = true } ∷ rest))
            ≡ live offset (p ∷ record { size = m; free = true } ∷ rest))
          × (extent (join_previous p (record { size = m; free = true } ∷ rest))
              ≡ extent (p ∷ record { size = m; free = true } ∷ rest))
          × IsAligned (join_previous p (record { size = m; free = true } ∷ rest))
    joined (a, (b, c)) = elim (Bool-cases p.free) [
      | inl free ↦ rw free (ap (λ k. live k rest) (omega arith), omega arith, (omega arith, c))
      | inr used ↦ rw used (refl, refl, (a, (b, c)))
    ]
