-- ===== src/Mm/Heap/Alloc.antt =====
-- The search of `kalloc`.
use minic_os.Base.{
  ℕ, ◌+◌, ◌%◌, ◌^◌, ◌<◌, ◌≤◌, ◌≡◌, refl, ap, true, ◌&&◌, List, [], ◌∷◌, Option, none, some, leb,
  Bool-cases, inl, inr, arith,
}
use minic_os.Mm.Heap.{Block, header_size, split_block, behind, take_fit}
use minic_os.Mm.Heap.Live.{extent, live, IsAligned, NoFit, Added, Added-cons}

-- A block of at least `size` bytes is taken, and the others in use stay what they are.
pub record Taken (size offset : ℕ) (bs : List Block) (o : ℕ) (bs' : List Block) : Type 0 where
  pub given : ℕ
  pub enough : size ≤ given
  pub added : Added (live offset bs) (live offset bs') o given
  pub same_extent : extent bs' ≡ extent bs
  pub aligned : IsAligned bs'
  pub on_16 : o % 16 ≡ offset % 16
  pub inside : o + header_size + given ≤ offset + extent bs

pub data Fit (size offset : ℕ) (bs : List Block) : Option (ℕ × List Block) → Type 0 where
  no_fit : NoFit size bs → Fit size offset bs none
  fits :
      (o : ℕ) (bs' : List Block) → Taken size offset bs o bs' → Fit size offset bs (some (o, bs'))

split_block-Taken :
    (size offset : ℕ) (b : Block) (bs : List Block)
    → size % 16 ≡ 0
    → IsAligned (b ∷ bs)
    → extent (b ∷ bs) < 2 ^ 32
    → b.free ≡ true
    → size ≤ b.size
    → Taken size offset (b ∷ bs) offset (split_block size b bs)
split_block-Taken size offset b bs on (h, v) small free le =
    elim (Bool-cases (leb ((size + header_size + 16) % 2 ^ 64) b.size)) [
      | inl split ↦
          let wide : size + header_size + 16 ≤ b.size = ground arith in
          rw split (record {
            given = size;
            enough = omega arith;
            added = record {
              before = [];
              after = live (offset + header_size + b.size) bs;
              split = rw free refl;
              joined = ap (λ k. (offset, size) ∷ live k bs) (omega arith);
            };
            same_extent = omega arith;
            aligned = (on, (omega arith, v));
            on_16 = refl;
            inside = omega arith;
          })
      | inr whole ↦ rw whole (record {
        given = b.size;
        enough = le;
        added = record {
          before = [];
          after = live (offset + header_size + b.size) bs;
          split = rw free refl;
          joined = refl;
        };
        same_extent = refl;
        aligned = (h, v);
        on_16 = refl;
        inside = omega arith;
      })
    ]

behind-Fit :
    (size offset : ℕ) (b : Block) (bs : List Block) {r : Option (ℕ × List Block)}
    → IsAligned (b ∷ bs)
    → (b.free ≡ true → b.size < size)
    → Fit size (offset + header_size + b.size) bs r
    → Fit size offset (b ∷ bs) (behind b r)
behind-Fit size offset b bs v small (no_fit n) = no_fit (small, n)
behind-Fit size offset b bs v small (fits o bs' t) = fits o (b ∷ bs') (record {
  given = t.given;
  enough = t.enough;
  added = kept;
  same_extent = omega (arith, t.same_extent);
  aligned = (v.0, t.aligned);
  on_16 = omega (arith, t.on_16, v.0);
  inside = omega (arith, t.inside);
})
  where
    kept : Added (live offset (b ∷ bs)) (live offset (b ∷ bs')) o t.given
    kept = elim (Bool-cases b.free) [
      | inl free ↦ rw free t.added
      | inr used ↦ rw used (Added-cons (offset, b.size) t.added)
    ]

-- The first free block that is large enough is taken, and none only if there is none.
pub take_fit-Fit :
    (size offset : ℕ) (bs : List Block)
    → size % 16 ≡ 0
    → IsAligned bs
    → extent bs < 2 ^ 32
    → Fit size offset bs (take_fit size offset bs)
unfolding take_fit
take_fit-Fit size offset [] on v small = no_fit tt
take_fit-Fit size offset (b ∷ bs) on v small = elim (Bool-cases (b.free && leb size b.size)) [
  | inl here ↦ rw here (
      fits offset (split_block size b bs)
        (split_block-Taken size offset b bs on v small (ground arith) (ground arith)))
  | inr further ↦ rw further (
      behind-Fit size offset b bs v (λ free. ground arith)
        (take_fit-Fit size (offset + header_size + b.size) bs on v.1 (omega arith)))
]
