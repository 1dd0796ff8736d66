-- ===== src/Mm/Heap/Grow.antt =====
-- `heap_grow` on a valid heap.
use minic_os.Base.{
  ℕ, ◌+◌, ◌-◌, ◌/◌, ◌%◌, ◌^◌, ◌<◌, ◌≤◌, ◌≡◌, refl, ◌∙◌, true, false, List, [], ◌∷◌, ◌++◌, ltb,
  Bool-cases, ◌⊎◌, inl, inr, arith,
}
use minic_os.Mm.Heap.{
  Block, Heap, Pages, heap_base, header_size, at_least_a_chunk, whole_pages, chunk_of, map_loop,
  heap_grow,
}
use minic_os.Mm.Heap.Mapping.{Mapped, OutOfFrames, map_loop_lem}
use minic_os.Mm.Heap.Live.{extent-append, append-IsAligned, IsValid, NoFit}

whole_pages_lem :
    (n : ℕ)
    → n < 2 ^ 63
    → (whole_pages n % 4096 ≡ 0) × (n ≤ whole_pages n) × (whole_pages n < 2 ^ 63 + 4096)
whole_pages_lem n lt = ground arith

-- The chunk is of whole pages and within the cap; it is what was asked for, or all that the cap leaves.
pub chunk_of_lem :
    (min_extra : ℕ) (h : Heap)
    → IsValid h
    → min_extra < 2 ^ 62
    → (chunk_of min_extra h % 4096 ≡ 0)
      × (h.heap_size + chunk_of min_extra h ≤ h.heap_cap)
      × ((min_extra ≤ chunk_of min_extra h) ⊎ (h.heap_size + chunk_of min_extra h ≡ h.heap_cap))
chunk_of_lem min_extra h v lt =
    let (whole, enough, bound) = whole_pages_lem (at_least_a_chunk min_extra) (ground arith) in
    let more : min_extra ≤ at_least_a_chunk min_extra = ground arith in
    let sum : (h.heap_size + whole_pages (at_least_a_chunk min_extra)) % 2 ^ 64
        ≡ h.heap_size + whole_pages (at_least_a_chunk min_extra) =
      omega (arith, v.cap, v.within) in
    elim (Bool-cases (ltb h.heap_cap (h.heap_size + whole_pages (at_least_a_chunk min_extra)))) [
      | inl cut ↦
          rw (sum, cut)
            (omega (arith, v.cap, v.whole), omega (arith, v.within), inr (omega (arith, v.within)))
      | inr fits ↦ rw (sum, fits) (whole, ground arith, inl (omega arith))
    ]

-- The heap with its new memory as one free block.
abbrev pub extended : Heap → ℕ → Heap
extended h chunk = record h {
  heap_size = h.heap_size + chunk;
  blocks = h.blocks ++ record { size = chunk - header_size; free = true } ∷ [];
}

pub extended-IsValid :
    (h : Heap) (chunk : ℕ)
    → IsValid h
    → chunk % 4096 ≡ 0
    → 0 < chunk
    → h.heap_size + chunk ≤ h.heap_cap
    → IsValid (extended h chunk)
extended-IsValid h chunk v whole some_page fits = record {
  tiled = extent-append h.blocks _ ∙ omega (arith, v.tiled);
  aligned = append-IsAligned h.blocks _ v.aligned (omega arith, tt);
  whole = omega (arith, v.whole);
  cap = v.cap;
  within = fits;
}

pub NoFit-last :
    (size n : ℕ) (xs : List Block)
    → NoFit size (xs ++ record { size = n; free = true } ∷ [])
    → n < size
NoFit-last size n [] (h, r) = h refl
NoFit-last size n (x ∷ xs) (h, r) = NoFit-last size n xs r

module _ (pages : Pages) where
  pub heap_grow-cases :
      (min_extra : ℕ) (h : Heap) (st : pages.State)
      → ((st' : pages.State) × (heap_grow pages min_extra h st ≡ (false, h, st'))
          × OutOfFrames pages (heap_base + h.heap_size) st st')
        ⊎ ((st' : pages.State) × (heap_grow pages min_extra h st
              ≡ (true, record h { heap_size = h.heap_size + chunk_of min_extra h }, st'))
            × Mapped pages ((chunk_of min_extra h + 4095) / 4096) (heap_base + h.heap_size) st st')
  unfolding heap_grow
  heap_grow-cases min_extra h st =
      elim (map_loop_lem pages ((chunk_of min_extra h + 4095) / 4096) (heap_base + h.heap_size)
        st) [
          | inl (st', run, m) ↦ inr (st', rw (run, heap_grow), m)
          | inr (st', run, o) ↦ inl (st', rw (run, heap_grow), o)
        ]

  -- Nothing is mapped for no chunk.
  pub heap_grow-none :
      (min_extra : ℕ) (h : Heap) (st : pages.State)
      → chunk_of min_extra h ≡ 0
      → heap_grow pages min_extra h st ≡ (true, record h { heap_size = h.heap_size + 0 }, st)
  unfolding heap_grow map_loop
  heap_grow-none min_extra h st e = rw e refl
