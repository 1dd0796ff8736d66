-- ===== src/Mm/Heap/Kalloc.antt =====
-- `kalloc` on a valid heap.
use minic_os.Base.{
  ℕ, zero, suc, ◌+◌, ◌*◌, ◌-◌, ◌/◌, ◌%◌, ◌^◌, ◌<◌, ◌≤◌, ◌≡◌, refl, sym, ap, subst, ◌∙◌, true, List,
  Option, none, some, ltb, if◌then◌else◌, Bool-cases, ◌⊎◌, inl, inr, arith,
}
use minic_os.Base.Exec.{done}
use minic_os.Mm.Heap.{
  Block, Heap, Pages, page_fault, heap_base, header_size, take_fit, round_up, chunk_of, heap_grow,
  grow_and_retry, kalloc_loop, alloc_from, heap_init, kalloc,
}
use minic_os.Mm.Heap.Live.{live, live-append_free, IsValid, NoFit}
use minic_os.Mm.Heap.Alloc.{Fit, Taken, no_fit, fits, take_fit-Fit}
use minic_os.Mm.Heap.Grow.{
  chunk_of_lem, extended, extended-IsValid, NoFit-last, heap_grow-cases, heap_grow-none,
}
use minic_os.Mm.Heap.Outcomes.{
  Grown, as_it_was, by_pages, Result, given_block, no_frames, past_cap, found-Given,
  Given-same_live,
}
use minic_os.Mm.Heap.Mapping.{Mapped}

module _ (pages : Pages) (size : ℕ) (on : size % 16 ≡ 0) (small : size < 2 ^ 61) where
  extra : (size + header_size) % 2 ^ 64 ≡ size + header_size
  extra = omega arith

  no_block :
      (fuel : ℕ) (h : Heap) (st : pages.State)
      → take_fit size 0 h.blocks ≡ none
      → kalloc_loop pages (suc fuel) size h st
        ≡ grow_and_retry pages h
            (kalloc_loop pages fuel size)
            (heap_grow pages (size + header_size) h st)
  unfolding kalloc_loop
  no_block fuel h st e =
      rw (e, kalloc_loop)
        (ap (λ n. grow_and_retry pages h (kalloc_loop pages fuel size) (heap_grow pages n h st))
          extra)

  -- The heap `h2` that `h` has grown to, with the state of the pages.
  module _ (h h2 : Heap) (st st2 : pages.State) (grown : Grown pages h st h2 st2)
      (same : live 0 h2.blocks ≡ live 0 h.blocks) (none_before : NoFit size h.blocks)
      (v : IsValid h2) where
    taken :
        (fuel o : ℕ) (bs : List Block)
        → take_fit size 0 h2.blocks ≡ some (o, bs)
        → Taken size 0 h2.blocks o bs
        → Result pages h st size (kalloc_loop pages (suc fuel) size h2 st2)
    unfolding kalloc_loop
    taken fuel o bs e t =
        rw (e, kalloc_loop)
          (given_block _ _ st2 (Given-same_live size _ h h2 _ same (found-Given size o bs h2 v t)))

    -- A round on a heap that cannot grow any more.
    full_round :
        (fuel : ℕ)
        → h2.heap_size ≡ h2.heap_cap
        → Result pages h st size (kalloc_loop pages (suc fuel) size h2 st2)
    full_round fuel full =
        go (take_fit size 0 h2.blocks) refl
          (take_fit-Fit size 0 h2.blocks on v.aligned (omega (arith, v.tiled, v.within, v.cap)))
      where
        go :
            (r : Option (ℕ × List Block))
            → take_fit size 0 h2.blocks ≡ r
            → Fit size 0 h2.blocks r
            → Result pages h st size (kalloc_loop pages (suc fuel) size h2 st2)
        go r e (fits o bs t) = taken fuel o bs e t
        go r e (no_fit n) =
            let (w, within, c) = chunk_of_lem (size + header_size) h2 v (omega arith) in
            let nothing : chunk_of (size + header_size) h2 ≡ 0 = omega arith in
            let step = heap_grow-none pages (size + header_size) h2 st2 nothing in
            let room : ltb (h2.heap_size + 0 - h2.heap_size) header_size ≡ true = ground arith in
            subst (Result pages h st size)
              (sym (
                no_block fuel h2 st2 e
                ∙ ap (grow_and_retry pages h2 (kalloc_loop pages fuel size)) step))
              (rw room (past_cap h2 st2 grown none_before n full))

    -- A round on a heap with a block that is large enough.
    fitting_round :
        (fuel : ℕ)
        → ¬ NoFit size h2.blocks
        → Result pages h st size (kalloc_loop pages (suc fuel) size h2 st2)
    fitting_round fuel some_fit =
        go (take_fit size 0 h2.blocks) refl
          (take_fit-Fit size 0 h2.blocks on v.aligned (omega (arith, v.tiled, v.within, v.cap)))
      where
        go :
            (r : Option (ℕ × List Block))
            → take_fit size 0 h2.blocks ≡ r
            → Fit size 0 h2.blocks r
            → Result pages h st size (kalloc_loop pages (suc fuel) size h2 st2)
        go r e (fits o bs t) = taken fuel o bs e t
        go r e (no_fit n) = absurd (some_fit n)

  -- The round after the heap has grown by `chunk`, or the header behind the mapped part.
  after_growth :
      (fuel chunk : ℕ) (h : Heap) (st st' : pages.State)
      → IsValid h
      → NoFit size h.blocks
      → chunk % 4096 ≡ 0
      → h.heap_size + chunk ≤ h.heap_cap
      → (size + header_size ≤ chunk) ⊎ (h.heap_size + chunk ≡ h.heap_cap)
      → Mapped pages ((chunk + 4095) / 4096) (heap_base + h.heap_size) st st'
      → Result pages h st size (
          if ltb chunk header_size
          then page_fault
          else kalloc_loop pages (suc fuel) size (extended h chunk) st')
  after_growth fuel chunk h st st' v n whole within enough m =
      elim (Bool-cases (ltb chunk header_size)) [
        | inl nothing ↦
            let full : h.heap_size ≡ h.heap_cap = elim enough [
              | inl le ↦ absurd (ground arith)
              | inr full ↦ ground arith
            ] in
            rw nothing (past_cap h st as_it_was n n full)
        | inr some_chunk ↦
            let w : IsValid (extended h chunk) =
              extended-IsValid h chunk v whole (ground arith) within in
            let pages_are : (chunk + 4095) / 4096 * 4096 ≡ chunk = omega arith in
            let g : Grown pages h st (extended h chunk) st' =
              subst (λ c. Grown pages h st (extended h c) st') pages_are (by_pages _ st' m) in
            let same = live-append_free 0 (chunk - header_size) h.blocks in
            rw some_chunk (elim enough [
              | inl le ↦
                  fitting_round h (extended h chunk) st st' g same n w fuel
                    (λ none'. omega (arith, NoFit-last size (chunk - header_size) h.blocks none'))
              | inr full ↦ full_round h (extended h chunk) st st' g same n w fuel full
            ])
      ]

  first_round :
      (fuel : ℕ) (h : Heap) (st : pages.State)
      → IsValid h
      → Result pages h st size (kalloc_loop pages (suc (suc fuel)) size h st)
  unfolding kalloc_loop
  first_round fuel h st v =
      go (take_fit size 0 h.blocks) refl
        (take_fit-Fit size 0 h.blocks on v.aligned (omega (arith, v.tiled, v.within, v.cap)))
    where
      go :
          (r : Option (ℕ × List Block))
          → take_fit size 0 h.blocks ≡ r
          → Fit size 0 h.blocks r
          → Result pages h st size (kalloc_loop pages (suc (suc fuel)) size h st)
      go r e (fits o bs t) = rw (e, kalloc_loop) (given_block _ _ st (found-Given size o bs h v t))
      go r e (no_fit n) =
          let (w, within, c) = chunk_of_lem (size + header_size) h v (omega arith) in
          let chunk : ℕ = chunk_of (size + header_size) h in
          let room : h.heap_size + chunk - h.heap_size ≡ chunk = omega arith in
          elim (heap_grow-cases pages (size + header_size) h st) [
            | inl (st', failed, out) ↦
                subst (Result pages h st size)
                  (sym (
                    no_block (suc fuel) h st e
                    ∙ ap (grow_and_retry pages h (kalloc_loop pages (suc fuel) size)) failed))
                  (no_frames st' n out)
            | inr (st', grown, m) ↦
                subst (Result pages h st size)
                  (sym (
                    no_block (suc fuel) h st e
                    ∙ ap (grow_and_retry pages h (kalloc_loop pages (suc fuel) size)) grown))
                  (rw room (after_growth fuel chunk h st st' v n w within c m))
          ]

-- With fuel for two rounds, a request of less than 2^60 bytes to a valid heap that is initialised
-- ends. Either a block is given that is as large as the request, its pointer a multiple of 16 and its
-- memory in the mapped part, and the blocks in use are those from before and this one. Or no free block
-- is large enough and a page that the heap would have grown by could not be mapped, and then the answer
-- is NULL and the heap is as it was. Or no free block is large enough, not even in the heap at its cap,
-- which is the heap from before or this heap grown by pages that were all mapped, and a header is
-- written behind the mapped part.
pub kalloc_lem :
    (pages : Pages) (fuel size : ℕ) (h : Heap) (st : pages.State)
    → IsValid h
    → h.heap_inited ≡ true
    → size < 2 ^ 60
    → 2 ≤ fuel
    → Result pages h st (round_up size) (kalloc pages fuel size h st)
unfolding kalloc
kalloc_lem pages zero size h st v i small le = absurd (omega arith)
kalloc_lem pages (suc zero) size h st v i small le = absurd (omega arith)
kalloc_lem pages (suc (suc fuel)) size h st v i small le =
    subst (λ r. Result pages h st (round_up size) (alloc_from pages (suc (suc fuel)) size r))
      (sym (ap (λ b. if b then done (h, st) else heap_init pages h st) i))
      (first_round pages (round_up size) (ground arith) (ground arith) fuel h st v)
