-- ===== src/Mm/Heap.antt =====
-- kernel/mm/heap/heap.c: the kernel's heap, a free list that is split, joined and grown.
-- The headers are the list of the blocks in address order: the first block is at offset 0, and each
-- other one `header_size + size` bytes behind the one before it. A header at any other place, and the
-- memory behind the mapped part, are a `fault`. What gives the heap a mapped frame (`alloc_frame`
-- and `map_page`, with `free_frame` if the page is not mapped) is a parameter.
pub mod Live
pub mod Alloc
pub mod Mapping
pub mod Grow
pub mod Outcomes
pub mod Kalloc
pub mod Absorb
pub mod Free
pub mod RoundTrip
use minic_os.Base.{
  ℕ, zero, suc, ◌+◌, ◌-◌, ◌*◌, ◌/◌, ◌%◌, ◌^◌, Bool, true, false, not, ◌&&◌, ◌||◌, List, [], ◌∷◌,
  ◌++◌, Option, none, some, ◌==◌, ltb, leb, if◌then◌else◌,
}
use minic_os.Base.Exec.{Exec, done, fault, ◌>>=◌}

pub record Block : Type 0 where
  pub size : ℕ
  pub free : Bool

-- The variables of the file.
pub record Heap : Type 0 where
  pub blocks : List Block
  pub heap_size : ℕ
  pub heap_cap : ℕ
  pub heap_inited : Bool

abbrev pub heap_base : ℕ
heap_base = 0x50000000

-- `sizeof(block_header)`
abbrev pub header_size : ℕ
header_size = 16

-- A frame for the page at an address; whether there is one.
pub record Pages : Type 1 where
  pub State : Type 0
  pub map_frame : ℕ → State → Bool × State

-- The first three tests of `heap_grow`.
abbrev pub at_least_a_chunk : ℕ → ℕ
at_least_a_chunk min_extra = if ltb min_extra 65536 then 65536 else min_extra

abbrev pub whole_pages : ℕ → ℕ
whole_pages chunk = if chunk % 4096 == 0 then chunk else (chunk + (4096 - chunk % 4096)) % 2 ^ 64

abbrev pub chunk_of : ℕ → Heap → ℕ
chunk_of min_extra h =
    let chunk : ℕ = whole_pages (at_least_a_chunk min_extra) in
    if ltb h.heap_cap ((h.heap_size + chunk) % 2 ^ 64) then h.heap_cap - h.heap_size else chunk

-- The first block that is free and large enough: its offset, and the blocks when it has been taken.
-- It is split only if enough remains for another header and 16 bytes.
abbrev pub split_block : ℕ → Block → List Block → List Block
split_block size b rest =
    if leb ((size + header_size + 16) % 2 ^ 64) b.size
    then record { size = size; free = false }
      ∷ record { size = b.size - size - header_size; free = true }
      ∷ rest
    else record { size = b.size; free = false } ∷ rest

abbrev pub behind : Block → Option (ℕ × List Block) → Option (ℕ × List Block)
behind b none = none
behind b (some (offset, rest)) = some (offset, b ∷ rest)

-- The inner loop of `kalloc`.
unfoldable pub take_fit : ℕ → ℕ → List Block → Option (ℕ × List Block)
take_fit size offset [] = none
take_fit size offset (b ∷ bs) =
    let rest : Option (ℕ × List Block) =
      behind b (take_fit size (offset + header_size + b.size) bs) in
    if b.free && leb size b.size then some (offset, split_block size b bs) else rest

abbrev pub round_up : ℕ → ℕ
round_up size = if size % 16 == 0 then size else (size + (16 - size % 16)) % 2 ^ 64

module _ (pages : Pages) where
  open pages use {State, map_frame}

  -- What comes of `kalloc`.
  pub data Outcome : Type 0 where
    allocated : ℕ → Heap → State → Outcome
    null : Heap → State → Outcome
    page_fault : Outcome
    no_fuel : Outcome

  -- The mapping loop of `heap_grow`, with `left` frames to go.
  unfoldable pub map_loop : ℕ → ℕ → State → Bool × State
  map_loop zero vaddr st = (true, st)
  map_loop (suc left) vaddr st =
      let (ok, st') = map_frame vaddr st in
      let rest : Bool × State = map_loop left (vaddr + 4096) st' in
      if ok then rest else (false, st')

  unfoldable pub heap_grow : ℕ → Heap → State → Bool × Heap × State
  unfolding map_loop
  heap_grow min_extra h st =
      let chunk : ℕ = chunk_of min_extra h in
      let (ok, st') = map_loop ((chunk + 4095) / 4096) (heap_base + h.heap_size) st in
      if ok then (true, record h { heap_size = h.heap_size + chunk }, st') else (false, h, st')

  -- The last lines of `heap_init`: the first header is written, if there is memory for it.
  abbrev pub one_block : Heap → State → Exec (Heap × State)
  one_block h st =
      if leb header_size h.heap_size
      then done (
        record h {
          blocks = record { size = h.heap_size - header_size; free = true } ∷ [];
          heap_inited = true;
        },
        st,
      )
      else fault

  unfoldable pub heap_init : Heap → State → Exec (Heap × State)
  unfolding heap_grow
  heap_init h st =
      if h.heap_size == 0
      then (let (ok, h', st') = heap_grow 65536 (record h { heap_cap = 16777216 }) st in
          one_block h' st')
      else one_block h st

  -- The end of a round of `kalloc`: the new memory becomes a free block, and another round follows.
  abbrev pub grow_and_retry : Heap → (Heap → State → Outcome) → Bool × Heap × State → Outcome
  grow_and_retry h retry (false, h', st) = null h' st
  grow_and_retry h retry (true, h', st) =
      let room : ℕ = h'.heap_size - h.heap_size in
      if ltb room header_size
      then page_fault
      else retry
          (record h' {
            blocks = h.blocks ++ record { size = room - header_size; free = true } ∷ [];
          })
          st

  -- The outer loop of `kalloc`, for a rounded size, with `fuel` rounds at most.
  unfoldable pub kalloc_loop : ℕ → ℕ → Heap → State → Outcome
  unfolding take_fit heap_grow
  kalloc_loop zero size h st = no_fuel
  kalloc_loop (suc fuel) size h st = elim (take_fit size 0 h.blocks) [
    | some (offset, blocks) ↦
        allocated (heap_base + offset + header_size) (record h { blocks = blocks }) st
    | none ↦
        grow_and_retry h (kalloc_loop fuel size) (heap_grow ((size + header_size) % 2 ^ 64) h st)
  ]

  abbrev pub alloc_from : ℕ → ℕ → Exec (Heap × State) → Outcome
  alloc_from fuel size fault = page_fault
  alloc_from fuel size (done (h, st)) = kalloc_loop fuel (round_up size) h st

  unfoldable pub kalloc : ℕ → ℕ → Heap → State → Outcome
  unfolding heap_init kalloc_loop
  kalloc fuel size h st =
      alloc_from fuel size (if h.heap_inited then done (h, st) else heap_init h st)

  unfoldable pub heap_free_loop : ℕ → List Block → ℕ
  heap_free_loop total [] = total
  heap_free_loop total (b ∷ bs) = heap_free_loop (if b.free then total + b.size else total) bs

  unfoldable pub heap_free_bytes : Heap → State → Exec ℕ
  unfolding heap_init heap_free_loop
  heap_free_bytes h st = (if h.heap_inited then done (h, st) else heap_init h st) >>= λ r.
      done (heap_free_loop 0 r.0.blocks)

-- The forward loop of `kfree`: a free block of this size takes in the free blocks behind it.
unfoldable pub absorb : ℕ → List Block → List Block
absorb size [] = record { size = size; free = true } ∷ []
absorb size (b ∷ bs) =
    let rest : List Block = absorb (size + header_size + b.size) bs in
    if b.free then rest else record { size = size; free = true } ∷ b ∷ bs

-- The end of `kfree`: the block before, if it is free, takes in the block that was freed.
abbrev pub join_previous : Block → List Block → List Block
join_previous p [] = p ∷ []
join_previous p (b ∷ rest) =
    if p.free
    then record { size = p.size + header_size + b.size; free = p.free } ∷ rest
    else p ∷ b ∷ rest

abbrev pub keep_block : Block → Exec (List Block) → Exec (List Block)
keep_block b fault = fault
keep_block b (done bs) = done (b ∷ bs)

-- Freeing behind the block `p`, which is at `offset`.
unfoldable pub free_behind : ℕ → ℕ → Block → List Block → Exec (List Block)
unfolding absorb
free_behind target offset p [] = fault
free_behind target offset p (b ∷ bs) =
    let here : Exec (List Block) = done (join_previous p (absorb b.size bs)) in
    let further : Exec (List Block) =
      keep_block p (free_behind target (offset + header_size + p.size) b bs) in
    if offset + header_size + p.size == target then here else further

-- Freeing the block at the offset `target`.
unfoldable pub free_block : ℕ → List Block → Exec (List Block)
unfolding free_behind absorb
free_block target [] = fault
free_block target (b ∷ bs) =
    if target == 0 then done (absorb b.size bs) else free_behind target 0 b bs

unfoldable pub kfree : ℕ → Heap → Exec Heap
unfolding free_block
kfree ptr h =
    let freed : Exec Heap = free_block (ptr - heap_base - header_size) h.blocks >>= λ blocks.
    done (record h { blocks = blocks }) in
    if ptr == 0
    then done h
    else if ltb ptr (heap_base + header_size) || leb (heap_base + h.heap_size) ptr
    then done h
    else freed
