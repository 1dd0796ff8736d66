-- ===== src/Mm/Heap/Live.antt =====
-- The allocated blocks of a heap, and well-formed heaps.
use minic_os.Base.{
  ℕ, ◌+◌, ◌%◌, ◌<◌, ◌≤◌, ◌≡◌, refl, ap, true, List, [], ◌∷◌, ◌++◌, if◌then◌else◌, arith,
}
use minic_os.Mm.Heap.{Block, Heap, header_size}

-- The bytes that the blocks take, with their headers.
abbrev pub extent : List Block → ℕ
extent [] = 0
extent (b ∷ bs) = header_size + b.size + extent bs

-- The offsets and sizes of the blocks that are in use, where the first block is at `offset`.
abbrev pub live : ℕ → List Block → List (ℕ × ℕ)
live offset [] = []
live offset (b ∷ bs) =
    if b.free
    then live (offset + header_size + b.size) bs
    else (offset, b.size) ∷ live (offset + header_size + b.size) bs

-- Every block starts at a multiple of 16.
abbrev pub IsAligned : List Block → Type 0
IsAligned [] = Unit
IsAligned (b ∷ bs) = (b.size % 16 ≡ 0) × IsAligned bs

-- The blocks tile the mapped part, which is of whole pages and within the cap of 16 MB.
pub record IsValid (h : Heap) : Type 0 where
  pub tiled : extent h.blocks ≡ h.heap_size
  pub aligned : IsAligned h.blocks
  pub whole : h.heap_size % 4096 ≡ 0
  pub cap : h.heap_cap ≡ 16777216
  pub within : h.heap_size ≤ h.heap_cap

-- No free block holds `size` bytes.
abbrev pub NoFit : ℕ → List Block → Type 0
NoFit size [] = Unit
NoFit size (b ∷ bs) = (b.free ≡ true → b.size < size) × NoFit size bs

pub extent-append : (xs ys : List Block) → extent (xs ++ ys) ≡ extent xs + extent ys
extent-append [] ys = omega arith
extent-append (x ∷ xs) ys = omega (arith, extent-append xs ys)

pub append-IsAligned : (xs ys : List Block) → IsAligned xs → IsAligned ys → IsAligned (xs ++ ys)
append-IsAligned [] ys v w = w
append-IsAligned (x ∷ xs) ys (h, v) w = (h, append-IsAligned xs ys v w)

-- A free block at the end is not in use.
pub live-append_free :
    (offset n : ℕ) (xs : List Block)
    → live offset (xs ++ record { size = n; free = true } ∷ []) ≡ live offset xs
live-append_free offset n [] = refl
live-append_free offset n (x ∷ xs) =
    ground (arith, live-append_free (offset + header_size + x.size) n xs)

-- One more block in use.
pub record Added (old new : List (ℕ × ℕ)) (offset size : ℕ) : Type 0 where
  pub before : List (ℕ × ℕ)
  pub after : List (ℕ × ℕ)
  pub split : old ≡ before ++ after
  pub joined : new ≡ before ++ (offset, size) ∷ after

pub Added-cons :
    (x : ℕ × ℕ) {old new : List (ℕ × ℕ)} {offset size : ℕ}
    → Added old new offset size
    → Added (x ∷ old) (x ∷ new) offset size
Added-cons x a = record {
  before = x ∷ a.before;
  after = a.after;
  split = ap (λ xs. x ∷ xs) a.split;
  joined = ap (λ xs. x ∷ xs) a.joined;
}
