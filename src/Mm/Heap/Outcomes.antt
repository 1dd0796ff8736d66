-- ===== src/Mm/Heap/Outcomes.antt =====
-- The outcomes of `kalloc`.
use minic_os.Base.{ℕ, ◌+◌, ◌*◌, ◌%◌, ◌≤◌, ◌≡◌, refl, sym, ◌∙◌, List, arith}
use minic_os.Mm.Heap.{
  Block, Heap, Pages, Outcome, allocated, null, page_fault, heap_base, header_size,
}
use minic_os.Mm.Heap.Live.{live, IsValid, NoFit, Added}
use minic_os.Mm.Heap.Alloc.{Taken}
use minic_os.Mm.Heap.Grow.{extended}
use minic_os.Mm.Heap.Mapping.{Mapped, OutOfFrames}

-- What `kalloc` has given: a block of its own, whose memory is behind its header and in the mapped part.
pub record Given (h : Heap) (size ptr : ℕ) (h' : Heap) : Type 0 where
  pub valid : IsValid h'
  pub offset : ℕ
  pub given : ℕ
  pub enough : size ≤ given
  pub added : Added (live 0 h.blocks) (live 0 h'.blocks) offset given
  pub pointer : ptr ≡ heap_base + offset + header_size
  pub on_16 : ptr % 16 ≡ 0
  pub inside : ptr + given ≤ heap_base + h'.heap_size

-- The heap as `kalloc` found it, or grown once, by whole pages that could all be mapped.
pub data Grown (pages : Pages) (h : Heap) (st : pages.State) : Heap → pages.State → Type 0 where
  as_it_was : Grown pages h st h st
  by_pages :
      (n : ℕ) (st' : pages.State)
      → Mapped pages n (heap_base + h.heap_size) st st'
      → Grown pages h st (extended h (n * 4096)) st'

-- What comes of `kalloc`: a new block; no memory, since no block fits and a page that the heap would
-- grow by could not be mapped; or, if even the heap at its cap has no block of this size, a header
-- written behind the mapped part.
pub data Result (pages : Pages) (h : Heap) (st : pages.State) (size : ℕ)
    : Outcome pages → Type 0 where
  given_block :
      (ptr : ℕ) (h' : Heap) (st' : pages.State)
      → Given h size ptr h'
      → Result pages h st size (allocated ptr h' st')
  no_frames :
      (st' : pages.State)
      → NoFit size h.blocks
      → OutOfFrames pages (heap_base + h.heap_size) st st'
      → Result pages h st size (null h st')
  past_cap :
      (h' : Heap) (st' : pages.State)
      → Grown pages h st h' st'
      → NoFit size h.blocks
      → NoFit size h'.blocks
      → h'.heap_size ≡ h'.heap_cap
      → Result pages h st size page_fault

pub found-Given :
    (size o : ℕ) (bs : List Block) (h : Heap)
    → IsValid h
    → Taken size 0 h.blocks o bs
    → Given h size (heap_base + o + header_size) (record h { blocks = bs })
found-Given size o bs h v t = record {
  valid = record {
    tiled = t.same_extent ∙ v.tiled;
    aligned = t.aligned;
    whole = v.whole;
    cap = v.cap;
    within = v.within;
  };
  offset = o;
  given = t.given;
  enough = t.enough;
  added = t.added;
  pointer = refl;
  on_16 = omega (arith, t.on_16);
  inside = omega (arith, t.inside, v.tiled);
}

-- The heap may have grown in between.
pub Given-same_live :
    (size ptr : ℕ) (h h2 h' : Heap)
    → live 0 h2.blocks ≡ live 0 h.blocks
    → Given h2 size ptr h'
    → Given h size ptr h'
Given-same_live size ptr h h2 h' e g = record {
  valid = g.valid;
  offset = g.offset;
  given = g.given;
  enough = g.enough;
  added = record {
    before = g.added.before;
    after = g.added.after;
    split = sym e ∙ g.added.split;
    joined = g.added.joined;
  };
  pointer = g.pointer;
  on_16 = g.on_16;
  inside = g.inside;
}
