-- ===== src/Ipc/SharedMemory/Fill.antt =====
-- The frames that a region gets.
use native.Mathlib.Decide.{ℕ_discrete}
use minic_os.Base.{
  ℕ, zero, suc, ◌+◌, ◌*◌, ◌<◌, ◌≤◌, ◌≡◌, ◌≢◌, refl, sym, ap, ◌∙◌, Bool, true, false, not, List,
  some, ◌==◌, length, length-set, get_elem?, get_elem?-some, set, get_elem?-set_self,
  get_elem?-set_ne, arith,
}
use minic_os.Base.Below.{count_below-none}
use minic_os.Base.Exec.{done}
use minic_os.Mm.Frames.{Frames, page_size, alloc_frame}
use minic_os.Mm.Frames.Bitmap.{frame_count, in_use, Changed}
use minic_os.Mm.Frames.Alloc.{IsValid, FrameGiven, exhausted, given, alloc_frame-FrameGiven}
use minic_os.Ipc.SharedMemory.{SharedRegion, shm_max_pages, fill_loop}

-- What the loop returns: as many frames as there were pages to go, each of which was free before and
-- is in use afterwards; or there were fewer free frames, and no frame of the GB is free any more.
pub data Filled (left p : ℕ) (r : SharedRegion) (fr : Frames)
    : Bool × SharedRegion × Frames → Type 0 where
  whole :
      (r' : SharedRegion) (fr' : Frames)
      → fr'.free_frame_count + left ≡ fr.free_frame_count
      → ((k : ℕ)
          → p ≤ k
          → k < p + left
          → (f : ℕ) × (get_elem? r'.frames k ≡ some (f * page_size))
            × (in_use fr.bitmap f ≡ false)
            × (in_use fr'.bitmap f ≡ true))
      → ((k : ℕ) → k < p → get_elem? r'.frames k ≡ get_elem? r.frames k)
      → ((g : ℕ) → in_use fr.bitmap g ≡ true → in_use fr'.bitmap g ≡ true)
      → r'.used ≡ r.used
      → Filled left p r fr (true, r', fr')
  short :
      (r' : SharedRegion) (fr' : Frames)
      → fr.free_frame_count < left
      → ((g : ℕ) → g < frame_count → in_use fr'.bitmap g ≡ true)
      → ((g : ℕ) → in_use fr.bitmap g ≡ true → in_use fr'.bitmap g ≡ true)
      → Filled left p r fr (false, r', fr')

now_used :
    (before after : List ℕ) (f g : ℕ)
    → Changed before after f true
    → in_use before g ≡ true
    → in_use after g ≡ true
now_used before after f g c h = ground (arith, c g)

self_used : (before after : List ℕ) (f : ℕ) → Changed before after f true → in_use after f ≡ true
self_used before after f c = ground (arith, c f)

still_free :
    (before after : List ℕ) (f g : ℕ)
    → Changed before after f true
    → in_use after g ≡ false
    → in_use before g ≡ false
still_free before after f g c h = ground (arith, c g)

-- One page more.
Filled-suc :
    (left p f : ℕ) (r : SharedRegion) (fr u : Frames) {x : Bool × SharedRegion × Frames}
    → p < length r.frames
    → in_use fr.bitmap f ≡ false
    → Changed fr.bitmap u.bitmap f true
    → suc u.free_frame_count ≡ fr.free_frame_count
    → Filled left (p + 1) (record r { frames = set r.frames p (f * page_size) }) u x
    → Filled (suc left) p r fr x
Filled-suc left p f r fr u lt free c count (short r' fr' few all kept) =
    short r' fr' (omega arith) all (λ g h. kept g (now_used fr.bitmap u.bitmap f g c h))
Filled-suc left p f r fr u lt free c count (whole r' fr' counted owned below kept same_use) =
    whole r' fr' (omega arith) pages
      (λ k l. below k (omega arith) ∙ get_elem?-set_ne r.frames p k (f * page_size) (omega arith))
      (λ g h. kept g (now_used fr.bitmap u.bitmap f g c h)) same_use
  where
    first : get_elem? r'.frames p ≡ some (f * page_size)
    first = below p (omega arith) ∙ get_elem?-set_self r.frames p (f * page_size) lt

    pages :
        (k : ℕ)
        → p ≤ k
        → k < p + suc left
        → (h : ℕ) × (get_elem? r'.frames k ≡ some (h * page_size))
          × (in_use fr.bitmap h ≡ false)
          × (in_use fr'.bitmap h ≡ true)
    pages k le l = elim (ℕ_discrete p k) [
      | yes same ↦ (
        f,
        ap (get_elem? r'.frames) (sym same) ∙ first,
        free,
        kept f (self_used fr.bitmap u.bitmap f c),
      )
      | no ne ↦
          let (h, at, was_free, used) = owned k (omega arith) (omega arith) in
          (h, at, still_free fr.bitmap u.bitmap f h c was_free, used)
    ]

abbrev pub Fills : ℕ → ℕ → Type 0
Fills left p =
    (r : SharedRegion) (fr : Frames)
    → IsValid fr
    → in_use fr.bitmap 0 ≡ true
    → length r.frames ≡ shm_max_pages
    → (x : Bool × SharedRegion × Frames) × (fill_loop left p r fr ≡ done x)
      × IsValid x.2
      × Filled left p r fr x

fill_step :
    (left p : ℕ) (r : SharedRegion) (fr : Frames) {a : ℕ × Frames}
    → Fills left (p + 1)
    → in_use fr.bitmap 0 ≡ true
    → length r.frames ≡ shm_max_pages
    → p < shm_max_pages
    → alloc_frame fr ≡ done a
    → IsValid a.1
    → FrameGiven fr a
    → (x : Bool × SharedRegion × Frames) × (fill_loop (suc left) p r fr ≡ done x)
      × IsValid x.2
      × Filled (suc left) p r fr x
unfolding fill_loop
fill_step left p r fr more first room lt run w (exhausted all) =
    let none_free : fr.free_frame_count ≡ 0 =
      w.counted ∙ count_below-none frame_count _ (λ g l. ap not (all g l)) in
    ((false, r, fr), rw run refl, w, short r fr (omega arith) all (λ g h. h))
fill_step left p r fr more first room lt run w (given f u below free before c count) =
    let not_first : f ≢ 0 = λ e. absurd (ground (arith, first, free, ap (in_use fr.bitmap) e)) in
    let not_null : (f * page_size == 0) ≡ false = ground (arith, not_first) in
    let (old, at) = get_elem?-some r.frames p (omega (arith, room)) in
    let (x, rest, y, filled) =
      more (record r { frames = set r.frames p (f * page_size) }) u w
        (now_used fr.bitmap u.bitmap f 0 c first) (length-set r.frames p (f * page_size) ∙ room) in
    (
      x,
      rw (run, not_null, at) rest,
      y,
      Filled-suc left p f r fr u (omega (arith, room)) free c count filled,
    )

-- With valid frames of which the first is in use, and room for the pages in the region's array, the
-- loop leaves no array.
pub fill_loop_lem : (left p : ℕ) → p + left ≤ shm_max_pages → Fills left p
unfolding fill_loop
fill_loop_lem zero p le r fr v first room = (
  (true, r, fr),
  refl,
  v,
  whole r fr (omega arith) (λ k a b. absurd (omega arith)) (λ k l. refl) (λ g h. h) refl,
)
fill_loop_lem (suc left) p le r fr v first room =
    let (a, run, w, g) = alloc_frame-FrameGiven fr v in
    fill_step left p r fr (fill_loop_lem left (p + 1) (omega arith)) first room (omega arith) run w
      g
