-- ===== src/Ipc/SharedMemory/Alloc.antt =====
-- What `alloc_shared_memory` returns.
use minic_os.Base.{
  ℕ, ◌+◌, ◌*◌, ◌/◌, ◌%◌, ◌^◌, ◌<◌, ◌≤◌, ◌≡◌, ◌≢◌, ◌⊎◌, refl, sym, Bool, true, false, ◌||◌, some,
  ◌==◌, ltb, length, get_elem?, get_elem?-lt, get_elem?-set_self, get_elem?-set_ne, set, Bool-cases,
  inl, inr, arith,
}
use minic_os.Base.Int.{ℤ, pos, negsuc}
use minic_os.Base.Exec.{done}
use minic_os.Base.Slots.{Found, position-cases}
use minic_os.Mm.Frames.{Frames, page_size}
use minic_os.Mm.Frames.Bitmap.{frame_count, in_use}
use minic_os.Mm.Frames.Alloc.{IsValid}
use minic_os.Ipc.SharedMemory.{
  SharedRegion, Regions, shm_max_pages, region_is_free, finish_region, alloc_shared_memory,
}
use minic_os.Ipc.SharedMemory.Fill.{Filled, whole, short, fill_loop_lem}

-- The pages of a size.
abbrev pub pages_of : ℕ → ℕ
pages_of size = (size + 4095) % 2 ^ 32 / 4096

-- Every region has room for four frames.
abbrev pub HasRoom : Regions → Type 0
HasRoom regions =
    (i : ℕ) (r : SharedRegion) → get_elem? regions i ≡ some r → length r.frames ≡ shm_max_pages

-- The region `slot` is taken: it is the first unused one, and the other regions are kept.
pub record Takes (regions : Regions) (slot : ℕ) (regions' : Regions) : Type 0 where
  pub old : SharedRegion
  pub here : get_elem? regions slot ≡ some old
  pub unused : old.used ≡ false
  pub before : (j : ℕ) (b : SharedRegion) → j < slot → get_elem? regions j ≡ some b → b.used ≡ true
  pub others : (j : ℕ) → j ≢ slot → get_elem? regions' j ≡ get_elem? regions j

-- The four results: a refusal that changes nothing, for a size of no page or of more than four; the
-- same because every region is used; a region of frames that were free, each in use now; or a refusal
-- because fewer frames were free, after which none is.
pub data Allocated (size : ℕ) (regions : Regions) (fr : Frames)
    : ℤ × Regions × Frames → Type 0 where
  bad_size :
      (pages_of size ≡ 0) ⊎ (shm_max_pages < pages_of size)
      → Allocated size regions fr (negsuc 0, regions, fr)
  no_region :
      ((j : ℕ) (b : SharedRegion) → get_elem? regions j ≡ some b → b.used ≡ true)
      → Allocated size regions fr (negsuc 0, regions, fr)
  region :
      (slot : ℕ) (regions' : Regions) (r : SharedRegion) (fr' : Frames)
      → Takes regions slot regions'
      → 0 < pages_of size
      → pages_of size ≤ shm_max_pages
      → get_elem? regions' slot ≡ some r
      → r.used ≡ true
      → r.page_count ≡ pages_of size
      → fr'.free_frame_count + pages_of size ≡ fr.free_frame_count
      → ((k : ℕ)
          → k < pages_of size
          → (f : ℕ) × (get_elem? r.frames k ≡ some (f * page_size))
            × (in_use fr.bitmap f ≡ false)
            × (in_use fr'.bitmap f ≡ true))
      → ((g : ℕ) → in_use fr.bitmap g ≡ true → in_use fr'.bitmap g ≡ true)
      → Allocated size regions fr (pos slot, regions', fr')
  all_frames_gone :
      (slot : ℕ) (regions' : Regions) (r : SharedRegion) (fr' : Frames)
      → Takes regions slot regions'
      → get_elem? regions' slot ≡ some r
      → r.used ≡ false
      → fr.free_frame_count < pages_of size
      → ((g : ℕ) → g < frame_count → in_use fr'.bitmap g ≡ true)
      → ((g : ℕ) → in_use fr.bitmap g ≡ true → in_use fr'.bitmap g ≡ true)
      → Allocated size regions fr (negsuc 0, regions', fr')

module _ (size slot : ℕ) (regions : Regions) (old : SharedRegion) (fr : Frames)
    (found : Found region_is_free regions slot old) where
  takes : (r : SharedRegion) → Takes regions slot (set regions slot r)
  takes r = record {
    old = old;
    here = found.here;
    unused = ground (arith, found.passes);
    before = λ j b lt at. ground (arith, found.first j b lt at);
    others = λ j ne. get_elem?-set_ne regions slot j r (λ e. ne (sym e));
  }

  now_at : (r : SharedRegion) → get_elem? (set regions slot r) slot ≡ some r
  now_at r = get_elem?-set_self regions slot r (get_elem?-lt regions slot old found.here)

  finished :
      {x : Bool × SharedRegion × Frames}
      → 0 < pages_of size
      → pages_of size ≤ shm_max_pages
      → Filled (pages_of size) 0 (record old { used = true }) fr x
      → Allocated size regions fr (finish_region slot (pages_of size) regions x)
  finished some_page fits (short r' fr' few all kept) =
      let r = record r' { used = false } in
      all_frames_gone slot (set regions slot r) r fr' (takes r) (now_at r) refl few all kept
  finished some_page fits (whole r' fr' counted owned below kept same_use) =
      let r = record r' { page_count = pages_of size } in
      region slot (set regions slot r) r fr' (takes r) some_page fits (now_at r) same_use refl
        counted (λ k lt. owned k (omega arith) (omega arith)) kept

-- From valid frames of which the first is in use, and regions with room for four frames each,
-- alloc_shared_memory leaves no array and keeps the frames valid. It refuses and changes nothing, since
-- the size is of no page or of more than four, or since every region is used. Or it takes the first
-- unused region and keeps the others: the region is used and of as many pages as the size needs, whose
-- frames were free and are in use now, and no frame that was in use is free; or fewer frames were free
-- than pages are needed, and then it refuses, the region is unused again, and every frame of the GB
-- stays in use.
pub alloc_shared_memory_lem :
    (size : ℕ) (regions : Regions) (fr : Frames)
    → IsValid fr
    → in_use fr.bitmap 0 ≡ true
    → HasRoom regions
    → (x : ℤ × Regions × Frames) × (alloc_shared_memory size regions fr ≡ done x)
      × IsValid x.2
      × Allocated size regions fr x
unfolding alloc_shared_memory
alloc_shared_memory_lem size regions fr v first room =
    elim (Bool-cases (pages_of size == 0 || ltb shm_max_pages (pages_of size))) [
      | inl bad ↦ ((negsuc 0, regions, fr), rw bad refl, v, bad_size (bad_pages bad))
      | inr fine ↦ elim (position-cases region_is_free regions) [
        | inl (full, none_free) ↦ (
          (negsuc 0, regions, fr),
          rw (fine, full) refl,
          v,
          no_region (λ j b at. ground (arith, none_free j b at)),
        )
        | inr (slot, old, free, f) ↦
            let (x, run, w, filled) =
              fill_loop_lem (pages_of size) 0 (ground arith) (record old { used = true }) fr v first
                (room slot old f.here) in
            (
              finish_region slot (pages_of size) regions x,
              rw (fine, free, f.here, run) refl,
              finished_frames slot x w,
              finished size slot regions old fr f (ground arith) (ground arith) filled,
            )
      ]
    ]
  where
    bad_pages :
        (pages_of size == 0 || ltb shm_max_pages (pages_of size)) ≡ true
        → (pages_of size ≡ 0) ⊎ (shm_max_pages < pages_of size)
    bad_pages e = elim (Bool-cases (pages_of size == 0)) [
      | inl zero_pages ↦ inl (ground arith)
      | inr some_pages ↦ inr (ground arith)
    ]

    finished_frames :
        (slot : ℕ) (x : Bool × SharedRegion × Frames)
        → IsValid x.2
        → IsValid (finish_region slot (pages_of size) regions x).2
    finished_frames slot (true, r, fr') w = w
    finished_frames slot (false, r, fr') w = w
