-- ===== src/Ipc/SharedMemory.antt =====
-- proc/ipc/shared_memory/shared_memory.c: regions of frames that several processes map.
-- alloc_shared_memory runs with interrupts off and is one step. `map_page_in`, which writes the page
-- tables, is a parameter.
pub mod Fill
pub mod Alloc
use minic_os.Base.{
  ℕ, zero, suc, ◌+◌, ◌*◌, ◌/◌, ◌%◌, ◌^◌, Bool, true, false, not, ◌||◌, List, [], ◌∷◌, Option, none,
  some, ◌==◌, ltb, if◌then◌else◌, get_elem?, set, modify,
}
use minic_os.Base.Int.{ℤ, pos, negsuc}
use minic_os.Base.Exec.{Exec, done, fault, ◌>>=◌, at_index}
use minic_os.Base.Slots.{position}
use minic_os.Mm.Frames.{Frames, alloc_frame}

abbrev pub shm_slots : ℕ
shm_slots = 4

abbrev pub shm_max_pages : ℕ
shm_max_pages = 4

pub record SharedRegion : Type 0 where
  pub used : Bool
  pub page_count : ℕ
  pub frames : List ℕ

-- `g_shared_regions`
abbrev pub Regions : Type 0
Regions = List SharedRegion

abbrev pub region_is_free : SharedRegion → Bool
region_is_free r = not r.used

-- The loop of `alloc_shared_memory`, from page `p` on with `left` pages to go: whether there was a frame
-- for each, and the region.
unfoldable pub fill_loop : ℕ → ℕ → SharedRegion → Frames → Exec (Bool × SharedRegion × Frames)
fill_loop zero p r fr = done (true, r, fr)
fill_loop (suc left) p r fr = alloc_frame fr >>= λ a.
    let rest : Exec (Bool × SharedRegion × Frames) = at_index (get_elem? r.frames p) >>= λ _.
    fill_loop left (p + 1) (record r { frames = set r.frames p a.0 }) a.1 in
    if a.0 == 0 then done (false, r, a.1) else rest

-- What follows the loop.
abbrev pub finish_region : ℕ → ℕ → Regions → Bool × SharedRegion × Frames → ℤ × Regions × Frames
finish_region slot page_count regions (false, r, fr) =
    (negsuc 0, set regions slot (record r { used = false }), fr)
finish_region slot page_count regions (true, r, fr) =
    (pos slot, set regions slot (record r { page_count = page_count }), fr)

unfoldable pub alloc_shared_memory : ℕ → Regions → Frames → Exec (ℤ × Regions × Frames)
unfolding fill_loop position
alloc_shared_memory size regions fr =
    let page_count : ℕ = (size + 4095) % 2 ^ 32 / 4096 in
    if page_count == 0 || ltb shm_max_pages page_count
    then done (negsuc 0, regions, fr)
    else elim (position region_is_free regions) [
      | none ↦ done (negsuc 0, regions, fr)
      | some slot ↦ at_index (get_elem? regions slot) >>= λ r.
          fill_loop page_count 0 (record r { used = true }) fr >>= λ filled.
          done (finish_region slot page_count regions filled)
    ]

-- The loop of `shared_memory_map`, from page `p` on with `left` pages to go.
unfoldable pub map_pages :
    {S : Type 0} → (ℕ → ℕ → ℕ → ℕ → S → Bool × S) → ℕ → ℕ → ℕ → ℕ → List ℕ → S → Exec (Bool × S)
map_pages map_page_in cr3 vaddr zero p frames st = done (true, st)
map_pages map_page_in cr3 vaddr (suc left) p frames st = at_index (get_elem? frames p) >>= λ frame.
    let (ok, st') = map_page_in cr3 ((vaddr + p * 4096) % 2 ^ 64) frame 6 st in
    let rest = map_pages map_page_in cr3 vaddr left (p + 1) frames st' in
    if ok then rest else done (false, st')

unfoldable pub shared_memory_map :
    {S : Type 0} → (ℕ → ℕ → ℕ → ℕ → S → Bool × S) → ℕ → ℕ → ℕ → Regions → S → Exec (Bool × S)
unfolding map_pages
shared_memory_map map_page_in index cr3 vaddr regions st =
    at_index (get_elem? regions index) >>= λ r.
    map_pages map_page_in cr3 vaddr r.page_count 0 r.frames st

-- Whether one of the first `left` pages of a region, from `p` on, is this frame.
unfoldable pub has_frame : ℕ → ℕ → ℕ → List ℕ → Exec Bool
has_frame frame zero p frames = done false
has_frame frame (suc left) p frames =
    let rest : Exec Bool = has_frame frame left (p + 1) frames in
    at_index (get_elem? frames p) >>= λ f. if f == frame then done true else rest

unfoldable pub shared_memory_owns_frame : ℕ → Regions → Exec Bool
unfolding has_frame
shared_memory_owns_frame frame [] = done false
shared_memory_owns_frame frame (r ∷ regions) =
    let rest : Exec Bool = shared_memory_owns_frame frame regions in
    let here : Exec Bool =
      has_frame frame r.page_count 0 r.frames >>= λ found. if found then done true else rest in
    if r.used then here else rest
