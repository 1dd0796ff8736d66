-- ===== src/Tests/Mm.antt =====
-- The frame allocator from the bitmap of boot, with every frame in use.
use Prim.Native.Nat.{bit_and}
use minic_os.Base.{
  ℕ, zero, suc, ◌/◌, ◌%◌, ◌^◌, ◌<◌, ◌≡◌, refl, sym, ap, ◌∙◌, ◌↔◌, true, false, not, ◌==◌, get_or,
  replicate, length-replicate, arith,
}
use minic_os.Base.Below.{all_below, all_below_lem, count_below-none}
use minic_os.Base.Exec.{done}
use minic_os.Base.Int.{ℤ}
use minic_os.Ipc.SharedMemory.{Regions, alloc_shared_memory}
use minic_os.Ipc.SharedMemory.Alloc.{Allocated, HasRoom, alloc_shared_memory_lem}
use minic_os.Tests.Fixtures.{same_entry}
use minic_os.Mm.Frames.{Frames, alloc_frame, free_frame, page_size}
use minic_os.Mm.Frames.Bitmap.{frame_count, in_use}
use minic_os.Mm.Frames.Alloc.{IsValid, FrameGiven, alloc_frame_lem}
use minic_os.Mm.Frames.Release.{Released, free_frame_lem}
use minic_os.Mm.Frames.RoundTrip.{GivenBack, free_frame-alloc_frame}

get_or-replicate : (n a i : ℕ) → i < n → get_or (replicate n a) i 0 ≡ a
get_or-replicate zero a i h = absurd (omega arith)
get_or-replicate (suc n) a zero h = refl
get_or-replicate (suc n) a (suc i) h = get_or-replicate n a i (omega arith)

small_bytes : (n a i : ℕ) → a < 256 → get_or (replicate n a) i 0 < 256
small_bytes zero a i h = omega arith
small_bytes (suc n) a zero h = h
small_bytes (suc n) a (suc i) h = small_bytes n a i h

full_bits : all_below 8 (λ k. not (bit_and 255 (2 ^ k) == 0)) ≡ true
unfolding all_below
full_bits = refl

full_bitmap : (n f : ℕ) → f / 8 < n → in_use (replicate n 255) f ≡ true
full_bitmap n f h =
    rw (get_or-replicate n 255 (f / 8) h)
      (all_below_lem 8 (λ k. not (bit_and 255 (2 ^ k) == 0)) (f % 8) full_bits (omega arith))

boot : Frames
boot = record { bitmap = replicate 32768 255; total_frames = 262144; free_frame_count = 0 }

boot-IsValid : IsValid boot
unfolding boot
boot-IsValid = record {
  bitmap = record {
    room = length-replicate {A = ℕ} 32768 255;
    bytes = λ i. small_bytes 32768 255 i (omega arith);
  };
  total = refl;
  counted =
      sym (count_below-none frame_count _ (λ k lt. ap not (full_bitmap 32768 k (omega arith))));
}

-- Four unused regions.
abbrev no_regions : Regions
no_regions = replicate 4 (record { used = false; page_count = 0; frames = replicate 4 0 })

no_regions-HasRoom : HasRoom no_regions
no_regions-HasRoom i r at =
    rw (← same_entry 4 (record { used = false; page_count = 0; frames = replicate 4 0 }) r i at)
      refl

free_frame_lem_example :
    (u : Frames) × (free_frame boot 3276800 ≡ done u)
    × IsValid u
    × Released boot u (3276800 / page_size)
free_frame_lem_example = free_frame_lem boot 3276800 boot-IsValid (omega arith)

-- Boot with the frame 800 freed.
freed_800 : (u : Frames) × (free_frame boot 3276800 ≡ done u) × IsValid u × Released boot u 800
freed_800 = free_frame_lem boot 3276800 boot-IsValid (omega arith)

one_free : Frames
unfolding freed_800
one_free = freed_800.0

one_free-IsValid : IsValid one_free
unfolding one_free
one_free-IsValid = freed_800.2

is_free : in_use one_free.bitmap 800 ≡ false
unfolding one_free
is_free = freed_800.3.changed 800

first_used : in_use one_free.bitmap 0 ≡ true
unfolding one_free boot
first_used = freed_800.3.changed 0 ∙ full_bitmap 32768 0 (omega arith)

alloc_frame_lem_example :
    (r : ℕ × Frames) × (alloc_frame one_free ≡ done r)
    × IsValid r.1
    × FrameGiven one_free r
    × ((r.0 ≡ 0) ↔ ((g : ℕ) → g < frame_count → in_use one_free.bitmap g ≡ true))
alloc_frame_lem_example = alloc_frame_lem one_free one_free-IsValid first_used

free_frame-alloc_frame_example : (a : ℕ) × (u : Frames) × (w : Frames) × GivenBack one_free a u w
free_frame-alloc_frame_example =
    free_frame-alloc_frame one_free 800 one_free-IsValid (omega arith) is_free

-- 3000 bytes are one page, for which there is a frame.
alloc_shared_memory_lem_example :
    (x : ℤ × Regions × Frames) × (alloc_shared_memory 3000 no_regions one_free ≡ done x)
    × IsValid x.2
    × Allocated 3000 no_regions one_free x
alloc_shared_memory_lem_example =
    alloc_shared_memory_lem 3000 no_regions one_free one_free-IsValid first_used no_regions-HasRoom
