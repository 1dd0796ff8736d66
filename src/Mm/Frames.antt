-- ===== src/Mm/Frames.antt =====
-- kernel/mm/frames/frames.c: the bitmap of the 4 KB frames of the first GB, a bit set for a frame in
-- use. `alloc_frame` and `free_frame` run with interrupts off, so each is one step.
pub mod Bits
pub mod Bitmap
pub mod Alloc
pub mod Release
pub mod RoundTrip
use Prim.Native.Nat.{bit_and, bit_or}
use minic_os.Base.{
  ℕ, zero, suc, ◌+◌, ◌-◌, ◌*◌, ◌/◌, ◌%◌, ◌^◌, Bool, true, false, not, Option, none, some, List,
  ◌==◌, ltb, if◌then◌else◌, get_elem?, set,
}
use minic_os.Base.Exec.{Exec, done, ◌>>=◌, at_index}

abbrev pub page_size : ℕ
page_size = 4096

abbrev pub one_gb : ℕ
one_gb = 1073741824

-- `g_frame_bitmap`, `g_total_frames` and `g_free_frame_count`
pub record Frames : Type 0 where
  pub bitmap : List ℕ
  pub total_frames : ℕ
  pub free_frame_count : ℕ

-- `(u8) (1 << (frame % 8))`
abbrev pub mask : ℕ → ℕ
mask frame = 2 ^ (frame % 8)

unfoldable pub frame_set : List ℕ → ℕ → Exec (List ℕ)
frame_set bitmap frame = do
  b ← at_index (get_elem? bitmap (frame / 8))
  done (set bitmap (frame / 8) (bit_or b (mask frame)))

unfoldable pub frame_test : List ℕ → ℕ → Exec Bool
frame_test bitmap frame = do
  b ← at_index (get_elem? bitmap (frame / 8))
  done (not (bit_and b (mask frame) == 0))

unfoldable pub frame_clear : List ℕ → ℕ → Exec (List ℕ)
frame_clear bitmap frame = do
  b ← at_index (get_elem? bitmap (frame / 8))
  done (set bitmap (frame / 8) (bit_and b (255 - mask frame)))

-- The body that `mark_range_free` and `free_frame` share.
unfoldable pub release : Frames → ℕ → Exec Frames
unfolding frame_test frame_clear
release s frame = do
  used ← frame_test s.bitmap frame
  let cleared : Exec Frames = (do
    bitmap ← frame_clear s.bitmap frame
    done (record s { bitmap = bitmap; free_frame_count = (s.free_frame_count + 1) % 2 ^ 32 }))
  if used then cleared else done s

-- The loop of `mark_range_free`, with `left` frames to go.
unfoldable pub mark_loop : ℕ → ℕ → Frames → Exec Frames
mark_loop zero frame s = done s
mark_loop (suc left) frame s = release s (frame % 2 ^ 32) >>= mark_loop left (frame + 1)

unfoldable pub mark_range_free : Frames → ℕ → ℕ → ℕ → Exec Frames
unfolding mark_loop
mark_range_free s start end kernel_end =
    let start' : ℕ = if ltb start kernel_end then kernel_end else start in
    let end' : ℕ = if ltb one_gb end then one_gb else end in
    mark_loop (end' / page_size - start' / page_size) (start' / page_size) s

-- The search of `alloc_frame`, from frame `i` with `left` to go.
unfoldable pub search : List ℕ → ℕ → ℕ → Exec (Option ℕ)
search bitmap i zero = done none
search bitmap i (suc left) =
    let rest : Exec (Option ℕ) = search bitmap (i + 1) left in
    frame_test bitmap i >>= λ used. if used then rest else done (some i)

-- The address of the frame; 0 is NULL.
unfoldable pub alloc_frame : Frames → Exec (ℕ × Frames)
unfolding frame_set search
alloc_frame s = do
  found ← search s.bitmap 0 s.total_frames
  elim found [
    | none ↦ done (0, s)
    | some i ↦ do
      bitmap ← frame_set s.bitmap i
      done (
        i * page_size,
        record s { bitmap = bitmap; free_frame_count = (s.free_frame_count + 2 ^ 32 - 1) % 2 ^ 32 },
      )
  ]

unfoldable pub free_frame : Frames → ℕ → Exec Frames
unfolding release
free_frame s addr = release s (addr / page_size % 2 ^ 32)
