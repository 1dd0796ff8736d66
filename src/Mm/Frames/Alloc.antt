-- ===== src/Mm/Frames/Alloc.antt =====
-- `alloc_frame` hands out the first free frame.
use native.Mathlib.Decide.{ℕ_discrete}
use minic_os.Base.{
  ℕ, zero, suc, ◌+◌, ◌-◌, ◌*◌, ◌%◌, ◌^◌, ◌<◌, ◌≤◌, ◌≡◌, ◌≢◌, refl, sym, ap, subst, ◌∙◌, ◌↔◌, ◌⊎◌,
  inl, inr, true, false, not, Option, none, some, List, ◌==◌, Bool-cases, arith,
}
use minic_os.Base.Below.{count_below, count_below-gain, count_below-le}
use minic_os.Base.Exec.{done}
use minic_os.Mm.Frames.{Frames, page_size, frame_test, search, alloc_frame}
use minic_os.Mm.Frames.Bitmap.{
  frame_count, in_use, IsBitmap, frame_test_lem, Changed, frame_set_lem,
}

-- How many frames are free.
abbrev pub free_frames : List ℕ → ℕ
free_frames bitmap = count_below frame_count (λ f. not (in_use bitmap f))

-- The bitmap covers the first GB, and the counter is the number of free frames.
pub record IsValid (s : Frames) : Type 0 where
  pub bitmap : IsBitmap s.bitmap
  pub total : s.total_frames ≡ frame_count
  pub counted : s.free_frame_count ≡ free_frames s.bitmap

-- What the search finds.
data Searched (bitmap : List ℕ) (i left : ℕ) : Option ℕ → Type 0 where
  nothing : ((g : ℕ) → i ≤ g → g < i + left → in_use bitmap g ≡ true) → Searched bitmap i left none
  found :
      (f : ℕ)
      → f < i + left
      → in_use bitmap f ≡ false
      → ((g : ℕ) → i ≤ g → g < f → in_use bitmap g ≡ true)
      → Searched bitmap i left (some f)

Searched-suc :
    (bitmap : List ℕ) (i left : ℕ) (r : Option ℕ)
    → in_use bitmap i ≡ true
    → Searched bitmap (i + 1) left r
    → Searched bitmap i (suc left) r
Searched-suc bitmap i left r used (nothing all) = nothing here
  where
    here : (g : ℕ) → i ≤ g → g < i + suc left → in_use bitmap g ≡ true
    here g le lt = elim (ℕ_discrete i g) [
      | yes e ↦ subst (λ g. in_use bitmap g ≡ true) e used
      | no ne ↦ all g (omega arith) (omega arith)
    ]
Searched-suc bitmap i left r used (found f lt free all) = found f (omega arith) free here
  where
    here : (g : ℕ) → i ≤ g → g < f → in_use bitmap g ≡ true
    here g le l = elim (ℕ_discrete i g) [
      | yes e ↦ subst (λ g. in_use bitmap g ≡ true) e used
      | no ne ↦ all g (omega arith) (omega arith)
    ]

search-Searched :
    (bitmap : List ℕ) (i left : ℕ)
    → IsBitmap bitmap
    → i + left ≤ frame_count
    → (r : Option ℕ) × (search bitmap i left ≡ done r) × Searched bitmap i left r
unfolding search
search-Searched bitmap i zero v le = (none, refl, nothing (λ g a b. absurd (omega arith)))
search-Searched bitmap i (suc left) v le =
    go (search-Searched bitmap (i + 1) left v (omega arith)) (Bool-cases (in_use bitmap i))
  where
    test : frame_test bitmap i ≡ done (in_use bitmap i)
    test = frame_test_lem bitmap i v (omega arith)

    go :
        (r : Option ℕ) × (search bitmap (i + 1) left ≡ done r) × Searched bitmap (i + 1) left r
        → (in_use bitmap i ≡ true) ⊎ (in_use bitmap i ≡ false)
        → (r : Option ℕ) × (search bitmap i (suc left) ≡ done r) × Searched bitmap i (suc left) r
    go (r, run, s) (inl used) = (r, rw (test, used) run, Searched-suc bitmap i left r used s)
    go (r, run, s) (inr free) =
        (some i, rw (test, free), found i (omega arith) free (λ g a b. absurd (omega arith)))

-- What `alloc_frame` returns: NULL and nothing changed, or the address of the first free frame, which
-- is in use afterwards, like those that were before.
pub data FrameGiven (s : Frames) : ℕ × Frames → Type 0 where
  exhausted : ((g : ℕ) → g < frame_count → in_use s.bitmap g ≡ true) → FrameGiven s (0, s)
  given :
      (f : ℕ) (u : Frames)
      → f < frame_count
      → in_use s.bitmap f ≡ false
      → ((g : ℕ) → g < f → in_use s.bitmap g ≡ true)
      → Changed s.bitmap u.bitmap f true
      → suc u.free_frame_count ≡ s.free_frame_count
      → FrameGiven s (f * page_size, u)

module _ (s : Frames) (f : ℕ) (after : List ℕ) (v : IsValid s) (lt : f < frame_count)
    (free : in_use s.bitmap f ≡ false) (changed : Changed s.bitmap after f true) where
  now_used : in_use after f ≡ true
  now_used = let e : (f == f) ≡ true = ground arith in changed f ∙ rw e

  others : (g : ℕ) → g ≢ f → in_use after g ≡ in_use s.bitmap g
  others g ne =
      let e : (f == g) ≡ false = ground (arith, λ (u : f ≡ g). ne (sym u)) in changed g ∙ rw e

  one_fewer : free_frames s.bitmap ≡ suc (free_frames after)
  one_fewer =
      count_below-gain frame_count (λ g. not (in_use after g)) (λ g. not (in_use s.bitmap g)) f lt
        (ap not now_used) (ap not free) (λ g l ne. ap not (others g ne))

  counter : (s.free_frame_count + 2 ^ 32 - 1) % 2 ^ 32 ≡ free_frames after
  counter =
      omega (arith, v.counted, one_fewer, count_below-le frame_count (λ g. not (in_use s.bitmap g)))

-- The call and the state after it, wherever frame 0 stands.
pub alloc_frame-FrameGiven :
    (s : Frames)
    → IsValid s
    → (r : ℕ × Frames) × (alloc_frame s ≡ done r) × IsValid r.1 × FrameGiven s r
unfolding alloc_frame
alloc_frame-FrameGiven s v =
    go (search-Searched s.bitmap 0 s.total_frames v.bitmap (omega (arith, v.total)))
  where
    go :
        (r : Option ℕ) × (search s.bitmap 0 s.total_frames ≡ done r)
          × Searched s.bitmap 0 s.total_frames r
        → (r : ℕ × Frames) × (alloc_frame s ≡ done r) × IsValid r.1 × FrameGiven s r
    go (none, run, nothing all) =
        ((0, s), rw run, v, exhausted (λ g l. all g (omega arith) (omega (arith, v.total))))
    go (some f, run, found f' below free all) =
        let lt : f < frame_count = omega (arith, v.total) in
        let (after, set_run, w, changed) = frame_set_lem s.bitmap f v.bitmap lt in
        let count = counter s f after v lt free changed in
        let u : Frames = record s {
          bitmap = after;
          free_frame_count = (s.free_frame_count + 2 ^ 32 - 1) % 2 ^ 32;
        } in
        (
          (f * page_size, u),
          simp (run, set_run),
          record { bitmap = w; total = v.total; counted = count },
          given f u lt free (λ g l. all g (omega arith) l) changed
              (omega (arith, count, v.counted, one_fewer s f after v lt free changed)),
        )

FrameGiven-null :
    (s : Frames) {r : ℕ × Frames}
    → in_use s.bitmap 0 ≡ true
    → FrameGiven s r
    → (r.0 ≡ 0) ↔ ((g : ℕ) → g < frame_count → in_use s.bitmap g ≡ true)
FrameGiven-null s first (exhausted all) = (λ _. all, λ _. refl)
FrameGiven-null s first (given f u below free before c count) = (
  λ e.
      let zero_frame : f ≡ 0 = omega arith in
      absurd (ground (arith, first, free, ap (in_use s.bitmap) zero_frame)),
  λ all. absurd (ground (arith, all f below, free)),
)

-- From a valid state in which frame 0 is in use, as it is from boot on, `alloc_frame` does not fault
-- and leaves a valid state. It returns NULL exactly when every frame of the GB is in use, and then
-- nothing changes; otherwise it returns the address of the first free frame, which is then in use, and
-- every other frame is as it was.
pub alloc_frame_lem :
    (s : Frames)
    → IsValid s
    → in_use s.bitmap 0 ≡ true
    → (r : ℕ × Frames) × (alloc_frame s ≡ done r)
      × IsValid r.1
      × FrameGiven s r
      × ((r.0 ≡ 0) ↔ ((g : ℕ) → g < frame_count → in_use s.bitmap g ≡ true))
alloc_frame_lem s v first =
    let (r, run, w, g) = alloc_frame-FrameGiven s v in (r, run, w, g, FrameGiven-null s first g)
