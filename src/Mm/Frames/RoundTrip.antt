-- ===== src/Mm/Frames/RoundTrip.antt =====
-- `free_frame` after `alloc_frame`.
use native.Mathlib.Decide.{ℕ_discrete}
use minic_os.Base.{
  ℕ, suc, ◌*◌, ◌/◌, ◌<◌, ◌≡◌, sym, subst, ◌∙◌, true, false, if◌then◌else◌, ◌==◌, arith,
}
use minic_os.Base.Exec.{done}
use minic_os.Mm.Frames.{Frames, page_size, alloc_frame, free_frame}
use minic_os.Mm.Frames.Bitmap.{frame_count, in_use}
use minic_os.Mm.Frames.Alloc.{IsValid, FrameGiven, given, exhausted, alloc_frame-FrameGiven}
use minic_os.Mm.Frames.Release.{Released, free_frame_lem}

-- `a` was handed out and given back: the same frames are in use, and the counter is as before.
pub record GivenBack (s : Frames) (a : ℕ) (u w : Frames) : Type 0 where
  pub alloc_run : alloc_frame s ≡ done (a, u)
  pub free_run : free_frame u a ≡ done w
  pub same : (g : ℕ) → in_use w.bitmap g ≡ in_use s.bitmap g
  pub count : w.free_frame_count ≡ s.free_frame_count

-- From a valid state with a free frame, `alloc_frame` and then `free_frame` of what it returned do
-- not fault, and afterwards the same frames are in use and the counter is what it was.
pub free_frame-alloc_frame :
    (s : Frames) (f : ℕ)
    → IsValid s
    → f < frame_count
    → in_use s.bitmap f ≡ false
    → (a : ℕ) × (u : Frames) × (w : Frames) × GivenBack s a u w
free_frame-alloc_frame s f v lt free = go (alloc_frame-FrameGiven s v)
  where
    Goal : Type 0
    Goal = (a : ℕ) × (u : Frames) × (w : Frames) × GivenBack s a u w

    back :
        (h : ℕ) (u w : Frames)
        → in_use s.bitmap h ≡ false
        → ((g : ℕ) → in_use u.bitmap g ≡ (if h == g then true else in_use s.bitmap g))
        → ((g : ℕ) → in_use w.bitmap g ≡ (if h == g then false else in_use u.bitmap g))
        → (g : ℕ) → in_use w.bitmap g ≡ in_use s.bitmap g
    back h u w idle one two g = elim (ℕ_discrete h g) [
      | yes e ↦
          let here : (h == g) ≡ true = ground arith in
          two g ∙ rw here (sym (subst (λ g. in_use s.bitmap g ≡ false) e idle))
      | no ne ↦ let here : (h == g) ≡ false = ground arith in two g ∙ rw here (one g ∙ rw here)
    ]

    finish :
        (h : ℕ) (u : Frames)
        → alloc_frame s ≡ done (h * page_size, u)
        → in_use s.bitmap h ≡ false
        → ((g : ℕ) → in_use u.bitmap g ≡ (if h == g then true else in_use s.bitmap g))
        → suc u.free_frame_count ≡ s.free_frame_count
        → (w : Frames) × (free_frame u (h * page_size) ≡ done w)
          × IsValid w
          × Released u w (h * page_size / page_size)
        → Goal
    finish h u run idle one count (w, run', _, r) =
        let e : h * page_size / page_size ≡ h = omega arith in
        let self : (h == h) ≡ true = ground arith in
        let held : in_use u.bitmap (h * page_size / page_size) ≡ true = rw e (one h ∙ rw self) in
        (
          h * page_size,
          u,
          w,
          record {
            alloc_run = run;
            free_run = run';
            same = back h u w idle one (rw e at r.changed);
            count = r.count ∙ rw held count;
          },
        )

    go : (r : ℕ × Frames) × (alloc_frame s ≡ done r) × IsValid r.1 × FrameGiven s r → Goal
    go (r, run, w, exhausted all) = absurd (ground (arith, all f lt))
    go (r, run, w, given h u below idle first changed count) =
        finish h u run idle changed count (free_frame_lem u (h * page_size) w (omega arith))
