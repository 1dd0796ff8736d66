-- ===== src/Mm/Frames/Release.antt =====
-- `free_frame` and `mark_range_free`.
use native.Mathlib.Decide.{ℕ_discrete}
use minic_os.Base.{
  ℕ, zero, suc, ◌+◌, ◌-◌, ◌/◌, ◌%◌, ◌^◌, ◌<◌, ◌≤◌, ◌≡◌, ◌≢◌, refl, sym, ap, subst, ◌∙◌, ◌⊎◌, inl,
  inr, Bool, true, false, not, List, ◌==◌, ltb, leb, ◌&&◌, min, if◌then◌else◌, Bool-cases, arith,
}
use minic_os.Base.Below.{count_below-gain, count_below-le}
use minic_os.Base.Exec.{done}
use minic_os.Mm.Frames.{
  Frames, page_size, one_gb, frame_test, frame_clear, release, mark_loop, mark_range_free,
  free_frame,
}
use minic_os.Mm.Frames.Bitmap.{
  frame_count, in_use, IsBitmap, frame_test_lem, Changed, frame_clear_lem,
}
use minic_os.Mm.Frames.Alloc.{IsValid, free_frames}

-- The frame is free, the others are as they were, and the counter is one more if it was in use.
pub record Released (s u : Frames) (f : ℕ) : Type 0 where
  pub changed : Changed s.bitmap u.bitmap f false
  pub count :
      u.free_frame_count
      ≡ (if in_use s.bitmap f then suc s.free_frame_count else s.free_frame_count)

module _ (s : Frames) (f : ℕ) (after : List ℕ) (v : IsValid s) (lt : f < frame_count)
    (used : in_use s.bitmap f ≡ true) (changed : Changed s.bitmap after f false) where
  one_more : free_frames after ≡ suc (free_frames s.bitmap)
  one_more =
      let e : (f == f) ≡ true = ground arith in
      let now : in_use after f ≡ false = changed f ∙ rw e in
      count_below-gain frame_count (λ g. not (in_use s.bitmap g)) (λ g. not (in_use after g)) f lt
        (ap not used) (ap not now) others
    where
      others : (g : ℕ) → g < frame_count → g ≢ f → not (in_use s.bitmap g) ≡ not (in_use after g)
      others g l ne =
          let e : (f == g) ≡ false = ground (arith, λ (u : f ≡ g). ne (sym u)) in
          ap not (sym (changed g ∙ rw e))

  counter_up : (s.free_frame_count + 1) % 2 ^ 32 ≡ suc s.free_frame_count
  counter_up = omega (arith, v.counted, count_below-le frame_count (λ g. not (in_use s.bitmap g)))

unchanged : (s : Frames) (f : ℕ) → in_use s.bitmap f ≡ false → Changed s.bitmap s.bitmap f false
unchanged s f free g = elim (ℕ_discrete f g) [
  | yes e ↦
      let one : (f == g) ≡ true = ground arith in
      rw one (subst (λ g. in_use s.bitmap g ≡ false) e free)
  | no ne ↦ let one : (f == g) ≡ false = ground arith in rw one
]

release_lem :
    (s : Frames) (f : ℕ)
    → IsValid s
    → f < frame_count
    → (u : Frames) × (release s f ≡ done u) × IsValid u × Released s u f
unfolding release
release_lem s f v lt = go (frame_clear_lem s.bitmap f v.bitmap lt) (Bool-cases (in_use s.bitmap f))
  where
    test : frame_test s.bitmap f ≡ done (in_use s.bitmap f)
    test = frame_test_lem s.bitmap f v.bitmap lt

    go :
        (after : List ℕ) × (frame_clear s.bitmap f ≡ done after)
          × IsBitmap after
          × Changed s.bitmap after f false
        → (in_use s.bitmap f ≡ true) ⊎ (in_use s.bitmap f ≡ false)
        → (u : Frames) × (release s f ≡ done u) × IsValid u × Released s u f
    go (after, run, w, changed) (inl used) =
        let up = counter_up s f after v lt used changed in
        (
          record s { bitmap = after; free_frame_count = (s.free_frame_count + 1) % 2 ^ 32 },
          simp (test, used, run),
          record {
            bitmap = w;
            total = v.total;
            counted = omega (arith, up, v.counted, one_more s f after v lt used changed);
          },
          record { changed = changed; count = rw (used, up) },
        )
    go (after, run, w, changed) (inr free) =
        (s, simp (test, free, run), v, record { changed = unchanged s f free; count = rw free })

-- From a valid state and for an address in the first GB, `free_frame` does not fault; it leaves a
-- valid state in which the frame of the address is free, every other frame is as it was, and the
-- counter has gone up by one if the frame was in use and not at all otherwise.
pub free_frame_lem :
    (s : Frames) (addr : ℕ)
    → IsValid s
    → addr < one_gb
    → (u : Frames) × (free_frame s addr ≡ done u) × IsValid u × Released s u (addr / page_size)
unfolding free_frame
free_frame_lem s addr v lt =
    let e : addr / page_size % 2 ^ 32 ≡ addr / page_size = omega arith in
    rw e (release_lem s (addr / page_size) v (omega arith))

-- The frames from `first` on, `n` of them.
abbrev pub in_range : ℕ → ℕ → ℕ → Bool
in_range first n g = leb first g && ltb g (first + n)

abbrev pub Cleared : List ℕ → List ℕ → ℕ → ℕ → Type 0
Cleared before after first n =
    (g : ℕ) → in_use after g ≡ (if in_range first n g then false else in_use before g)

Cleared-suc :
    (a b c : List ℕ) (first n : ℕ)
    → Changed a b first false
    → Cleared b c (first + 1) n
    → Cleared a c first (suc n)
Cleared-suc a b c first n one rest g = elim (ℕ_discrete first g) [
  | yes e ↦
      let here : (first == g) ≡ true = ground arith in
      let inside : in_range first (suc n) g ≡ true = ground arith in
      let later : in_range (first + 1) n g ≡ false = ground arith in
      rest g ∙ rw later (one g ∙ rw (here, inside))
  | no ne ↦
      let here : (first == g) ≡ false = ground arith in
      let same : in_range first (suc n) g ≡ in_range (first + 1) n g = ground arith in
      rest g ∙ rw same (ap (λ x. if in_range (first + 1) n g then false else x) (one g ∙ rw here))
]

mark_loop_lem :
    (n first : ℕ) (s : Frames)
    → IsValid s
    → first + n ≤ frame_count
    → (u : Frames) × (mark_loop n first s ≡ done u) × IsValid u × Cleared s.bitmap u.bitmap first n
unfolding mark_loop
mark_loop_lem zero first s v le = (s, refl, v, none)
  where
    none : Cleared s.bitmap s.bitmap first 0
    none g = let e : in_range first 0 g ≡ false = ground arith in rw e
mark_loop_lem (suc n) first s v le =
    go (release_lem s first v (omega arith)) (λ t w. mark_loop_lem n (first + 1) t w (omega arith))
  where
    go :
        (t : Frames) × (release s first ≡ done t) × IsValid t × Released s t first
        → ((t : Frames)
            → IsValid t
            → (u : Frames) × (mark_loop n (first + 1) t ≡ done u)
              × IsValid u
              × Cleared t.bitmap u.bitmap (first + 1) n)
        → (u : Frames) × (mark_loop (suc n) first s ≡ done u)
          × IsValid u
          × Cleared s.bitmap u.bitmap first (suc n)
    go (t, run, w, r) rest =
        let (u, run', w', c) = rest t w in
        let e : first % 2 ^ 32 ≡ first = omega arith in
        let masked : release s (first % 2 ^ 32) ≡ done t = ap (release s) e ∙ run in
        (u, rw masked run', w', Cleared-suc s.bitmap t.bitmap u.bitmap first n r.changed c)

-- The first frame that `mark_range_free` marks, and how many it marks.
abbrev pub first_frame : ℕ → ℕ → ℕ
first_frame start kernel_end = (if ltb start kernel_end then kernel_end else start) / page_size

abbrev pub frames_in : ℕ → ℕ → ℕ → ℕ
frames_in start end kernel_end = min end one_gb / page_size - first_frame start kernel_end

-- From a valid state, for any range and an end of the kernel in the first GB, `mark_range_free` does
-- not fault; it leaves a valid state in which the frames of the range that begin below the GB's end
-- and not before the frame of the kernel's end are free, and every other frame is as it was.
pub mark_range_free_lem :
    (s : Frames) (start end kernel_end : ℕ)
    → IsValid s
    → (u : Frames) × (mark_range_free s start end kernel_end ≡ done u)
      × IsValid u
      × Cleared s.bitmap u.bitmap (first_frame start kernel_end) (frames_in start end kernel_end)
unfolding mark_range_free
mark_range_free_lem s start end kernel_end v =
    elim (ℕ_discrete (frames_in start end kernel_end) 0) [
      | yes e ↦
          rw (upper, e)
            (
              s,
              refl,
              v,
              λ g.
                  let out : in_range (first_frame start kernel_end) 0 g ≡ false = ground arith in
                  rw out,
            )
      | no ne ↦ rw upper (
          mark_loop_lem (frames_in start end kernel_end) (first_frame start kernel_end) s v
            (omega arith))
    ]
  where
    upper : (if ltb one_gb end then one_gb else end) ≡ min end one_gb
    upper = ground arith
