-- ===== src/Mm/Frames/Bitmap.antt =====
-- The bitmap as the set of the frames in use.
use Prim.Native.Nat.{bit_and, bit_or}
use native.Mathlib.Decide.{ℕ_discrete}
use minic_os.Base.{
  ℕ, ◌-◌, ◌/◌, ◌%◌, ◌<◌, ◌≡◌, ◌≢◌, refl, sym, ap, ◌∙◌, Bool, true, false, not, List, ◌==◌,
  if◌then◌else◌, length, get_or, set, length-set, get_or-set_self, get_or-set_ne, get_elem?-get_or,
  arith,
}
use minic_os.Base.Exec.{done}
use minic_os.Mm.Frames.{mask, frame_set, frame_test, frame_clear}
use minic_os.Mm.Frames.Bits.{clear_bit, clear_bit-set, clear_bit-clear, set_small, clear_small}

abbrev pub frame_count : ℕ
frame_count = 262144

abbrev pub in_use : List ℕ → ℕ → Bool
in_use bitmap f = not (clear_bit (get_or bitmap (f / 8) 0) (f % 8))

pub record IsBitmap (bitmap : List ℕ) : Type 0 where
  pub room : length bitmap ≡ 32768
  pub bytes : (i : ℕ) → get_or bitmap i 0 < 256

pub frame_test_lem :
    (bitmap : List ℕ) (f : ℕ)
    → IsBitmap bitmap
    → f < frame_count
    → frame_test bitmap f ≡ done (in_use bitmap f)
unfolding frame_test
frame_test_lem bitmap f v lt = rw (get_elem?-get_or bitmap (f / 8) 0 (omega (arith, v.room)))

-- The two bitmaps differ in one frame.
abbrev pub Changed : List ℕ → List ℕ → ℕ → Bool → Type 0
Changed before after f now = (g : ℕ) → in_use after g ≡ (if f == g then now else in_use before g)

-- A byte whose bit `f % 8` is changed is put back.
module _ (bitmap : List ℕ) (f b : ℕ) (clear : Bool) (v : IsBitmap bitmap) (lt : f < frame_count)
    (small : b < 256)
    (bits : (k : ℕ)
      → k < 8
      → clear_bit b k ≡ (if f % 8 == k then clear else clear_bit (get_or bitmap (f / 8) 0) k)) where
  change-IsBitmap : IsBitmap (set bitmap (f / 8) b)
  change-IsBitmap = record { room = length-set bitmap (f / 8) b ∙ v.room; bytes = bytes }
    where
      bytes : (i : ℕ) → get_or (set bitmap (f / 8) b) i 0 < 256
      bytes i = elim (ℕ_discrete (f / 8) i) [
        | yes e ↦ rw (← e, get_or-set_self bitmap (f / 8) b 0 (omega (arith, v.room))) small
        | no ne ↦ rw (get_or-set_ne bitmap (f / 8) i b 0 ne) (v.bytes i)
      ]

  same_byte :
      (g : ℕ)
      → f / 8 ≡ g / 8
      → (if f % 8 == g % 8 then clear else clear_bit (get_or bitmap (f / 8) 0) (g % 8))
        ≡ (if f == g then clear else clear_bit (get_or bitmap (g / 8) 0) (g % 8))
  same_byte g e = elim (ℕ_discrete f g) [
    | yes u ↦
        let one : (f % 8 == g % 8) ≡ true = ground (arith, u) in
        let two : (f == g) ≡ true = ground (arith, u) in rw (one, two)
    | no ne ↦
        let apart : f % 8 ≢ g % 8 = λ w. ne (omega arith) in
        let one : (f % 8 == g % 8) ≡ false = ground (arith, apart) in
        let two : (f == g) ≡ false = ground (arith, ne) in rw (one, two, e)
  ]

  change-Changed : Changed bitmap (set bitmap (f / 8) b) f (not clear)
  change-Changed g = elim (ℕ_discrete (f / 8) (g / 8)) [
    | yes e ↦
        let now : get_or (set bitmap (f / 8) b) (g / 8) 0 ≡ b =
          ap (λ i. get_or (set bitmap (f / 8) b) i 0) (sym e)
          ∙ get_or-set_self bitmap (f / 8) b 0 (omega (arith, v.room)) in
        rw (now, bits (g % 8) (omega arith), same_byte g e) (push (f == g) _)
    | no ne ↦
        let apart : (f == g) ≡ false = ground arith in
        rw (get_or-set_ne bitmap (f / 8) (g / 8) b 0 ne, apart)
  ]
    where
      push : (c : Bool) (d : Bool) → not (if c then clear else d) ≡ (if c then not clear else not d)
      push true d = refl
      push false d = refl

pub frame_set_lem :
    (bitmap : List ℕ) (f : ℕ)
    → IsBitmap bitmap
    → f < frame_count
    → (after : List ℕ) × (frame_set bitmap f ≡ done after)
      × IsBitmap after
      × Changed bitmap after f true
unfolding frame_set
frame_set_lem bitmap f v lt =
    let b : ℕ = get_or bitmap (f / 8) 0 in
    let small = set_small b (f % 8) 0 (v.bytes (f / 8)) (omega arith) (omega arith) in
    let bits =
      λ (k : ℕ) (lk : k < 8). clear_bit-set b (f % 8) k (v.bytes (f / 8)) (omega arith) lk in
    (
      set bitmap (f / 8) (bit_or b (mask f)),
      rw (get_elem?-get_or bitmap (f / 8) 0 (omega (arith, v.room))),
      change-IsBitmap bitmap f _ false v lt small bits,
      change-Changed bitmap f _ false v lt small bits,
    )

pub frame_clear_lem :
    (bitmap : List ℕ) (f : ℕ)
    → IsBitmap bitmap
    → f < frame_count
    → (after : List ℕ) × (frame_clear bitmap f ≡ done after)
      × IsBitmap after
      × Changed bitmap after f false
unfolding frame_clear
frame_clear_lem bitmap f v lt =
    let b : ℕ = get_or bitmap (f / 8) 0 in
    let small = clear_small b (f % 8) 0 (v.bytes (f / 8)) (omega arith) (omega arith) in
    let bits =
      λ (k : ℕ) (lk : k < 8). clear_bit-clear b (f % 8) k (v.bytes (f / 8)) (omega arith) lk in
    (
      set bitmap (f / 8) (bit_and b (255 - mask f)),
      rw (get_elem?-get_or bitmap (f / 8) 0 (omega (arith, v.room))),
      change-IsBitmap bitmap f _ true v lt small bits,
      change-Changed bitmap f _ true v lt small bits,
    )
