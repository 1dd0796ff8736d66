-- ===== src/Mm/Cow/Lookup.antt =====
-- The sharers of a frame before and after a change of one slot.
use minic_os.Base.{
  ℕ, zero, suc, ◌<◌, ◌≡◌, refl, true, false, some, List, [], ◌∷◌, if◌then◌else◌, get_elem?, modify,
  Bool-cases, inl, inr, arith,
}
use mathlib.Core.Option.{some-injective}
use minic_os.Base.Int.{pos_part}
use minic_os.Base.Slots.{Found, Missing}
use minic_os.Mm.Cow.{CowEntry, tracks}

-- How many address spaces share a frame: what its entry counts, and one if it has none.
unfoldable pub sharers : List CowEntry → ℕ → ℕ
sharers [] frame = 1
sharers (e ∷ es) frame = if tracks frame e then pos_part e.refcount else sharers es frame

pub sharers-Missing :
    (t : List CowEntry) (frame : ℕ) → Missing (tracks frame) t → sharers t frame ≡ 1
unfolding sharers
sharers-Missing [] frame m = refl
sharers-Missing (e ∷ es) frame m =
    rw (m 0 e refl) (sharers-Missing es frame (λ j b at. m (suc j) b at))

-- The slot `i` is changed by `f` and is the first that tracks the frame afterwards.
pub sharers-modify :
    (t : List CowEntry) (frame i : ℕ) (f : CowEntry → CowEntry) (e : CowEntry)
    → get_elem? t i ≡ some e
    → ((j : ℕ) (b : CowEntry) → j < i → get_elem? t j ≡ some b → tracks frame b ≡ false)
    → tracks frame (f e) ≡ true
    → sharers (modify t i f) frame ≡ pos_part (f e).refcount
unfolding sharers
sharers-modify [] frame i f e at first now = absurd (cc)
sharers-modify (x ∷ xs) frame zero f e at first now =
    let same : x ≡ e = some-injective _ _ at in rw (same, now)
sharers-modify (x ∷ xs) frame (suc i) f e at first now =
    rw (first 0 x (omega arith) refl)
      (sharers-modify xs frame i f e at (λ j b lt a. first (suc j) b (omega arith) a) now)

pub sharers-Found :
    (t : List CowEntry) (frame i : ℕ) (e : CowEntry)
    → Found (tracks frame) t i e
    → sharers t frame ≡ pos_part e.refcount
unfolding sharers
sharers-Found [] frame i e v = absurd (ground (arith, v.here))
sharers-Found (x ∷ xs) frame zero e v =
    let same : x ≡ e = some-injective _ _ v.here in rw (same, v.passes)
sharers-Found (x ∷ xs) frame (suc i) e v = rw (v.first 0 x (omega arith) refl) (
    sharers-Found xs frame i e (record {
      here = v.here;
      passes = v.passes;
      first = λ j b lt a. v.first (suc j) b (omega arith) a;
    }))

-- A change of a slot that does not track the frame, neither before nor after.
pub sharers-other :
    (t : List CowEntry) (frame i : ℕ) (f : CowEntry → CowEntry) (e : CowEntry)
    → get_elem? t i ≡ some e
    → tracks frame e ≡ false
    → tracks frame (f e) ≡ false
    → sharers (modify t i f) frame ≡ sharers t frame
unfolding sharers
sharers-other [] frame i f e at before now = absurd (cc)
sharers-other (x ∷ xs) frame zero f e at before now =
    let same : x ≡ e = some-injective _ _ at in rw (same, before, now)
sharers-other (x ∷ xs) frame (suc i) f e at before now = elim (Bool-cases (tracks frame x)) [
  | inl here ↦ rw here
  | inr away ↦ rw away (sharers-other xs frame i f e at before now)
]
