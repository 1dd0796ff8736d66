-- ===== src/Mm/Cow/Sharers.antt =====
-- The shape of the table of shared frames, and a change of one slot.
use native.Mathlib.Decide.{ℕ_discrete}
use mathlib.Core.Option.{some-injective}
use minic_os.Base.{
  ℕ, suc, ◌≡◌, ◌≢◌, sym, ap, subst, ◌∙◌, ◌⊎◌, inl, inr, true, false, some, List, get_elem?, modify,
  get_elem?-modify_self, get_elem?-modify_ne, Bool-cases, arith,
}
use minic_os.Base.Int.{ℤ, pos}
use minic_os.Mm.Cow.{CowEntry, tracks}
use minic_os.Mm.Cow.Lookup.{sharers, sharers-other}

abbrev pub Positive : ℤ → Type 0
Positive x = (n : ℕ) × (x ≡ pos (suc n))

-- A used slot counts at least one sharer, and no two used slots track one frame.
pub record IsValid (t : List CowEntry) : Type 0 where
  pub positive :
      (i : ℕ) (e : CowEntry) → get_elem? t i ≡ some e → e.used ≡ true → Positive e.refcount
  pub distinct :
      (i j : ℕ) (a b : CowEntry)
      → get_elem? t i ≡ some a
      → get_elem? t j ≡ some b
      → a.used ≡ true
      → b.used ≡ true
      → a.frame ≡ b.frame
      → i ≡ j

-- A change of one slot.
module _ (t : List CowEntry) (i : ℕ) (f : CowEntry → CowEntry) (e : CowEntry)
    (at : get_elem? t i ≡ some e) where
  pub entry_cases :
      (j : ℕ) (b : CowEntry)
      → get_elem? (modify t i f) j ≡ some b
      → ((j ≡ i) × (f e ≡ b)) ⊎ ((j ≢ i) × (get_elem? t j ≡ some b))
  entry_cases j b h = elim (ℕ_discrete j i) [
    | yes same ↦ inl (
      same,
      some-injective _ _ (
          sym (get_elem?-modify_self t i f e at)
          ∙ subst (λ m. get_elem? (modify t i f) m ≡ some b) same h),
    )
    | no ne ↦ inr (ne, sym (get_elem?-modify_ne t i j f (λ u. ne (sym u))) ∙ h)
  ]

  pub change-IsValid :
      IsValid t
      → ((f e).used ≡ true → Positive (f e).refcount)
      → ((j : ℕ) (b : CowEntry)
          → j ≢ i
          → get_elem? t j ≡ some b
          → b.used ≡ true
          → (f e).used ≡ true
          → b.frame ≢ (f e).frame)
      → IsValid (modify t i f)
  change-IsValid v counts alone = record { positive = positive; distinct = distinct }
    where
      positive :
          (j : ℕ) (b : CowEntry)
          → get_elem? (modify t i f) j ≡ some b
          → b.used ≡ true
          → Positive b.refcount
      positive j b h u = elim (entry_cases j b h) [
        | inl (same, eq) ↦ subst (λ (b : CowEntry). Positive b.refcount) eq (counts (rw eq u))
        | inr (ne, old) ↦ v.positive j b old u
      ]

      distinct :
          (j k : ℕ) (a b : CowEntry)
          → get_elem? (modify t i f) j ≡ some a
          → get_elem? (modify t i f) k ≡ some b
          → a.used ≡ true
          → b.used ≡ true
          → a.frame ≡ b.frame
          → j ≡ k
      distinct j k a b ha hb ua ub eq = elim (entry_cases j a ha) [
        | inl (sj, ea) ↦ elim (entry_cases k b hb) [
          | inl (sk, eb) ↦ sj ∙ sym sk
          | inr (nk, old) ↦
              absurd
                (alone k b nk old ub (rw ea ua) (sym eq ∙ ap (λ (x : CowEntry). x.frame) (sym ea)))
        ]
        | inr (nj, old) ↦ elim (entry_cases k b hb) [
          | inl (sk, eb) ↦
              absurd (alone j a nj old ua (rw eb ub) (eq ∙ ap (λ (x : CowEntry). x.frame) (sym eb)))
          | inr (nk, old') ↦ v.distinct j k a b old old' ua ub eq
        ]
      ]

  pub elsewhere :
      (frame g : ℕ)
      → g ≢ frame
      → (e.used ≡ true → e.frame ≡ frame)
      → ((f e).used ≡ true → (f e).frame ≡ frame)
      → sharers (modify t i f) g ≡ sharers t g
  elsewhere frame g ne before after =
      sharers-other t g i f e at (not_tracked e before) (not_tracked (f e) after)
    where
      not_tracked : (x : CowEntry) → (x.used ≡ true → x.frame ≡ frame) → tracks g x ≡ false
      not_tracked x h = elim (Bool-cases x.used) [
        | inr off ↦ ground arith
        | inl on ↦ ground (arith, h on)
      ]

pub tracks_frame :
    (frame : ℕ) (e : CowEntry) → tracks frame e ≡ true → (e.used ≡ true) × (e.frame ≡ frame)
tracks_frame frame e h = ground arith

pub frame_tracks :
    (frame : ℕ) (e : CowEntry) → e.used ≡ true → e.frame ≡ frame → tracks frame e ≡ true
frame_tracks frame e h k = ground arith
