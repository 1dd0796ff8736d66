-- ===== src/Mm/Cow/Drop.antt =====
-- `cow_should_free` takes one sharer off, and tells when it was the last.
use minic_os.Base.{
  ℕ, zero, suc, ◌≡◌, ◌≢◌, refl, sym, ap, ◌∙◌, inl, inr, Bool, true, false, some, List, ◌==◌,
  get_elem?, modify, Bool-cases, arith,
}
use minic_os.Base.Int.{pos, pos_part, ◌-ℤ◌}
use minic_os.Base.Slots.{Found, Missing, position-cases}
use minic_os.Base.Exec.{done}
use minic_os.Mm.Cow.{CowEntry, tracks, find_slot, at_most_zero, dropped, cow_should_free}
use minic_os.Mm.Cow.Lookup.{sharers, sharers-Missing, sharers-Found, sharers-modify}
use minic_os.Mm.Cow.Sharers.{
  Positive, IsValid, entry_cases, change-IsValid, elsewhere, tracks_frame, frame_tracks,
}

sub_one : (n : ℕ) → pos (suc n) -ℤ pos 1 ≡ pos n
unfolding ◌-ℤ◌
sub_one n = ground arith

-- What `cow_should_free` does: the frame had one sharer and is no longer tracked, and the caller frees
-- it, or it has one sharer less and the caller keeps it.
pub data Dropped (t : List CowEntry) (frame : ℕ) : Bool × List CowEntry → Type 0 where
  last :
      (u : List CowEntry)
      → sharers t frame ≡ 1
      → Missing (tracks frame) u
      → ((g : ℕ) → g ≢ frame → sharers u g ≡ sharers t g)
      → Dropped t frame (true, u)
  shared :
      (u : List CowEntry)
      → suc (sharers u frame) ≡ sharers t frame
      → ((g : ℕ) → g ≢ frame → sharers u g ≡ sharers t g)
      → Dropped t frame (false, u)

-- A slot whose count is 1, or more, once one is taken off.
dropped_last :
    (e : CowEntry)
    → e.refcount ≡ pos 1
    → ((dropped e).used ≡ false) × (at_most_zero (e.refcount -ℤ pos 1) ≡ true)
dropped_last e h = let down : e.refcount -ℤ pos 1 ≡ pos 0 = rw h (sub_one 0) in rw down (refl, refl)

dropped_more :
    (e : CowEntry) (n : ℕ)
    → e.refcount ≡ pos (suc (suc n))
    → (dropped e ≡ record e { refcount = pos (suc n) })
      × (at_most_zero (e.refcount -ℤ pos 1) ≡ false)
dropped_more e n h =
    let down : e.refcount -ℤ pos 1 ≡ pos (suc n) = rw h (sub_one (suc n)) in
    let above : (suc n == 0) ≡ false = ground arith in simp (down, above) (refl, refl)

-- From a valid table `cow_should_free` does not fault and leaves a valid one. It tells the caller to
-- free the frame exactly when no other address space shares it, and then the frame is not tracked;
-- otherwise the frame has one sharer less. Every other frame is shared as before.
pub cow_should_free_lem :
    (t : List CowEntry) (frame : ℕ)
    → IsValid t
    → (r : Bool × List CowEntry) × (cow_should_free t frame ≡ done r)
      × IsValid r.1
      × Dropped t frame r
unfolding cow_should_free find_slot
cow_should_free_lem t frame v = elim (position-cases (tracks frame) t) [
  | inl (missing, m) ↦ (
    (true, t),
    rw (missing, cow_should_free),
    v,
    last t (sharers-Missing t frame m) m (λ g ne. refl),
  )
  | inr (i, e, found, f) ↦
      let (used, same) = tracks_frame frame e f.passes in
      rw (found, cow_should_free, f.here) (one_less i e f used same (v.positive i e f.here used))
]
  where
    alone :
        (i : ℕ) (e : CowEntry)
        → Found (tracks frame) t i e
        → e.used ≡ true
        → e.frame ≡ frame
        → (j : ℕ) (b : CowEntry) → j ≢ i
        → get_elem? t j ≡ some b
        → b.used ≡ true
        → b.frame ≢ frame
    alone i e f used same j b ne at u eq = ne (v.distinct j i b e at f.here u used (eq ∙ sym same))

    kept_frame : (e : CowEntry) → (dropped e).frame ≡ e.frame
    kept_frame e = elim (Bool-cases (at_most_zero (e.refcount -ℤ pos 1))) [
      | inl z ↦ rw z
      | inr z ↦ rw z
    ]

    gone :
        (i : ℕ) (e : CowEntry)
        → Found (tracks frame) t i e
        → e.used ≡ true
        → e.frame ≡ frame
        → (dropped e).used ≡ false
        → Missing (tracks frame) (modify t i dropped)
    gone i e f used same off j b at = elim (entry_cases t i dropped e f.here j b at) [
      | inl (here, eq) ↦ let idle : b.used ≡ false = rw (← eq) off in ground arith
      | inr (ne, old) ↦ elim (Bool-cases (tracks frame b)) [
        | inr away ↦ away
        | inl on ↦
            let (ub, fb) = tracks_frame frame b on in
            absurd (alone i e f used same j b ne old ub fb)
      ]
    ]

    Goal : Bool × List CowEntry → Type 0
    Goal p = (r : Bool × List CowEntry) × (done p ≡ done r) × IsValid r.1 × Dropped t frame r

    one_less :
        (i : ℕ) (e : CowEntry)
        → Found (tracks frame) t i e
        → e.used ≡ true
        → e.frame ≡ frame
        → Positive e.refcount
        → Goal (at_most_zero (e.refcount -ℤ pos 1), modify t i dropped)
    one_less i e f used same (zero, count) =
        let (off, answer) = dropped_last e count in
        let u : List CowEntry = modify t i dropped in
        (
          (true, u),
          rw answer,
          change-IsValid t i dropped e f.here v (λ on. absurd (ground (arith, off, on)))
              (λ j b ne at ub on. absurd (ground (arith, off, on))),
          last u (sharers-Found t frame i e f ∙ ap pos_part count) (gone i e f used same off)
              (λ g ne.
                elsewhere t i dropped e f.here frame g ne (λ _. same)
                  (λ on. absurd (ground (arith, off, on)))),
        )
    one_less i e f used same (suc n, count) =
        let (after, answer) = dropped_more e n count in
        let u : List CowEntry = modify t i dropped in
        let on : (dropped e).used ≡ true = ap (λ (x : CowEntry). x.used) after ∙ used in
        let left : (dropped e).refcount ≡ pos (suc n) = ap (λ (x : CowEntry). x.refcount) after in
        let at_frame : (dropped e).frame ≡ frame = kept_frame e ∙ same in
        (
          (false, u),
          rw answer,
          change-IsValid t i dropped e f.here v (λ _. (n, left))
              (λ j b ne at ub _ eq. alone i e f used same j b ne at ub (eq ∙ at_frame)),
          shared u
              (ap suc (
                  sharers-modify t frame i dropped e f.here f.first
                    (frame_tracks frame (dropped e) on at_frame)
                  ∙ ap pos_part left)
                ∙ sym (sharers-Found t frame i e f ∙ ap pos_part count))
              (λ g ne. elsewhere t i dropped e f.here frame g ne (λ _. same) (λ _. at_frame)),
        )
