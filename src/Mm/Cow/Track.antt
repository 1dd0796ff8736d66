-- ===== src/Mm/Cow/Track.antt =====
-- `cow_track` counts one sharer more.
use minic_os.Base.{
  ℕ, suc, ◌-◌, ◌^◌, ◌<◌, ◌≡◌, ◌≢◌, refl, sym, ap, ◌∙◌, inl, inr, Bool, true, false, not, some, List,
  get_elem?, modify, arith,
}
use minic_os.Base.Int.{pos, pos_part, increment, increment-pos}
use minic_os.Base.Slots.{Found, Missing, position-cases}
use minic_os.Mm.Cow.{CowEntry, tracks, find_slot, start_tracking, cow_track}
use minic_os.Mm.Cow.Lookup.{sharers, sharers-Missing, sharers-Found, sharers-modify}
use minic_os.Mm.Cow.Sharers.{IsValid, change-IsValid, elsewhere, tracks_frame, frame_tracks}

-- What `cow_track` does: the frame has one sharer more and every other frame as many as before, or the
-- table is full and nothing changes.
pub data Tracked (t : List CowEntry) (frame : ℕ) : Bool × List CowEntry → Type 0 where
  tracked :
      (u : List CowEntry)
      → sharers u frame ≡ suc (sharers t frame)
      → ((g : ℕ) → g ≢ frame → sharers u g ≡ sharers t g)
      → Tracked t frame (true, u)
  full :
      ((j : ℕ) (b : CowEntry) → get_elem? t j ≡ some b → (b.used ≡ true) × (b.frame ≢ frame))
      → Tracked t frame (false, t)

-- From a valid table in which the frame has fewer sharers than the largest `int`, 2^31 - 1,
-- `cow_track` leaves a valid one; it succeeds with one sharer more of the frame and
-- every other frame shared as before, or fails, changing nothing, with every slot used for another
-- frame.
pub cow_track_lem :
    (t : List CowEntry) (frame : ℕ)
    → IsValid t
    → sharers t frame < 2 ^ 31 - 1
    → IsValid (cow_track t frame).1 × Tracked t frame (cow_track t frame)
unfolding cow_track find_slot
cow_track_lem t frame v few = elim (position-cases (tracks frame) t) [
  | inr (i, e, found, f) ↦ rw (found, cow_track) (again i e f)
  | inl (missing, none_tracks) ↦ rw (missing, cow_track) (fresh none_tracks)
]
  where
    Goal : Bool × List CowEntry → Type 0
    Goal r = IsValid r.1 × Tracked t frame r

    more : CowEntry → CowEntry
    more e = record e { refcount = increment e.refcount }

    again : (i : ℕ) (e : CowEntry) → Found (tracks frame) t i e → Goal (true, modify t i more)
    again i e f =
        let (used, same) = tracks_frame frame e f.passes in
        let (n, count) = v.positive i e f.here used in
        let now : sharers t frame ≡ suc n = sharers-Found t frame i e f ∙ ap pos_part count in
        let up : increment e.refcount ≡ pos (suc (suc n)) =
          ap increment count ∙ increment-pos (suc n) (omega arith) in
        (
          change-IsValid t i more e f.here v (λ u. (suc n, up))
              (λ j b ne at ub ue eq. ne (v.distinct j i b e at f.here ub used eq)),
          tracked (modify t i more)
              (sharers-modify t frame i more e f.here f.first
                  (frame_tracks frame (more e) used same)
                ∙ ap pos_part up
                ∙ sym (ap suc now))
              (λ g ne. elsewhere t i more e f.here frame g ne (λ u. same) (λ u. same)),
        )

    start : CowEntry → CowEntry
    start e = record { used = true; frame = frame; refcount = pos 2 }

    other_frame :
        Missing (tracks frame) t
        → (j : ℕ) (b : CowEntry) → get_elem? t j ≡ some b
        → b.used ≡ true
        → b.frame ≢ frame
    other_frame m j b at u same = absurd (ground (arith, m j b at, frame_tracks frame b u same))

    fresh : Missing (tracks frame) t → Goal (start_tracking t frame)
    fresh m = elim (position-cases (λ (e : CowEntry). not e.used) t) [
      | inl (no_room, all) ↦
          rw (no_room, start_tracking)
            (
              v,
              full (λ j b at.
                  let u : b.used ≡ true = ground (arith, all j b at) in
                  (u, other_frame m j b at u)),
            )
      | inr (i, e, room, f) ↦
          let idle : e.used ≡ false = ground (arith, f.passes) in
          rw (room, start_tracking)
            (
              change-IsValid t i start e f.here v (λ u. (1, refl))
                  (λ j b ne at ub ue eq. other_frame m j b at ub eq),
              tracked (modify t i start)
                  (sharers-modify t frame i start e f.here (λ j b lt at. m j b at)
                      (frame_tracks frame (start e) refl refl)
                    ∙ sym (ap suc (sharers-Missing t frame m)))
                  (λ g ne.
                    elsewhere t i start e f.here frame g ne (λ u. absurd (ground (arith, idle, u)))
                      (λ u. refl)),
            )
    ]
