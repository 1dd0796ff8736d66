-- ===== src/Mm/Cow.antt =====
-- kernel/mm/cow/cow.c: how many address spaces share a copy-on-write frame. Each function runs with
-- interrupts off, so it is one step.
pub mod Sharers
pub mod Lookup
pub mod Track
pub mod Drop
use minic_os.Base.{
  ℕ, suc, Bool, true, false, not, ◌&&◌, Option, none, some, List, ◌==◌, if◌then◌else◌, get_elem?,
  modify,
}
use minic_os.Base.Int.{ℤ, pos, negsuc, ◌-ℤ◌, increment}
use minic_os.Base.Slots.{position, claim}
use minic_os.Base.Exec.{Exec, done, ◌>>=◌, at_index}

-- `cow_entry`
pub record CowEntry : Type 0 where
  pub used : Bool
  pub frame : ℕ
  pub refcount : ℤ

-- The test of `find_slot`.
abbrev pub tracks : ℕ → CowEntry → Bool
tracks frame e = e.used && e.frame == frame

unfoldable pub find_slot : List CowEntry → ℕ → Option ℕ
find_slot table frame = position (tracks frame) table

-- The test `refcount <= 0`.
abbrev pub at_most_zero : ℤ → Bool
at_most_zero (pos n) = n == 0
at_most_zero (negsuc n) = true

-- The second loop of `cow_track`: the first unused slot starts with two sharers.
unfoldable pub start_tracking : List CowEntry → ℕ → Bool × List CowEntry
start_tracking table frame = elim (position (λ e. not e.used) table) [
  | none ↦ (false, table)
  | some i ↦ (true, modify table i (λ e. record { used = true; frame = frame; refcount = pos 2 }))
]

unfoldable pub cow_track : List CowEntry → ℕ → Bool × List CowEntry
unfolding find_slot start_tracking
cow_track table frame = elim (find_slot table frame) [
  | some slot ↦ (true, modify table slot (λ e. record e { refcount = increment e.refcount }))
  | none ↦ start_tracking table frame
]

unfoldable pub cow_is_shared : List CowEntry → ℕ → Bool
unfolding find_slot
cow_is_shared table frame = elim (find_slot table frame) [ none ↦ false | some slot ↦ true ]

-- The slot with one sharer less, and unused when that was the last.
abbrev pub dropped : CowEntry → CowEntry
dropped e =
    let refcount : ℤ = e.refcount -ℤ pos 1 in
    if at_most_zero refcount
    then record { used = false; frame = e.frame; refcount = refcount }
    else record e { refcount = refcount }

unfoldable pub cow_should_free : List CowEntry → ℕ → Exec (Bool × List CowEntry)
unfolding find_slot
cow_should_free table frame = elim (find_slot table frame) [
  | none ↦ done (true, table)
  | some slot ↦ do
    e ← at_index (get_elem? table slot)
    done (at_most_zero (e.refcount -ℤ pos 1), modify table slot dropped)
]
