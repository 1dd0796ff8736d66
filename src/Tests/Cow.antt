-- ===== src/Tests/Cow.antt =====
-- The sharers of a frame that two address spaces map.
use minic_os.Base.{
  ℕ, zero, suc, ◌-◌, ◌^◌, ◌<◌, ◌≡◌, refl, sym, ap, ◌∙◌, Bool, true, false, some, List, [], ◌∷◌,
  get_elem?, arith,
}
use mathlib.Core.Option.{some-injective}
use minic_os.Base.Int.{pos}
use minic_os.Base.Exec.{done}
use minic_os.Mm.Cow.{CowEntry, cow_track, cow_should_free}
use minic_os.Mm.Cow.Lookup.{sharers}
use minic_os.Mm.Cow.Sharers.{IsValid}
use minic_os.Mm.Cow.Track.{Tracked, cow_track_lem}
use minic_os.Mm.Cow.Drop.{Dropped, cow_should_free_lem}

abbrev two_sharers : CowEntry
two_sharers = record { used = true; frame = 4096; refcount = pos 2 }

abbrev no_entry : CowEntry
no_entry = record { used = false; frame = 0; refcount = pos 0 }

abbrev table : List CowEntry
table = two_sharers ∷ no_entry ∷ []

only_first :
    (i : ℕ) (e : CowEntry)
    → get_elem? table i ≡ some e
    → e.used ≡ true
    → (i ≡ 0) × (two_sharers ≡ e)
only_first zero e at u = (refl, some-injective _ _ at)
only_first (suc zero) e at u =
    let same : no_entry ≡ e = some-injective _ _ at in
    absurd (ground (arith, ap (λ (x : CowEntry). x.used) same))
only_first (suc (suc i)) e at u = absurd (cc)

table-IsValid : IsValid table
table-IsValid = record {
  positive = λ i e at u. (1, ap (λ (x : CowEntry). x.refcount) (sym ((only_first i e at u).1)));
  distinct = λ i j a b ha hb ua ub eq. (only_first i a ha ua).0 ∙ sym ((only_first j b hb ub).0);
}

few_sharers : sharers table 4096 < 2 ^ 31 - 1
unfolding sharers
few_sharers = omega arith

cow_track_lem_example : IsValid (cow_track table 4096).1 × Tracked table 4096 (cow_track table 4096)
cow_track_lem_example = cow_track_lem table 4096 table-IsValid few_sharers

cow_should_free_lem_example :
    (r : Bool × List CowEntry) × (cow_should_free table 4096 ≡ done r)
    × IsValid r.1
    × Dropped table 4096 r
cow_should_free_lem_example = cow_should_free_lem table 4096 table-IsValid
