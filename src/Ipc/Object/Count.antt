-- ===== src/Ipc/Object/Count.antt =====
-- What `alloc_object` and `free_object` do to the table, and when `g_object_count` is right.
use minic_os.Base.{
  ℕ, suc, ◌<◌, ◌≡◌, refl, Bool, true, false, Option, none, some, inl, inr, ◌≢◌, get_elem?,
  get_elem?-modify_self, get_elem?-modify_ne, arith, subst, sym, ◌∙◌,
}
use minic_os.Base.Int.{ℤ, pos, ◌+ℤ◌, ◌-ℤ◌}
use minic_os.Base.Slots.{
  position-cases, Missing, count_if, count_if-modify_passes, count_if-modify_fails,
}
use minic_os.Base.Exec.{done, at_index-eq-done, done-injective}
use minic_os.Ipc.Object.{
  KernelObject, Objects, filled, freed, object_is_free, alloc_object, free_object, object_at,
}

abbrev pub is_used : KernelObject → Bool
is_used o = o.used

-- What `alloc_object` returns.
pub data Allocated (t : Objects) (kind : ℕ) (x : ℤ) : Option ℕ × Objects → Type 0 where
  full : Missing object_is_free t.objects → Allocated t kind x (none, t)
  taken :
      (i : ℕ) (o : KernelObject) (u : Objects)
      → ((j : ℕ) (b : KernelObject) → j < i → object_at t j ≡ done b → b.used ≡ true)
      → object_at t i ≡ done o
      → o.used ≡ false
      → object_at u i ≡ done (record { used = true; kind = kind; data_index = x })
      → ((j : ℕ) → j ≢ i → object_at u j ≡ object_at t j)
      → count_if is_used u.objects ≡ suc (count_if is_used t.objects)
      → u.object_count ≡ t.object_count +ℤ pos 1
      → u.handle_tables ≡ t.handle_tables
      → Allocated t kind x (some i, u)

used_of_not_free : (o : KernelObject) → object_is_free o ≡ false → o.used ≡ true
used_of_not_free o h = ground arith

free_is_unused : (o : KernelObject) → object_is_free o ≡ true → o.used ≡ false
free_is_unused o h = ground arith

pub alloc_object_lem : (t : Objects) (kind : ℕ) (x : ℤ) → Allocated t kind x (alloc_object t kind x)
unfolding alloc_object object_at
alloc_object_lem t kind x = elim (position-cases object_is_free t.objects) [
  | inl (e, m) ↦ rw (e, alloc_object) (full m)
  | inr (i, o, e, f) ↦
      rw (e, alloc_object)
        (taken i o _ (λ j b lt e'. used_of_not_free b (f.first j b lt (at_index-eq-done _ b e')))
          (rw f.here) (free_is_unused o f.passes)
          (rw (get_elem?-modify_self t.objects i _ o f.here))
          (λ j ne. rw (get_elem?-modify_ne t.objects i j _ (λ e'. ne (sym e'))))
          (count_if-modify_passes is_used t.objects i (filled kind x) o f.here
            (free_is_unused o f.passes) refl)
          refl refl)
]

-- The counter is the number of used slots.
abbrev pub Counted : Objects → Type 0
Counted t = t.object_count ≡ pos (count_if is_used t.objects)

-- If the counter is the number of used slots before `alloc_object`, it is so afterwards.
pub alloc_object-Counted :
    (t : Objects) (kind : ℕ) (x : ℤ) → Counted t → Counted (alloc_object t kind x).1
unfolding alloc_object ◌+ℤ◌
alloc_object-Counted t kind x c = elim (position-cases object_is_free t.objects) [
  | inl (e, m) ↦ rw (e, alloc_object) c
  | inr (i, o, e, f) ↦
      rw (e, alloc_object)
        (rw
          (
            c,
            count_if-modify_passes is_used t.objects i (filled kind x) o f.here
                (free_is_unused o f.passes) refl,
          )
          (ground arith))
]

-- If the counter is the number of used slots, it is so after `free_object` of a used slot.
pub free_object-Counted :
    (t : Objects) (i : ℕ) (o : KernelObject) (u : Objects)
    → Counted t
    → object_at t i ≡ done o
    → o.used ≡ true
    → free_object t i ≡ done u
    → Counted u
unfolding free_object object_at ◌-ℤ◌
free_object-Counted t i o u c e h f =
    let here : get_elem? t.objects i ≡ some o = at_index-eq-done _ o e in
    let after : freed t i ≡ u = done-injective (sym (rw here) ∙ f) in
    subst Counted after (
      rw c (
        ground (
          arith,
          count_if-modify_fails is_used t.objects i (λ o. record o { used = false }) o here h refl,
        )))
