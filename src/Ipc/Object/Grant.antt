-- ===== src/Ipc/Object/Grant.antt =====
-- What `alloc_handle` and `free_handle` do to the handle tables.
use minic_os.Base.{
  ℕ, ◌<◌, ◌≡◌, sym, subst, ap, ◌≢◌, ◌⊎◌, inl, inr, true, false, Option, none, some, List, get_elem?,
  modify, get_elem?-modify_self, get_elem?-modify_ne, modify-none, arith, Option-cases,
}
use native.Mathlib.Decide.{ℕ_discrete}
use minic_os.Base.Slots.{position-cases}
use minic_os.Base.Exec.{done, at_index, >>=-eq-done, at_index-eq-done, done-injective}
use minic_os.Ipc.Object.{Handle, Objects, handle_is_free, alloc_handle, free_handle, handle_at}

-- The state after a change of the handle `i` of `p`.
abbrev pub change_handle : Objects → ℕ → ℕ → (Handle → Handle) → Objects
change_handle t p i f = record t { handle_tables = modify t.handle_tables p (λ hs. modify hs i f) }

pub handle_at-change_self :
    (t : Objects) (p i : ℕ) (f : Handle → Handle) (h : Handle)
    → handle_at t p i ≡ done h
    → handle_at (change_handle t p i f) p i ≡ done (f h)
unfolding handle_at
handle_at-change_self t p i f h e =
    let (hs, at, e') = >>=-eq-done (at_index (get_elem? t.handle_tables p)) _ e in
    let table : get_elem? t.handle_tables p ≡ some hs = at_index-eq-done _ hs at in
    let entry : get_elem? hs i ≡ some h = at_index-eq-done _ h e' in
    rw (
      get_elem?-modify_self t.handle_tables p (λ hs. modify hs i f) hs table,
      get_elem?-modify_self hs i f h entry,
    )

pub handle_at-change_ne :
    (t : Objects) (p i : ℕ) (f : Handle → Handle) (q j : ℕ)
    → (q ≢ p) ⊎ (j ≢ i)
    → handle_at (change_handle t p i f) q j ≡ handle_at t q j
unfolding handle_at
handle_at-change_ne t p i f q j (inl other) =
    rw (get_elem?-modify_ne t.handle_tables p q (λ hs. modify hs i f) (λ e. other (sym e)))
handle_at-change_ne t p i f q j (inr other) = elim (ℕ_discrete q p) [
  | no ne ↦ rw (get_elem?-modify_ne t.handle_tables p q (λ hs. modify hs i f) (λ e. ne (sym e)))
  | yes same ↦ rw same (elim (Option-cases (get_elem? t.handle_tables p)) [
    | inl miss ↦ rw (modify-none t.handle_tables p (λ hs. modify hs i f) miss)
    | inr (hs, at) ↦
        rw (get_elem?-modify_self t.handle_tables p (λ hs. modify hs i f) hs at, at)
          (ap at_index (get_elem?-modify_ne hs i j f (λ e. other (sym e))))
  ])
]

-- What `alloc_handle` returns.
pub data Granted (t : Objects) (p o rights : ℕ) : Option ℕ × Objects → Type 0 where
  full :
      ((j : ℕ) (h : Handle) → handle_at t p j ≡ done h → h.used ≡ true)
      → Granted t p o rights (none, t)
  taken :
      (i : ℕ) (h : Handle)
      → handle_at t p i ≡ done h
      → h.used ≡ false
      → ((j : ℕ) (g : Handle) → j < i → handle_at t p j ≡ done g → g.used ≡ true)
      → Granted t p o rights (
        some i,
        change_handle t p i (λ _. record { used = true; object_index = o; rights = rights }),
      )

not_free : (h : Handle) → handle_is_free h ≡ false → h.used ≡ true
not_free h e = ground arith

free_unused : (h : Handle) → handle_is_free h ≡ true → h.used ≡ false
free_unused h e = ground arith

entry_of :
    (t : Objects) (p : ℕ) (hs : List Handle) (j : ℕ) (h : Handle)
    → get_elem? t.handle_tables p ≡ some hs
    → handle_at t p j ≡ done h
    → get_elem? hs j ≡ some h
unfolding handle_at
entry_of t p hs j h table lookup = at_index-eq-done _ h (rw table at lookup)

-- Where `alloc_handle` does not fault, it fills in the first unused entry of the process's table
-- with the object and the rights given, or every entry is used, and it fails and changes nothing.
pub alloc_handle_lem :
    (t : Objects) (p o rights : ℕ) (r : Option ℕ × Objects)
    → alloc_handle t p o rights ≡ done r
    → Granted t p o rights r
unfolding alloc_handle handle_at
alloc_handle_lem t p o rights r e =
    let (hs, at, e') = >>=-eq-done (at_index (get_elem? t.handle_tables p)) _ e in
    let table : get_elem? t.handle_tables p ≡ some hs = at_index-eq-done _ hs at in
    elim (position-cases handle_is_free hs) [
      | inl (miss, none_free) ↦
          subst (Granted t p o rights) (done-injective (rw miss at e'))
            (full (λ j h lookup. not_free h (none_free j h (entry_of t p hs j h table lookup))))
      | inr (i, h, found, f) ↦ subst (Granted t p o rights) (done-injective (rw found at e')) (
          taken i h (rw (table, f.here)) (free_unused h f.passes)
            (λ j g lt lookup. not_free g (f.first j g lt (entry_of t p hs j g table lookup))))
    ]

-- Freeing a handle clears its `used` and nothing else.
pub free_handle_lem :
    (t : Objects) (p i : ℕ) (u : Objects)
    → free_handle t p i ≡ done u
    → u ≡ change_handle t p i (λ h. record h { used = false })
unfolding free_handle
free_handle_lem t p i u e =
    let (hs, at, e') = >>=-eq-done (at_index (get_elem? t.handle_tables p)) _ e in
    let (h, at', e'') = >>=-eq-done (at_index (get_elem? hs i)) _ e' in sym (done-injective e'')
