-- ===== src/Syscall/Open.antt =====
-- What syscall 52 (`pipe_open`) leaves behind.
use minic_os.Base.{
  ℕ, suc, ◌≡◌, refl, sym, ap, subst, ◌∙◌, true, false, Option, none, some, ◌==◌, if◌then◌else◌,
  arith,
}
use minic_os.Base.Int.{ℤ, pos, negsuc, int_of}
use minic_os.Base.Slots.{count_if, count_if-modify_fails}
use minic_os.Base.Exec.{done, >>=-eq-done, at_index-eq-done, done-injective}
use minic_os.Ipc.Object.{
  KernelObject, Handle, Objects, free_object, freed, alloc_handle, handle_at, object_at,
}
use minic_os.Ipc.Object.Count.{is_used, Allocated, alloc_object_lem}
use minic_os.Ipc.Object.Grant.{Granted, full, taken, handle_at-change_self, alloc_handle_lem}
use minic_os.Syscall.State.{
  Kernel, Outcome, returns, failure, right_send, right_receive, caller_process,
}
use minic_os.Syscall.Pipes.{obj_pipe, pipe_open, pipe_open_for}
use minic_os.Syscall.NewObject.{open_slot, open_handle}

abbrev pub right_of : ℕ → ℕ
right_of a2 = if a2 == 0 then right_receive else right_send

abbrev pub used_objects : Objects → ℕ
used_objects t = count_if is_used t.objects

-- A refused call leaves every handle and the number of used objects as they were. Otherwise a free
-- entry of the caller's table becomes a handle, with the right asked for, on a pipe object for the
-- number asked for.
pub data Opened (k : Kernel) (a1 a2 : ℕ) : Outcome → Type 0 where
  refused :
      (u : Objects)
      → u.handle_tables ≡ k.tables.handle_tables
      → used_objects u ≡ used_objects k.tables
      → Opened k a1 a2 (returns failure (record k { tables = u }))
  opened :
      (p h o : ℕ) (g : Handle) (u : Objects)
      → caller_process k ≡ done (pos p)
      → handle_at k.tables p h ≡ done g
      → g.used ≡ false
      → handle_at u p h ≡ done (record { used = true; object_index = o; rights = right_of a2 })
      → object_at u o ≡ done (record { used = true; kind = obj_pipe; data_index = int_of a1 })
      → Opened k a1 a2 (returns h (record k { tables = u }))

suc-injective : (m n : ℕ) → suc m ≡ suc n → m ≡ n
suc-injective m n e = omega arith

free_object-eq :
    (t : Objects) (i : ℕ) (o : KernelObject) (u : Objects)
    → object_at t i ≡ done o
    → free_object t i ≡ done u
    → freed t i ≡ u
unfolding free_object object_at
free_object-eq t i o u at e = done-injective (rw (at_index-eq-done _ o at) at e)

same_handles :
    (t u : Objects) (p i : ℕ)
    → t.handle_tables ≡ u.handle_tables
    → handle_at t p i ≡ handle_at u p i
unfolding handle_at
same_handles t u p i e = rw e

-- The object table after a failed `alloc_handle`, with the new object freed again.
undone_used :
    (t : Objects) (kind : ℕ) (x : ℤ) (o : ℕ) (u v : Objects)
    → Allocated t kind x (some o, u)
    → free_object u o ≡ done v
    → (v.handle_tables ≡ t.handle_tables) × (used_objects v ≡ used_objects t)
unfolding object_at
undone_used t kind x o u v
      (Allocated.taken i b u' before at idle new others counted incremented same) e =
    let run : freed u' i ≡ v = free_object-eq u' i _ v new e in
    (
      sym (ap (λ (w : Objects). w.handle_tables) run) ∙ same,
      sym (ap used_objects run)
          ∙ suc-injective _ _ (
              count_if-modify_fails is_used u'.objects i _ _ (at_index-eq-done _ _ new) refl refl
              ∙ counted),
    )

module _ (k : Kernel) (a1 a2 p : ℕ) (calls : caller_process k ≡ done (pos p)) where
  handle_Opened :
      (o : ℕ) (t : Objects) (q : Option ℕ × Objects) (r : Outcome)
      → Allocated k.tables obj_pipe (int_of a1) (some o, t)
      → Granted t p o (right_of a2) q
      → open_handle k o q ≡ done r
      → Opened k a1 a2 r
  unfolding open_handle object_at
  handle_Opened o t q r a (full none_free) e =
      let (v, run, e') = >>=-eq-done (free_object t o) _ e in
      let (handles, count) = undone_used k.tables obj_pipe (int_of a1) o t v a run in
      subst (Opened k a1 a2) (done-injective e') (refused v handles count)
  handle_Opened o t q r
        (Allocated.taken i b t' first was was_idle new others counted incremented same)
        (taken j h at idle before) e =
      subst (Opened k a1 a2) (done-injective e) (
        opened p j i h _ calls (sym (same_handles _ _ p j same) ∙ at) idle
          (handle_at-change_self t' p j _ h at) new)

  slot_Opened :
      (s : Option ℕ × Objects) (r : Outcome)
      → Allocated k.tables obj_pipe (int_of a1) s
      → open_slot k p (right_of a2) s ≡ done r
      → Opened k a1 a2 r
  unfolding open_slot
  slot_Opened (none, t) r a e =
      subst (Opened k a1 a2) (done-injective e) (refused k.tables refl refl)
  slot_Opened (some o, t) r a e =
      let (q, run, e') = >>=-eq-done (alloc_handle t p o (right_of a2)) _ e in
      handle_Opened o t q r a (alloc_handle_lem t p o (right_of a2) q run) e'

-- Where syscall 52 does not fault, it fails and leaves every handle and the number of used objects
-- as they were, or it makes a free entry of the caller's table a handle, with the right asked for,
-- on a pipe object for the number asked for.
pub pipe_open_lem :
    (k : Kernel) (a1 a2 : ℕ) (r : Outcome) → pipe_open k a1 a2 ≡ done r → Opened k a1 a2 r
unfolding pipe_open
pipe_open_lem k a1 a2 r e = go (>>=-eq-done (caller_process k) _ e)
  where
    go :
        (c : ℤ) × (caller_process k ≡ done c) × (pipe_open_for k a1 a2 c ≡ done r)
        → Opened k a1 a2 r
    go (negsuc n, calls, e') =
        subst (Opened k a1 a2) (done-injective e') (refused k.tables refl refl)
    go (pos p, calls, e') =
        slot_Opened k a1 a2 p calls _ r (alloc_object_lem k.tables obj_pipe (int_of a1)) e'
