-- ===== src/Syscall/Stale.antt =====
-- Syscall 13 on an object that another process also holds.
use minic_os.Base.{ℕ, ◌≡◌, ◌≢◌, refl, ◌∙◌, inl, true, false, some, get_elem?, get_elem?-modify_self}
use minic_os.Base.Exec.{done, at_index-eq-done, >>=-eq-done, at_index}
use minic_os.Ipc.Object.{
  Handle, KernelObject, Objects, freed, free_object, free_handle, handle_at, object_at,
}
use minic_os.Ipc.Object.Grant.{change_handle, handle_at-change_ne}
use minic_os.Syscall.State.{Kernel, returns}
use minic_os.Syscall.Handles.{handle_close}
use minic_os.Syscall.Rights.{Holds, Holds-caller_handle}

-- A used handle of the process `q` that names a freed object.
pub record Dangling (t : Objects) (q j : ℕ) : Type 0 where
  pub entry : Handle
  pub object : KernelObject
  pub held : handle_at t q j ≡ done entry
  pub used : entry.used ≡ true
  pub names : object_at t entry.object_index ≡ done object
  pub gone : object.used ≡ false

-- If the caller and another process both hold a handle on one object, and the caller closes its own by
-- syscall 13, the call succeeds and the other process is left with a used handle on a freed object.
pub handle_close-dangles :
    (k : Kernel) (a1 p i q j : ℕ) (h g : Handle) (o : KernelObject)
    → Holds k a1 p i h
    → q ≢ p
    → handle_at k.tables q j ≡ done g
    → g.used ≡ true
    → g.object_index ≡ h.object_index
    → object_at k.tables h.object_index ≡ done o
    → (u : Kernel) × (handle_close k a1 ≡ done (returns 0 u)) × Dangling u.tables q j
unfolding handle_close free_object free_handle handle_at object_at
handle_close-dangles k a1 p i q j h g o v ne other used same object =
    let (hs, at_table, at_entry) =
      >>=-eq-done (at_index (get_elem? k.tables.handle_tables p)) _ v.found in
    let there : get_elem? k.tables.objects h.object_index ≡ some o = at_index-eq-done _ o object in
    let t : Objects = freed k.tables h.object_index in
    let kept : handle_at (change_handle t p i (λ h. record h { used = false })) q j ≡ done g =
      handle_at-change_ne t p i (λ h. record h { used = false }) q j (inl ne) ∙ other in
    let cleared =
      get_elem?-modify_self k.tables.objects h.object_index (λ o. record o { used = false }) o
        there in
    (
      record k { tables = change_handle t p i (λ h. record h { used = false }) },
      simp (
        Holds-caller_handle k a1 p i h v,
        there,
        at_index-eq-done _ hs at_table,
        at_index-eq-done _ h at_entry,
      ),
      record {
        entry = g;
        object = record o { used = false };
        held = kept;
        used = used;
        names = rw (same, cleared);
        gone = refl;
      },
    )
