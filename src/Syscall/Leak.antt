-- ===== src/Syscall/Leak.antt =====
-- Syscall 9 with a full handle table.
use minic_os.Base.{ℕ, suc, ◌≡◌, sym, ◌∙◌, true, false, Option, none, some, arith}
use minic_os.Base.Int.{ℤ, pos, int_of, index_below}
use minic_os.Base.Exec.{done, >>=-eq-done, at_index-eq-done, done-injective}
use minic_os.Ipc.Object.{Handle, KernelObject, Objects, alloc_handle, handle_at, object_at}
use minic_os.Ipc.Object.Count.{Allocated, alloc_object_lem}
use minic_os.Ipc.Object.Grant.{Granted, alloc_handle_lem}
use minic_os.Syscall.State.{Kernel, Outcome, returns, failure, right_receive, caller_process}
use minic_os.Syscall.NewObject.{publish, publish_slot, publish_handle}
use minic_os.Syscall.Channels.{obj_channel, channel_open, channel_open_for, channel_open_at}
use minic_os.Syscall.Open.{used_objects}

-- The call fails, no handle changes, and one object more is used.
abbrev pub Leaks : Kernel → Outcome → Type 0
Leaks k r =
    (u : Objects) × (r ≡ returns failure (record k { tables = u }))
    × (u.handle_tables ≡ k.tables.handle_tables)
    × (used_objects u ≡ suc (used_objects k.tables))

same_entries :
    (t u : Objects) (p j : ℕ)
    → u.handle_tables ≡ t.handle_tables
    → handle_at u p j ≡ handle_at t p j
unfolding handle_at
same_entries t u p j e = rw e

module _ (k : Kernel) (p : ℕ)
    (table_full : (j : ℕ) (h : Handle) → handle_at k.tables p j ≡ done h → h.used ≡ true) where
  handle-Leaks :
      (kind : ℕ) (x : ℤ) (o : ℕ) (t : Objects) (q : Option ℕ × Objects) (r : Outcome)
      → Allocated k.tables kind x (some o, t)
      → Granted t p o right_receive q
      → publish_handle k q ≡ done r
      → Leaks k r
  unfolding publish_handle
  handle-Leaks kind x o t q r
        (Allocated.taken i b u before at idle new others counted incremented same)
        (Granted.full all) e =
      (t, sym (done-injective e), same, counted)
  handle-Leaks kind x o t q r
        (Allocated.taken i b u before at idle new others counted incremented same)
        (Granted.taken j h found free first) e =
      let busy = table_full j h (sym (same_entries k.tables t p j same) ∙ found) in
      absurd (ground (arith, busy, free))

  slot-Leaks :
      (kind : ℕ) (x : ℤ) (i : ℕ) (o : KernelObject) (s : Option ℕ × Objects) (r : Outcome)
      → object_at k.tables i ≡ done o
      → o.used ≡ false
      → Allocated k.tables kind x s
      → publish_slot k p right_receive s ≡ done r
      → Leaks k r
  unfolding publish_slot object_at
  slot-Leaks kind x i o (none, t) r at idle (Allocated.full all) e =
      absurd (ground (arith, all i o (at_index-eq-done _ o at), idle))
  slot-Leaks kind x i o (some n, t) r at idle a e =
      let (q, run, e') = >>=-eq-done (alloc_handle t p n right_receive) _ e in
      handle-Leaks kind x n t q r a (alloc_handle_lem t p n right_receive q run) e'

-- If the caller's handle table is full, an object slot is free and the channel exists, then syscall 9
-- fails, where it does not fault, and leaves one more object used with no new handle on it.
pub channel_open-Leaks :
    (k : Kernel) (a1 p index i : ℕ) (o : KernelObject) (r : Outcome)
    → caller_process k ≡ done (pos p)
    → index_below k.channels.channel_count (int_of a1) ≡ some index
    → ((j : ℕ) (h : Handle) → handle_at k.tables p j ≡ done h → h.used ≡ true)
    → object_at k.tables i ≡ done o
    → o.used ≡ false
    → channel_open k a1 ≡ done r
    → Leaks k r
unfolding channel_open channel_open_for channel_open_at publish
channel_open-Leaks k a1 p index i o r calls exists table_full at idle e =
    slot-Leaks k p table_full obj_channel (pos index) i o _ r at idle
      (alloc_object_lem k.tables obj_channel (pos index)) (simp (calls, exists) at e)
