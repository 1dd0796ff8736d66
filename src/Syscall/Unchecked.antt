-- ===== src/Syscall/Unchecked.antt =====
-- Syscall 52 does not check its pipe number.
use minic_os.Base.{ℕ, ◌^◌, ◌≤◌, ◌<◌, ◌≡◌, refl, ap, true, some, length, arith, get_elem?-beyond}
use minic_os.Base.Int.{pos, int_of, index_below}
use minic_os.Base.Exec.{done, fault}
use minic_os.Ipc.Object.{Objects, handles_per_process, handle_at, object_at}
use minic_os.Syscall.State.{
  Kernel, Outcome, returns, waits, unclaimed, failure, right_send, caller_process,
}
use minic_os.Syscall.Pipes.{obj_pipe, pipe_open, pipe_send}
use minic_os.Syscall.Rights.{Entitled, resolve_iff}
use minic_os.Syscall.Open.{right_of, Opened, refused, opened, pipe_open_lem}

abbrev pub pipe_slots : ℕ
pipe_slots = 4

result_of : Outcome → ℕ
result_of (returns v k) = v
result_of (waits k) = 0
result_of unclaimed = 0

kernel_of : Kernel → Outcome → Kernel
kernel_of k (returns v u) = u
kernel_of k (waits u) = u
kernel_of k unclaimed = k

small_int : (n : ℕ) → n < 2 ^ 31 → int_of n ≡ pos n
small_int n h = ground arith

small_index :
    (n : ℕ) → n < handles_per_process → index_below handles_per_process (int_of n) ≡ some n
small_index n h = ground arith

module _ (k : Kernel) (t : Objects) (p i o n address len : ℕ) (small : i < handles_per_process)
    (calls : caller_process k ≡ done (pos p))
    (granted : handle_at t p i
      ≡ done (record { used = true; object_index = o; rights = right_of 1 }))
    (object : object_at t o
      ≡ done (record { used = true; kind = obj_pipe; data_index = int_of n })) where
  entitled : Entitled (record k { tables = t }) i right_send obj_pipe (int_of n)
  unfolding caller_process
  entitled = record {
    process = p;
    slot = i;
    entry = record { used = true; object_index = o; rights = right_of 1 };
    object = record { used = true; kind = obj_pipe; data_index = int_of n };
    holds = record { calls = calls; index = small_index i small; found = granted; used = refl };
    permitted = λ e. omega arith;
    names = object;
    of_kind = refl;
    index = refl;
  }

  send_faults :
      length k.pipes ≤ n → n < 2 ^ 31 → pipe_send (record k { tables = t }) i address len ≡ fault
  unfolding pipe_send
  send_faults le lt =
      let resolved =
        (resolve_iff (record k { tables = t }) i right_send obj_pipe (int_of n)).1 entitled in
      rw (resolved, small_int n lt, get_elem?-beyond k.pipes n le)

-- For every pipe number from 4 to 2 ^ 31 - 1: once syscall 52 has granted a handle to send, the
-- first write through that handle leaves the array of pipes.
pub pipe_send-pipe_open_faults :
    (k u : Kernel) (n h address len : ℕ)
    → length k.pipes ≡ pipe_slots
    → pipe_slots ≤ n
    → n < 2 ^ 31
    → pipe_open k n 1 ≡ done (returns h u)
    → h < handles_per_process
    → pipe_send u h address len ≡ fault
unfolding result_of kernel_of
pipe_send-pipe_open_faults k u n h address len room le lt run small =
    go _ (pipe_open_lem k n 1 (returns h u) run) refl
  where
    go : (r : Outcome) → Opened k n 1 r → r ≡ returns h u → pipe_send u h address len ≡ fault
    go r (refused t a b) e = let high : failure ≡ h = ap result_of e in absurd (omega arith)
    go r (opened p i o g t calls at idle granted object) e =
        let same : i ≡ h = ap result_of e in
        let after : record k { tables = t } ≡ u = ap (kernel_of k) e in
        rw (← after, ← same)
          (send_faults k t p i o n address len (rw same small) calls granted object (omega arith)
            lt)
