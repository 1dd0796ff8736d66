-- ===== src/Tests/Kernel.antt =====
-- The scheduler, the sandbox and the syscalls on small states.
use minic_os.Base.{
  ℕ, zero, suc, ◌≡◌, ◌≢◌, refl, ap, ◌↔◌, ◌⊎◌, ◌<◌, true, false, List, some, [], ◌∷◌, get_elem?,
  modify, replicate, arith,
}
use minic_os.Base.Int.{pos, ◌+ℤ◌}
use minic_os.Base.Slots.{position}
use minic_os.Base.Exec.{Exec, done, fault}
use mathlib.Core.Option.{some-injective}
use minic_os.Ipc.Object.{KernelObject, Handle, alloc_object, alloc_handle, object_at}
use minic_os.Sched.Yield.{Tasks, yield, scan, settle, poll, wakes}
use minic_os.Sched.RoundRobin
use minic_os.Sched.RoundRobin.{ahead}
use minic_os.Sched.RoundRobin.Next.{Yielded, yield_lem, yield_fair}
use minic_os.Security.Sandbox.{
  obj_sandbox, policy_denies, handle_denies, denies_loop, sandbox_denies,
  sandbox_default_denied_low, sandbox_default_denied_high,
}
use minic_os.Security.Sandbox.Denial.{Restricted, sandbox_denies_iff}
use minic_os.Security.Sandbox.DefaultPolicy.{default_policy}
use minic_os.Syscall.State.{
  Kernel, Outcome, returns, refuse, right_query, right_send, caller_process, resolve,
}
use minic_os.Syscall.Pipes.{obj_pipe, pipe_open, pipe_send, pipe_open_for}
use minic_os.Syscall.NewObject.{open_object, open_slot, open_handle}
use minic_os.Syscall.Handles.{syscall_core}
use minic_os.Syscall.Dispatch.{syscall_dispatch}
use minic_os.Syscall.Rights.{Entitled, resolve_iff}
use minic_os.Syscall.Open.{Opened, pipe_open_lem}
use minic_os.Syscall.Unchecked.{pipe_send-pipe_open_faults}
use minic_os.Syscall.Claims.{Claimed}
use minic_os.Syscall.Denied.{syscall_dispatch-sandbox}
use minic_os.Syscall.Escape.{Confined, NoSandbox, syscall_dispatch-escape}
use minic_os.Tests.Fixtures.{
  boot_objects, free_slot, free_entry, empty_table, same_entry, sandboxed_objects, sandboxed_table,
  two_tasks, sleeper, no_flags, running,
}

two_tasks-IsValid : RoundRobin.IsValid two_tasks
two_tasks-IsValid = record {
  room = refl;
  some_task = omega arith;
  count_in = omega arith;
  current_in = omega arith;
}

yield_lem_example :
    (u : Tasks) × (yield no_flags 5 two_tasks ≡ done u) × Yielded no_flags 5 two_tasks u
yield_lem_example = yield_lem no_flags 5 two_tasks two_tasks-IsValid

abbrev woken : Tasks
unfolding poll wakes
woken = record two_tasks { tasks = modify two_tasks.tasks 1 (poll no_flags 5); current_task = 1 }

yield_fair_example : (woken.current_task ≡ 1) ⊎ (ahead 2 woken.current_task 1 < ahead 2 0 1)
unfolding yield scan settle poll wakes
yield_fair_example =
    yield_fair no_flags 5 two_tasks woken 1 sleeper two_tasks-IsValid refl (omega arith)
      (λ e. omega arith) refl refl

sandbox_denies_iff_example :
    (true ≡ true) ↔ Restricted sandboxed_objects (replicate 8 default_policy) 6 sandboxed_table
unfolding sandbox_denies denies_loop handle_denies object_at policy_denies
    sandbox_default_denied_low sandbox_default_denied_high
sandbox_denies_iff_example =
    sandbox_denies_iff sandboxed_objects (replicate 8 default_policy) 6 0 sandboxed_table true
      (omega arith) refl refl

resolve_iff_example :
    (resolve (running boot_objects) 0 right_send obj_pipe ≡ done (some (pos 0)))
    ↔ Entitled (running boot_objects) 0 right_send obj_pipe (pos 0)
resolve_iff_example = resolve_iff (running boot_objects) 0 right_send obj_pipe (pos 0)

-- What is left of boot once process 0 has opened pipe 9 to send.
abbrev opened : Kernel
opened = running (record {
  objects =
      record { used = true; kind = obj_pipe; data_index = pos 9 }
      ∷ replicate 31 (record { used = false; kind = 0; data_index = pos 0 });
  object_count = pos 1;
  handle_tables =
      (record { used = true; object_index = 0; rights = right_send } ∷ replicate 7 free_entry)
      ∷ replicate 7 (replicate 8 free_entry);
})

opens : pipe_open (running boot_objects) 9 1 ≡ done (returns 0 opened)
unfolding pipe_open pipe_open_for open_object open_slot open_handle alloc_object alloc_handle
    position caller_process ◌+ℤ◌
opens = refl

pipe_open_lem_example : Opened (running boot_objects) 9 1 (returns 0 opened)
pipe_open_lem_example = pipe_open_lem (running boot_objects) 9 1 (returns 0 opened) opens

pipe_send-pipe_open_faults_example : pipe_send opened 0 4096 8 ≡ fault
pipe_send-pipe_open_faults_example =
    pipe_send-pipe_open_faults (running boot_objects) opened 9 0 4096 8 refl (omega arith)
      (omega arith) opens (omega arith)

runs_0 : caller_process (running sandboxed_objects) ≡ done (pos 0)
unfolding caller_process
runs_0 = refl

fork_denied : sandbox_denies sandboxed_objects (replicate 8 default_policy) (pos 0) 95 ≡ done true
unfolding sandbox_denies denies_loop handle_denies object_at policy_denies
    sandbox_default_denied_low sandbox_default_denied_high
fork_denied = refl

syscall_dispatch-sandbox_example :
    (Restricted sandboxed_objects (replicate 8 default_policy) 95 sandboxed_table
      → syscall_dispatch [] (running sandboxed_objects) 95 0 0 0
        ≡ refuse (running sandboxed_objects))
    × (¬ Restricted sandboxed_objects (replicate 8 default_policy) 95 sandboxed_table
        → Claimed
            (running sandboxed_objects)
            95
            0
            0
            0
            []
            (syscall_dispatch [] (running sandboxed_objects) 95 0 0 0))
syscall_dispatch-sandbox_example =
    syscall_dispatch-sandbox [] (running sandboxed_objects) 95 0 0 0 0 sandboxed_table true runs_0
      (omega arith) refl fork_denied

no_print : Kernel → ℕ → ℕ → Exec Outcome
no_print k a1 a2 = refuse k

-- `OBJ_PROCESS`
abbrev obj_process : ℕ
obj_process = 1

-- A spawned process: its handle 0 is on itself, and its handle 1 on the sandbox.
abbrev self_entry : Handle
self_entry = record { used = true; object_index = 0; rights = right_query }

abbrev confining_entry : Handle
confining_entry = record { used = true; object_index = 1; rights = 0 }

abbrev spawned_table : List Handle
spawned_table = self_entry ∷ confining_entry ∷ replicate 6 free_entry

abbrev self_object : KernelObject
self_object = record { used = true; kind = obj_process; data_index = pos 0 }

abbrev spawned : Kernel
spawned = running (record {
  objects =
      self_object
      ∷ record { used = true; kind = obj_sandbox; data_index = pos 0 }
      ∷ replicate 30 free_slot;
  object_count = pos 2;
  handle_tables = spawned_table ∷ replicate 7 empty_table;
})

spawned_others :
    (j : ℕ) (g : Handle) → j ≢ 1 → get_elem? spawned_table j ≡ some g → NoSandbox spawned.tables g
spawned_others zero g ne e on =
    let same : self_entry ≡ g = some-injective _ _ e in
    rw (← same) (self_object, refl, λ q. omega arith)
spawned_others (suc zero) g ne e on = absurd (ne refl)
spawned_others (suc (suc j)) g ne e on =
    let idle : free_entry ≡ g = same_entry 6 free_entry g j e in
    absurd (ground (arith, on, ap (λ (h : Handle). h.used) idle))

confined : Confined spawned 0 1 1 0 confining_entry spawned_table
unfolding caller_process
confined = record {
  calls = refl;
  in_table = omega arith;
  table = refl;
  slot = omega arith;
  entry = refl;
  held = refl;
  others = spawned_others;
  names = refl;
  object = refl;
  policy = refl;
}

syscall_dispatch-escape_example :
    (u : Kernel) × (syscall_dispatch (syscall_core no_print ∷ []) spawned 13 1 0 0
      ≡ done (returns 0 u))
    × ((num : ℕ) → sandbox_denies u.tables u.policies (pos 0) num ≡ done false)
syscall_dispatch-escape_example =
    syscall_dispatch-escape no_print [] spawned 0 1 1 0 confining_entry spawned_table confined
