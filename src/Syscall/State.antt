-- ===== src/Syscall/State.antt =====
-- What the syscall handlers see of the kernel, and the checks that open each of them.
use Prim.Native.Nat.{bit_and}
use minic_os.Base.{
  ℕ, ◌+◌, ◌-◌, ◌%◌, ◌^◌, true, ◌&&◌, Option, none, some, List, [], ◌∷◌, ◌==◌, leb, length,
  if◌then◌else◌, get_elem?, modify,
}
use minic_os.Base.Int.{ℤ, pos, negsuc, int_of, index_below}
use minic_os.Base.Exec.{Exec, done, fault, ◌>>=◌, at_index}
use minic_os.Ipc.Object.{Objects, Handle, handles_per_process, handle_at, object_at}
use minic_os.Ipc.Pipe.{PipeBuffer}
use minic_os.Ipc.Channel.{Channels}
use minic_os.Ipc.Sync.{Event, Mutex, Timer}
use minic_os.Sched.Yield.{Tasks, Flag}
use minic_os.Security.Sandbox.{SandboxPolicy}

-- The kernel's global variables, and the memory of the running process by address, which holds none of
-- those variables from `user_base` on.
pub record Kernel : Type 0 where
  pub tables : Objects
  pub sched : Tasks
  pub pipes : List PipeBuffer
  pub channels : Channels
  pub events : List Event
  pub mutexes : List Mutex
  pub timers : List Timer
  pub policies : List SandboxPolicy
  pub tick_count : ℕ
  pub memory : ℕ → ℕ

-- What a handler does up to its return or its next `yield`: it returns true with `*result` set, it
-- blocks and tries again when it next runs, or it returns false.
pub data Outcome : Type 0 where
  returns : ℕ → Kernel → Outcome
  waits : Kernel → Outcome
  unclaimed : Outcome

-- `(u64) -1`
abbrev pub failure : ℕ
failure = 2 ^ 64 - 1

abbrev pub refuse : Kernel → Exec Outcome
refuse k = done (returns failure k)

abbrev pub right_query : ℕ
right_query = 1

abbrev pub right_send : ℕ
right_send = 2

abbrev pub right_receive : ℕ
right_receive = 4

-- `g_tasks[g_current_task].process_index`
unfoldable pub caller_process : Kernel → Exec ℤ
caller_process k =
    at_index (get_elem? k.sched.tasks k.sched.current_task) >>= λ t. done t.process_index

-- The entry `i` of the handle table of `p`, if the index was in range and the entry is used.
unfoldable pub used_handle : Kernel → ℕ → Option ℕ → Exec (Option (ℕ × ℕ × Handle))
used_handle k p none = done none
used_handle k p (some i) =
    handle_at k.tables p i >>= λ h. done (if h.used then some (p, i, h) else none)

-- The first check: a kernel task has no handles.
unfoldable pub handle_of : Kernel → ℕ → ℤ → Exec (Option (ℕ × ℕ × Handle))
handle_of k a1 (negsuc n) = done none
handle_of k a1 (pos p) = used_handle k p (index_below handles_per_process (int_of a1))

-- The used handle `(int) a1` of the caller, with its place: the first three checks of a handler.
unfoldable pub caller_handle : Kernel → ℕ → Exec (Option (ℕ × ℕ × Handle))
caller_handle k a1 = caller_process k >>= handle_of k a1

-- The object behind a handle, if it is of the kind wanted: the last check. The result is its
-- `data_index`.
unfoldable pub object_of_kind : Kernel → ℕ → Handle → Exec (Option ℤ)
object_of_kind k kind h = object_at k.tables h.object_index >>= λ o.
    done (if o.kind == kind then some o.data_index else none)

-- The checks behind the first three, of a handler that wants a right.
unfoldable pub object_with_right : Kernel → ℕ → ℕ → Option (ℕ × ℕ × Handle) → Exec (Option ℤ)
object_with_right k right kind none = done none
object_with_right k right kind (some (p, i, h)) =
    if bit_and h.rights right == 0 then done none else object_of_kind k kind h

-- The same for a handler that wants no right.
unfoldable pub object_of_any : Kernel → ℕ → Option (ℕ × ℕ × Handle) → Exec (Option ℤ)
object_of_any k kind none = done none
object_of_any k kind (some (p, i, h)) = object_of_kind k kind h

-- All the checks of a handler that wants a right.
unfoldable pub resolve : Kernel → ℕ → ℕ → ℕ → Exec (Option ℤ)
resolve k a1 right kind = caller_handle k a1 >>= object_with_right k right kind

-- All the checks of a handler that wants no right.
unfoldable pub resolve_any : Kernel → ℕ → ℕ → Exec (Option ℤ)
resolve_any k a1 kind = caller_handle k a1 >>= object_of_any k kind

-- `table[index]` for an `int` that is not checked.
abbrev pub cell {ℓ} : {A : Type ℓ} → List A → ℤ → Exec A
cell xs (pos i) = at_index (get_elem? xs i)
cell xs (negsuc i) = fault

-- The byte at an offset of a user pointer.
abbrev pub user_byte : Kernel → ℕ → ℕ → ℕ
user_byte k address offset = k.memory ((address + offset) % 2 ^ 64)

-- The private region of a process begins here; below are the identity map, with the kernel's own
-- memory, and its heap, which all address spaces share (`clone_address_space` of
-- kernel/mm/paging/paging.c).
abbrev pub user_base : ℕ
user_base = 0x80000000

-- The memory with bytes stored from an address on.
abbrev pub store_bytes : (ℕ → ℕ) → ℕ → List ℕ → ℕ → ℕ
store_bytes memory address bytes a = elim (get_elem? bytes ((a + 2 ^ 64 - address) % 2 ^ 64)) [
  | none ↦ memory a
  | some b ↦ b
]

-- Bytes stored through a user pointer. No handler asks where the pointer points; a store outside the
-- private region can change any of the kernel's variables, and is a `fault` like a store outside an
-- array.
unfoldable pub store_user : Kernel → ℕ → List ℕ → Exec Kernel
store_user k address [] = done k
store_user k address (b ∷ bs) =
    if leb user_base address && leb (address + length (b ∷ bs)) (2 ^ 64)
    then done (record k { memory = store_bytes k.memory address (b ∷ bs) })
    else fault

-- The running task marks itself blocked on a flag.
abbrev pub block_on : Kernel → Flag → Kernel
block_on k flag = record k {
  sched = record k.sched {
    tasks =
        modify k.sched.tasks k.sched.current_task
          (λ t. record t { blocked = true; waiting_on = some flag });
  };
}
