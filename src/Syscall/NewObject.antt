-- ===== src/Syscall/NewObject.antt =====
-- The two ways in which the handlers make an object and a handle on it. Each handler has its own
-- copy of one of them.
use minic_os.Base.{ℕ, Option, none, some}
use minic_os.Base.Int.{ℤ}
use minic_os.Base.Exec.{Exec, done, ◌>>=◌}
use minic_os.Ipc.Object.{Objects, alloc_object, free_object, alloc_handle}
use minic_os.Syscall.State.{Kernel, Outcome, returns, refuse}

-- With the handle table full, the object is freed again.
unfoldable pub open_handle : Kernel → ℕ → Option ℕ × Objects → Exec Outcome
open_handle k object (some h, u) = done (returns h (record k { tables = u }))
open_handle k object (none, u) = free_object u object >>= λ v. refuse (record k { tables = v })

unfoldable pub open_slot : Kernel → ℕ → ℕ → Option ℕ × Objects → Exec Outcome
open_slot k process rights (none, t) = refuse k
open_slot k process rights (some o, t) = alloc_handle t process o rights >>= open_handle k o

-- The way of pipes, sockets, shared memory, files and requests.
unfoldable pub open_object : Kernel → ℕ → ℕ → ℤ → ℕ → Exec Outcome
unfolding open_slot open_handle
open_object k process kind x rights = open_slot k process rights (alloc_object k.tables kind x)

-- With the handle table full, the object stays allocated.
unfoldable pub publish_handle : Kernel → Option ℕ × Objects → Exec Outcome
publish_handle k (some h, u) = done (returns h (record k { tables = u }))
publish_handle k (none, u) = refuse (record k { tables = u })

unfoldable pub publish_slot : Kernel → ℕ → ℕ → Option ℕ × Objects → Exec Outcome
publish_slot k process rights (none, t) = refuse k
publish_slot k process rights (some o, t) = alloc_handle t process o rights >>= publish_handle k

-- The way of channels, events, mutexes and timers.
unfoldable pub publish : Kernel → ℕ → ℕ → ℤ → ℕ → Exec Outcome
unfolding publish_slot publish_handle
publish k process kind x rights = publish_slot k process rights (alloc_object k.tables kind x)
