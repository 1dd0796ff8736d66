-- ===== src/Syscall/Sync.antt =====
-- kernel/syscall/handlers/sync.c: syscalls 74 to 82, with `event_wait`, `mutex_lock`, `mutex_unlock`
-- and `timer_wait` of kernel/sched/task.c.
use minic_os.Base.{ℕ, true, none, some, ◌==◌, if◌then◌else◌, modify, get_elem?}
use minic_os.Base.Int.{ℤ, pos, negsuc, index_below}
use minic_os.Base.Exec.{Exec, done, ◌>>=◌, at_index}
use minic_os.Ipc.Sync.{
  event_slots, mutex_slots, timer_slots, event_create, event_signal, event_reset, mutex_create,
  mutex_try_lock, mutex_unlock, timer_create,
}
use minic_os.Sched.Yield.{event_signaled}
use minic_os.Syscall.NewObject.{publish}
use minic_os.Syscall.State.{
  Kernel, Outcome, returns, waits, unclaimed, refuse, right_query, caller_process, resolve_any,
  block_on,
}

abbrev pub obj_event : ℕ
obj_event = 11

abbrev pub obj_mutex : ℕ
obj_mutex = 12

abbrev pub obj_timer : ℕ
obj_timer = 13

-- Syscall 74.
unfoldable pub create_event : Kernel → Exec Outcome
unfolding publish
create_event k = do
  caller ← caller_process k
  elim caller [
    | negsuc n ↦ refuse k
    | pos p ↦
        let (slot, events) = event_create k.events in
        elim slot [
          | none ↦ refuse k
          | some i ↦ publish (record k { events = events }) p obj_event (pos i) right_query
        ]
  ]

-- Syscall 78.
unfoldable pub create_mutex : Kernel → Exec Outcome
unfolding publish
create_mutex k = do
  caller ← caller_process k
  elim caller [
    | negsuc n ↦ refuse k
    | pos p ↦
        let (slot, mutexes) = mutex_create k.mutexes in
        elim slot [
          | none ↦ refuse k
          | some i ↦ publish (record k { mutexes = mutexes }) p obj_mutex (pos i) right_query
        ]
  ]

-- Syscall 81.
unfoldable pub create_timer : Kernel → ℕ → Exec Outcome
unfolding publish
create_timer k a1 = do
  caller ← caller_process k
  elim caller [
    | negsuc n ↦ refuse k
    | pos p ↦
        let (slot, timers) = timer_create k.tick_count k.timers a1 in
        elim slot [
          | none ↦ refuse k
          | some i ↦ publish (record k { timers = timers }) p obj_timer (pos i) right_query
        ]
  ]

-- A round of the loop of `event_wait`.
unfoldable pub event_wait_round : Kernel → ℤ → Exec Outcome
event_wait_round k index = elim (index_below event_slots index) [
  | none ↦ done (returns 0 k)
  | some i ↦ do
    e ← at_index (get_elem? k.events i)
    done (if e.signaled then returns 0 k else waits (block_on k (event_signaled i)))
]

-- A round of the loop of `mutex_lock`: a task that is refused stays runnable and yields.
unfoldable pub mutex_lock_round : Kernel → ℤ → Exec Outcome
mutex_lock_round k index = elim (index_below mutex_slots index) [
  | none ↦ done (returns 0 k)
  | some i ↦ do
    m ← at_index (get_elem? k.mutexes i)
    let (locked, m') = mutex_try_lock m k.sched.current_task
    done (
        if locked then returns 0 (record k { mutexes = modify k.mutexes i (λ _. m') }) else waits k)
]

-- `mutex_unlock`, which does not ask who holds the mutex.
unfoldable pub unlock : Kernel → ℤ → Exec Outcome
unlock k index = elim (index_below mutex_slots index) [
  | none ↦ done (returns 0 k)
  | some i ↦ done (returns 0 (record k { mutexes = modify k.mutexes i mutex_unlock }))
]

-- `timer_wait`: the running task sleeps to the timer's tick.
unfoldable pub timer_wait : Kernel → ℤ → Exec Outcome
timer_wait k index = elim (index_below timer_slots index) [
  | none ↦ done (returns 0 k)
  | some i ↦ do
    t ← at_index (get_elem? k.timers i)
    done (
        waits (record k {
          sched = record k.sched {
            tasks =
                modify k.sched.tasks k.sched.current_task
                  (λ s. record s { blocked = true; waiting_on = none; wake_tick = t.wake_tick });
          };
        }))
]

-- The object's slot, and then the operation on it.
abbrev pub with_object : Kernel → ℕ → ℕ → (ℤ → Exec Outcome) → Exec Outcome
with_object k a1 kind op =
    resolve_any k a1 kind >>= λ target. elim target [ none ↦ refuse k | some index ↦ op index ]

unfoldable pub syscall_sync : Kernel → ℕ → ℕ → Exec Outcome
syscall_sync k num a1 =
    if num == 74
    then create_event k
    else if num == 75
    then with_object k a1 obj_event (event_wait_round k)
    else if num == 76
    then with_object k a1 obj_event
        (λ i. done (returns 0 (record k { events = event_signal k.events i })))
    else if num == 77
    then with_object k a1 obj_event
        (λ i. done (returns 0 (record k { events = event_reset k.events i })))
    else if num == 78
    then create_mutex k
    else if num == 79
    then with_object k a1 obj_mutex (mutex_lock_round k)
    else if num == 80
    then with_object k a1 obj_mutex (unlock k)
    else if num == 81
    then create_timer k a1
    else if num == 82
    then with_object k a1 obj_timer (timer_wait k)
    else done unclaimed
