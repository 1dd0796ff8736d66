-- ===== src/Ipc/Sync.antt =====
-- proc/ipc/event, proc/ipc/mutex and proc/ipc/timer: the tables of events, mutexes and timers, and
-- the steps on them that kernel/sched/task.c runs with interrupts off.
pub mod Exclusion
use minic_os.Base.{
  ℕ, ◌+◌, ◌%◌, ◌^◌, Bool, true, false, not, Option, List, if◌then◌else◌, modify, ltb,
}
use minic_os.Base.Int.{ℤ, pos, negsuc}
use minic_os.Base.Slots.{claim}

abbrev pub event_slots : ℕ
event_slots = 8

abbrev pub mutex_slots : ℕ
mutex_slots = 8

abbrev pub timer_slots : ℕ
timer_slots = 8

-- `event`
pub record Event : Type 0 where
  pub used : Bool
  pub signaled : Bool

-- `mutex`; `owner_task` is -1 while unlocked.
pub record Mutex : Type 0 where
  pub used : Bool
  pub locked : Bool
  pub owner_task : ℤ

-- `timer`
pub record Timer : Type 0 where
  pub used : Bool
  pub wake_tick : ℕ

unfoldable pub event_create : List Event → Option ℕ × List Event
unfolding claim
event_create = claim (λ e. not e.used) (λ e. record { used = true; signaled = false })

-- Out of range, nothing happens.
unfoldable pub event_signal : List Event → ℤ → List Event
event_signal events (pos i) =
    if ltb i event_slots then modify events i (λ e. record e { signaled = true }) else events
event_signal events (negsuc i) = events

unfoldable pub event_reset : List Event → ℤ → List Event
event_reset events (pos i) =
    if ltb i event_slots then modify events i (λ e. record e { signaled = false }) else events
event_reset events (negsuc i) = events

unfoldable pub mutex_create : List Mutex → Option ℕ × List Mutex
unfolding claim
mutex_create =
    claim (λ m. not m.used) (λ m. record { used = true; locked = false; owner_task = negsuc 0 })

-- One round of `mutex_lock`: the test-and-set. A task that is refused yields and tries again.
unfoldable pub mutex_try_lock : Mutex → ℕ → Bool × Mutex
mutex_try_lock m current_task =
    if m.locked
    then (false, m)
    else (true, record m { locked = true; owner_task = pos current_task })

unfoldable pub mutex_unlock : Mutex → Mutex
mutex_unlock m = record m { locked = false; owner_task = negsuc 0 }

-- `g_tick_count` is read here.
unfoldable pub timer_create : ℕ → List Timer → ℕ → Option ℕ × List Timer
unfolding claim
timer_create tick_count timers duration_ticks =
    claim (λ t. not t.used)
      (λ t. record { used = true; wake_tick = (tick_count + duration_ticks) % 2 ^ 64 }) timers
