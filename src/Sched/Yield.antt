-- ===== src/Sched/Yield.antt =====
-- kernel/sched/task.c: `yield`. It runs with interrupts off, so it is one step here. The stack
-- switch itself (switch.s) and the saved stack pointers are not part of the state.
use minic_os.Base.{
  ℕ, zero, suc, ◌+◌, ◌%◌, Bool, false, not, ◌||◌, Option, none, some, List, ◌==◌, if◌then◌else◌,
  get_elem?, modify, leb,
}
use minic_os.Base.Int.{ℤ}
use minic_os.Base.Exec.{Exec, done, fault, ◌>>=◌, at_index}

-- The flag that a `bool *` of `waiting_on` points to.
pub data Flag : Type 0 where
  event_signaled channel_full io_done ping_done tcp_done wifi_done : ℕ → Flag

-- `task`
pub record Task : Type 0 where
  pub used : Bool
  pub blocked : Bool
  pub wake_tick : ℕ
  pub cr3 : ℕ
  pub ring3_entry_vaddr : ℕ
  pub ring3_user_stack_top : ℕ
  pub process_index : ℤ
  pub waiting_on : Option Flag
  pub kernel_stack_top : ℕ

-- `g_tasks`, `g_task_count`, `g_current_task`, and the two registers that `yield` loads.
pub record Tasks : Type 0 where
  pub tasks : List Task
  pub task_count : ℕ
  pub current_task : ℕ
  pub cr3 : ℕ
  pub rsp0 : ℕ

-- What `yield` reads of the rest of the kernel: the flags, and `g_tick_count`.
module _ (flags : Flag → Bool) (tick_count : ℕ) where
  -- The test `wake` of a blocked task.
  unfoldable pub wakes : Task → Bool
  wakes t = elim t.waiting_on [ none ↦ leb t.wake_tick tick_count | some f ↦ flags f ]

  -- The candidate after its test.
  unfoldable pub poll : Task → Task
  unfolding wakes
  poll t =
      if t.blocked
      then if wakes t then record t { blocked = false; waiting_on = none } else t
      else t

  -- The scan: `left` candidates to go behind `next`. The table and the last candidate.
  unfoldable pub scan : ℕ → ℕ → ℕ → List Task → Exec (List Task × ℕ)
  scan task_count zero next ts = done (ts, next)
  scan task_count (suc left) next ts =
      let n : ℕ = (next + 1) % task_count in
      let skip : Exec (List Task × ℕ) = scan task_count left n ts in
      let pass : Exec (List Task × ℕ) = scan task_count left n (modify ts n poll) in
      elim (get_elem? ts n) [
        | none ↦ fault
        | some t ↦
            if not t.used
            then skip
            else if (poll t).blocked
            then pass
            else done (modify ts n poll, n)
      ]

  -- The switch, once the scan has ended.
  unfoldable pub settle : Tasks → List Task × ℕ → Exec Tasks
  settle s (ts, next) = do
    t ← at_index (get_elem? ts next)
    done (
        if next == s.current_task || (t.blocked || not t.used)
        then record s { tasks = ts }
        else record s {
          tasks = ts;
          current_task = next;
          cr3 = t.cr3;
          rsp0 = if t.ring3_entry_vaddr == 0 then s.rsp0 else t.kernel_stack_top;
        })

  unfoldable pub yield : Tasks → Exec Tasks
  unfolding scan settle
  yield s = do r ← scan s.task_count s.task_count s.current_task s.tasks; settle s r
