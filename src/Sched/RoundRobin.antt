-- ===== src/Sched/RoundRobin.antt =====
-- The round of the tasks in which kernel/sched/task.c looks for the next one to run.
pub mod Scan
pub mod Next
use minic_os.Base.{
  ℕ, zero, suc, ◌+◌, ◌-◌, ◌%◌, ◌≤◌, ◌<◌, ◌≡◌, refl, sym, ap, ◌∙◌, subst, ◌≢◌, ◌⊎◌, inl, inr, Bool,
  true, false, not, ◌&&◌, ◌||◌, some, List, ◌==◌, ltb, if◌then◌else◌, length, get_elem?, modify,
  get_elem?-some, get_elem?-modify_self, modify_same, arith, Bool-cases, length-modify,
}
use mathlib.Core.Option.{some-injective}
use native.Mathlib.Decide.{dec_lt}
use native.Mathlib.Nat.{mod-lt, mod-eq_of_lt, mod-eq-sub-mod, mod-add-mod}
use minic_os.Base.Exec.{done, done-injective}
use minic_os.Sched.Yield.{Flag, Task, Tasks, wakes, poll, scan, yield, settle}

abbrev pub max_tasks : ℕ
max_tasks = 24

pub record IsValid (s : Tasks) : Type 0 where
  pub room : length s.tasks ≡ max_tasks
  pub some_task : 0 < s.task_count
  pub count_in : s.task_count ≤ max_tasks
  pub current_in : s.current_task < s.task_count

-- How far `j` is ahead of `i` in a round of `c`.
abbrev pub ahead : ℕ → ℕ → ℕ → ℕ
ahead c i j = if ltb i j then j - i else j + c - i

module _ (flags : Flag → Bool) (tick_count : ℕ) where
  -- A task that may run: it is not blocked, or what it waits for has come.
  abbrev pub ready : Task → Bool
  ready t = t.used && (not t.blocked || wakes flags tick_count t)

  -- No task from one to `n` places behind `next` is ready.
  abbrev pub NoneReady : List Task → ℕ → ℕ → ℕ → Type 0
  NoneReady ts c next n =
      (k : ℕ) → k < n → (t : Task) → get_elem? ts ((next + suc k) % c) ≡ some t → ready t ≡ false
