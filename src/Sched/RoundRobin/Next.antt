-- ===== src/Sched/RoundRobin/Next.antt =====
-- `yield` switches to the next ready flags tick_count task in cyclic order.
use minic_os.Base.{
  ℕ, suc, ◌+◌, ◌-◌, ◌%◌, ◌<◌, ◌≡◌, refl, sym, ap, ◌∙◌, subst, ◌≢◌, ◌⊎◌, inl, inr, Bool, true, false,
  some, List, ◌==◌, ltb, if◌then◌else◌, length, get_elem?, modify, get_elem?-some,
  get_elem?-modify_self, arith, Bool-cases, length-modify,
}
use native.Mathlib.Decide.{dec_lt}
use native.Mathlib.Nat.{mod-eq_of_lt, mod-eq-sub-mod}
use minic_os.Base.Exec.{done, done-injective}
use minic_os.Sched.Yield.{Flag, Task, Tasks, poll, yield, settle}
use minic_os.Sched.RoundRobin.{IsValid, max_tasks, ready, NoneReady, ahead}
use minic_os.Sched.RoundRobin.Scan.{Scanned, idle, stops, scan-Scanned}

-- A position less than one round ahead.
wrap : (c x : ℕ) → 0 < c → x < c + c → x % c ≡ (if ltb x c then x else x - c)
wrap c x h lt = elim (Bool-cases (ltb x c)) [
  | inl e ↦ rw e (mod-eq_of_lt (ground arith))
  | inr e ↦ rw e (mod-eq-sub-mod {n = x} {m = c} (ground arith) ∙ mod-eq_of_lt (ground arith))
]

true-ne-false : {b : Bool} → b ≡ true → b ≡ false → ⊥
true-ne-false h k = ground arith

module _ (flags : Flag → Bool) (tick_count : ℕ) where
  -- What `yield` does to the scheduler's state.
  pub data Yielded (s u : Tasks) : Type 0 where
    stays :
        NoneReady flags tick_count s.tasks s.task_count s.current_task (s.task_count - 1)
        → u.current_task ≡ s.current_task
        → u.cr3 ≡ s.cr3
        → u.rsp0 ≡ s.rsp0
        → Yielded s u
    switches :
        (d : ℕ) (t : Task)
        → suc d < s.task_count
        → get_elem? s.tasks u.current_task ≡ some t
        → ready flags tick_count t ≡ true
        → NoneReady flags tick_count s.tasks s.task_count s.current_task d
        → u.current_task ≡ (s.current_task + suc d) % s.task_count
        → u.tasks ≡ modify s.tasks u.current_task (poll flags tick_count)
        → u.cr3 ≡ t.cr3
        → Yielded s u

  ready_after :
      (t : Task)
      → ready flags tick_count t ≡ true
      → ((poll flags tick_count t).blocked ≡ false)
        × ((poll flags tick_count t).used ≡ true)
        × ((poll flags tick_count t).cr3 ≡ t.cr3)
  unfolding poll
  ready_after t r = ground arith

  self_eq : (n : ℕ) → (n == n) ≡ true
  self_eq n = ground arith

  ne_eq : (m n : ℕ) → m ≢ n → (m == n) ≡ false
  ne_eq m n h = ground arith

  module _ (s : Tasks) (v : IsValid s) where
    Settled : List Task × ℕ → Type 0
    Settled r = (u : Tasks) × (settle flags tick_count s r ≡ done u) × Yielded s u

    all_but_last :
        NoneReady flags tick_count s.tasks s.task_count s.current_task (s.task_count - 1)
        → (ts : List Task) (n : ℕ) → n ≡ s.current_task
        → length ts ≡ max_tasks
        → Settled (ts, n)
    unfolding Settled settle
    all_but_last none_ready ts n e room =
        let (t, at) = get_elem?-some ts n (omega (arith, v.current_in, v.count_in)) in
        (record s { tasks = ts }, rw (at, e, self_eq), stays none_ready refl refl refl)

    round_trip : (s.current_task + s.task_count) % s.task_count ≡ s.current_task
    round_trip =
        wrap s.task_count (s.current_task + s.task_count) v.some_task (omega (arith, v.current_in))
        ∙ ground arith

    lap_ne :
        (d : ℕ) → suc d < s.task_count → (s.current_task + suc d) % s.task_count ≢ s.current_task
    lap_ne d lt = ground (
      arith,
      v.current_in,
      wrap s.task_count (s.current_task + suc d) v.some_task (omega (arith, v.current_in)),
    )

    settle_stop :
        (d n : ℕ) (t : Task)
        → suc d < s.task_count
        → n ≡ (s.current_task + suc d) % s.task_count
        → get_elem? s.tasks n ≡ some t
        → ready flags tick_count t ≡ true
        → NoneReady flags tick_count s.tasks s.task_count s.current_task d
        → Settled (modify s.tasks n (poll flags tick_count), n)
    unfolding Settled settle
    settle_stop d n t lt at e can all =
        let (free, on, same) = ready_after t can in
        let moved : n ≢ s.current_task = omega (arith, lap_ne d lt) in
        let p : Task = poll flags tick_count t in
        let u : Tasks = record s {
          tasks = modify s.tasks n (poll flags tick_count);
          current_task = n;
          cr3 = p.cr3;
          rsp0 = if p.ring3_entry_vaddr == 0 then s.rsp0 else p.kernel_stack_top;
        } in
        (
          u,
          rw (
            get_elem?-modify_self s.tasks n (poll flags tick_count) t e,
            ne_eq n s.current_task moved,
            free,
            on,
          ),
          switches d t lt e can all at refl same,
        )

    settle-Yielded :
        (r : List Task × ℕ)
        → Scanned flags tick_count s.task_count s.current_task s.task_count s.tasks r
        → Settled r
    settle-Yielded r (idle n all at) =
        all_but_last (λ k l. all k (omega arith)) s.tasks n (at ∙ round_trip) v.room
    settle-Yielded r (stops d n t lt at e can all) = elim (dec_lt (suc d) s.task_count) [
      | yes inside ↦ settle_stop d n t inside at e can all
      | no last ↦
          let full : s.current_task + suc d ≡ s.current_task + s.task_count = omega arith in
          all_but_last (λ k l. all k (omega arith)) _ n
            (at ∙ ap (λ x. x % s.task_count) full ∙ round_trip)
            (length-modify s.tasks n (poll flags tick_count) ∙ v.room)
    ]

  -- `yield` does not fault. It goes on with the running task when no other is ready, and otherwise
  -- switches to the first ready flags tick_count task behind it in cyclic order and to that task's address space.
  pub yield_lem :
      (s : Tasks) → IsValid s → (u : Tasks) × (yield flags tick_count s ≡ done u) × Yielded s u
  unfolding yield Settled
  yield_lem s v =
      let (r, run, inner) =
        scan-Scanned flags tick_count s.task_count s.task_count s.current_task s.tasks v.some_task
          (omega (arith, v.room, v.count_in)) in
      rw (run) (settle-Yielded s v r (inner v.current_in))

  -- A ready flags tick_count task is next, or comes closer: no ready flags tick_count task waits more than a round.
  pub yield_fair :
      (s u : Tasks) (j : ℕ) (t : Task)
      → IsValid s
      → yield flags tick_count s ≡ done u
      → j < s.task_count
      → j ≢ s.current_task
      → get_elem? s.tasks j ≡ some t
      → ready flags tick_count t ≡ true
      → (u.current_task ≡ j)
        ⊎ (ahead s.task_count u.current_task j < ahead s.task_count s.current_task j)
  yield_fair s u j t v run lt ne e can =
      let (u', run', w) = yield_lem s v in
      let same : u' ≡ u = done-injective (sym run' ∙ run) in progress (subst (Yielded s) same w)
    where
      c : ℕ
      c = s.task_count

      gap : ℕ
      gap = ahead c s.current_task j - 1

      there : (s.current_task + suc gap) % c ≡ j
      there = ground (arith, v.current_in, wrap c (s.current_task + suc gap) v.some_task)

      gap-lt : suc gap < c
      gap-lt = ground (arith, v.current_in)

      found : get_elem? s.tasks ((s.current_task + suc gap) % c) ≡ some t
      found = rw there e

      progress :
          Yielded s u → (u.current_task ≡ j) ⊎ (ahead c u.current_task j < ahead c s.current_task j)
      progress (stays none_ready a b d) =
          absurd (true-ne-false can (none_ready gap (omega (arith, gap-lt)) t found))
      progress (switches d t' in_round at can' before cur ts' x) = elim (dec_lt gap d) [
        | yes early ↦ absurd (true-ne-false can (before gap early t found))
        | no late ↦
            ground
              (arith, cur, wrap c (s.current_task + suc d) v.some_task, v.current_in, there, gap-lt)
      ]
