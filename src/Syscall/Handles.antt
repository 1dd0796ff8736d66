-- ===== src/Syscall/Handles.antt =====
-- kernel/syscall/handlers/core.c: syscalls 13, 83 and 84, which close and share handles. Syscall 1
-- prints, and is a parameter.
use minic_os.Base.{
  ℕ, ◌%◌, ◌/◌, ◌^◌, Bool, true, false, Option, none, some, List, [], ◌∷◌, ◌==◌, if◌then◌else◌,
  get_elem?,
}
use minic_os.Base.Int.{ℤ, pos, negsuc, int_of, index_below}
use minic_os.Base.Exec.{Exec, done, fault, ◌>>=◌, at_index}
use minic_os.Ipc.Object.{
  Objects, handles_per_process, free_object, free_handle, alloc_handle, handle_at,
}
use minic_os.Syscall.State.{
  Kernel, Outcome, returns, unclaimed, refuse, failure, caller_process, caller_handle,
}

abbrev pub max_tasks : ℕ
max_tasks = 24

-- Syscall 13.
unfoldable pub handle_close : Kernel → ℕ → Exec Outcome
handle_close k a1 = do
  found ← caller_handle k a1
  elim found [
    | none ↦ refuse k
    | some (p, i, h) ↦ do
      t ← free_object k.tables h.object_index
      u ← free_handle t p i
      done (returns 0 (record k { tables = u }))
  ]

-- The process of the task `(int) a`, if it is in range and has one.
unfoldable pub target_process : Kernel → ℕ → Exec (Option ℕ)
target_process k a = elim (index_below max_tasks (int_of a)) [
  | none ↦ done none
  | some i ↦ do
    t ← at_index (get_elem? k.sched.tasks i)
    elim t.process_index [ pos p ↦ done (some p) | negsuc n ↦ done none ]
]

-- Syscall 83.
unfoldable pub handle_grant : Kernel → ℕ → ℕ → Exec Outcome
unfolding target_process
handle_grant k a1 a2 = do
  found ← caller_handle k a1
  elim found [
    | none ↦ refuse k
    | some (p, i, h) ↦ do
      target ← target_process k a2
      elim target [
        | none ↦ refuse k
        | some q ↦ do
          r ← alloc_handle k.tables q h.object_index h.rights
          elim r.0 [
            | some n ↦ done (returns n (record k { tables = r.1 }))
            | none ↦ refuse (record k { tables = r.1 })
          ]
      ]
  ]

-- The first loop of syscall 84: every index is a used handle of the process.
unfoldable pub all_used : Objects → ℕ → List ℤ → Exec Bool
all_used t p [] = done true
all_used t p (hi ∷ his) =
    let rest : Exec Bool = all_used t p his in
    elim (index_below handles_per_process hi) [
      | none ↦ done false
      | some i ↦ handle_at t p i >>= λ h. if h.used then rest else done false
    ]

-- The second loop: each handle is copied in turn. The tables, and whether all were.
unfoldable pub grant_all : Objects → ℕ → ℕ → List ℤ → Exec (Bool × Objects)
grant_all t p q [] = done (true, t)
grant_all t p q (negsuc n ∷ his) = fault
grant_all t p q (pos i ∷ his) = handle_at t p i >>= λ h.
    alloc_handle t q h.object_index h.rights >>= λ r. elim r.0 [
      | none ↦ done (false, r.1)
      | some n ↦ grant_all r.1 p q his
    ]

-- Syscall 84.
unfoldable pub handle_grant3 : Kernel → ℕ → ℕ → ℕ → Exec Outcome
unfolding target_process all_used grant_all
handle_grant3 k a1 a2 a3 = do
  caller ← caller_process k
  elim caller [
    | negsuc n ↦ refuse k
    | pos p ↦ do
      target ← target_process k a3
      elim target [
        | none ↦ refuse k
        | some q ↦ do
          let handles = int_of a1 ∷ int_of (a2 / 2 ^ 32) ∷ int_of (a2 % 2 ^ 32) ∷ []
          checked ← all_used k.tables p handles
          elim checked [
            | false ↦ refuse k
            | true ↦ do
              r ← grant_all k.tables p q handles
              done (returns (if r.0 then 0 else failure) (record k { tables = r.1 }))
          ]
      ]
  ]

-- Syscall 1 is `print`.
unfoldable pub syscall_core :
    (Kernel → ℕ → ℕ → Exec Outcome) → Kernel → ℕ → ℕ → ℕ → ℕ → Exec Outcome
syscall_core print k num a1 a2 a3 =
    if num == 1
    then print k a1 a2
    else if num == 13
    then handle_close k a1
    else if num == 83
    then handle_grant k a1 a2
    else if num == 84
    then handle_grant3 k a1 a2 a3
    else done unclaimed
