-- ===== src/Syscall/Dispatch.antt =====
-- kernel/syscall/syscall.c: the sandbox check, and then the handlers in turn.
use minic_os.Base.{ℕ, List, [], ◌∷◌, if◌then◌else◌}
use minic_os.Base.Exec.{Exec, done, ◌>>=◌}
use minic_os.Security.Sandbox.{sandbox_denies}
use minic_os.Syscall.State.{Kernel, Outcome, returns, waits, unclaimed, refuse, caller_process}

-- A handler: syscall number and three arguments.
abbrev pub Handler : Type 0
Handler = Kernel → ℕ → ℕ → ℕ → ℕ → Exec Outcome

-- The first handler that claims the call; an unknown syscall fails.
unfoldable pub first_claim : List Handler → Handler
first_claim [] k num a1 a2 a3 = refuse k
first_claim (handler ∷ handlers) k num a1 a2 a3 =
    let rest : Exec Outcome = first_claim handlers k num a1 a2 a3 in
    handler k num a1 a2 a3 >>= λ r. elim r [
      | returns v k' ↦ done (returns v k')
      | waits k' ↦ done (waits k')
      | unclaimed ↦ rest
    ]

unfoldable pub syscall_dispatch : List Handler → Handler
unfolding first_claim
syscall_dispatch handlers k num a1 a2 a3 = do
  caller ← caller_process k
  denied ← sandbox_denies k.tables k.policies caller num
  if denied then refuse k else first_claim handlers k num a1 a2 a3
