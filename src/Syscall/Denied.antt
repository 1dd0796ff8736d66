-- ===== src/Syscall/Denied.antt =====
-- The sandbox check of kernel/syscall/syscall.c, in front of every handler.
use minic_os.Base.{ℕ, ◌<◌, ◌≡◌, Bool, true, some, List, get_elem?, Bool-cases, inl, inr}
use minic_os.Base.Int.{pos}
use minic_os.Base.Exec.{done}
use minic_os.Ipc.Object.{Handle, max_processes}
use minic_os.Security.Sandbox.{sandbox_denies}
use minic_os.Security.Sandbox.Denial.{Restricted, sandbox_denies_iff}
use minic_os.Syscall.State.{Kernel, refuse, caller_process}
use minic_os.Syscall.Claims.{Claimed, first_claim-Claimed}
use minic_os.Syscall.Dispatch.{Handler, first_claim, syscall_dispatch}

-- For a process with the handle table `hs` whose sandbox check comes to an answer: if an entry of
-- the table restricts the syscall, the call fails and leaves the kernel as it was, whatever the
-- handlers do; if none does, the outcome is that of the first handler that does not leave the call to
-- the others, whether it returns, waits or faults, and the call fails if there is no such handler.
pub syscall_dispatch-sandbox :
    (handlers : List Handler) (k : Kernel) (num a1 a2 a3 p : ℕ) (hs : List Handle) (b : Bool)
    → caller_process k ≡ done (pos p)
    → p < max_processes
    → get_elem? k.tables.handle_tables p ≡ some hs
    → sandbox_denies k.tables k.policies (pos p) num ≡ done b
    → (Restricted k.tables k.policies num hs → syscall_dispatch handlers k num a1 a2 a3 ≡ refuse k)
      × (¬ Restricted k.tables k.policies num hs
          → Claimed k num a1 a2 a3 handlers (syscall_dispatch handlers k num a1 a2 a3))
unfolding syscall_dispatch
syscall_dispatch-sandbox handlers k num a1 a2 a3 p hs b calls lt at run =
    let (to, from) = sandbox_denies_iff k.tables k.policies num p hs b lt at run in
    (
      λ r. let denied : b ≡ true = from r in simp (calls, run, denied),
      λ free. elim (Bool-cases b) [
        | inl denied ↦ absurd (free (to denied))
        | inr allowed ↦
            let runs : syscall_dispatch handlers k num a1 a2 a3
                ≡ first_claim handlers k num a1 a2 a3 =
              simp (calls, run, allowed) in
            rw runs (first_claim-Claimed k num a1 a2 a3 handlers)
      ],
    )
